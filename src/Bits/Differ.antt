-- ===== src/Bits/Differ.antt =====
-- `a ^ b` is zero exactly at equal words, and `a | b` exactly at two zeros.
use Prim.Native.Nat.{bit_or, bit_xor, digits, bit_or-bitwise, bit_xor-bitwise, differ, max}
use libuc.Prelude.{ℕ, zero, suc, ◌/◌, ◌%◌, ◌≤◌, ◌≡◌, refl, ◌↔◌, ◌∙◌, sym, ap, arith}

differ-eq-zero : (x y : ℕ) → differ x y ≡ 0 → x ≡ y
differ-eq-zero zero y h = omega arith
differ-eq-zero (suc x) zero h = absurd (omega arith)
differ-eq-zero (suc x) (suc y) h = ap suc (differ-eq-zero x y h)

differ_self : (x : ℕ) → differ x x ≡ 0
differ_self zero = refl
differ_self (suc x) = differ_self x

xor_digits-eq-zero : (n a b : ℕ) → a ≤ n → digits (λ y. y) differ n a b ≡ 0 → a ≡ b
xor_digits-eq-zero zero zero b h e = omega arith
xor_digits-eq-zero zero (suc a) b h e = absurd (omega arith)
xor_digits-eq-zero (suc n) zero b h e = omega arith
xor_digits-eq-zero (suc n) (suc a) b h e = omega (
  arith,
  xor_digits-eq-zero n (suc a / 2) (b / 2) (omega arith) (omega arith),
  differ-eq-zero (suc a % 2) (b % 2) (omega arith),
)

xor_digits_self : (n a : ℕ) → a ≤ n → digits (λ y. y) differ n a a ≡ 0
xor_digits_self zero zero h = refl
xor_digits_self zero (suc a) h = absurd (omega arith)
xor_digits_self (suc n) zero h = refl
xor_digits_self (suc n) (suc a) h =
    omega (arith, xor_digits_self n (suc a / 2) (omega arith), differ_self (suc a % 2))

pub bit_xor-eq-zero_iff : (a b : ℕ) → (bit_xor a b ≡ 0) ↔ (a ≡ b)
bit_xor-eq-zero_iff a b = (
  λ h. xor_digits-eq-zero a a b (omega arith) (sym (bit_xor-bitwise a b) ∙ h),
  λ e. rw (← e) (bit_xor-bitwise a a ∙ xor_digits_self a a (omega arith)),
)

or_digits-eq-zero : (n a b : ℕ) → a ≤ n → digits (λ y. y) max n a b ≡ 0 → (a ≡ 0) × (b ≡ 0)
or_digits-eq-zero zero zero b h e = omega arith
or_digits-eq-zero zero (suc a) b h e = absurd (omega arith)
or_digits-eq-zero (suc n) zero b h e = omega arith
or_digits-eq-zero (suc n) (suc a) b h e =
    omega (arith, or_digits-eq-zero n (suc a / 2) (b / 2) (omega arith) (omega arith))

pub bit_or-eq-zero : (a b : ℕ) → bit_or a b ≡ 0 → (a ≡ 0) × (b ≡ 0)
bit_or-eq-zero a b h = or_digits-eq-zero a a b (omega arith) (sym (bit_or-bitwise a b) ∙ h)

pub bit_or-zero_zero : bit_or 0 0 ≡ 0
bit_or-zero_zero = refl
