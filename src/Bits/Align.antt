-- ===== src/Bits/Align.antt =====
-- A mask of low bits is a remainder, and a mask of high bits rounds down to a multiple.
use Prim.Native.Nat.{bit_and, digits, bit_and-bitwise, min}
use native.Mathlib.Nat.{
  div-div-eq-div-mul, pow-succ', div-mul-le_self, one-le-pow, div-add-mod', mul-mod_left, mod-lt,
  mod-eq_of_lt,
}
use libuc.Prelude.{
  ℕ, zero, suc, ◌+◌, ◌-◌, ◌*◌, ◌/◌, ◌%◌, ◌^◌, ◌≤◌, ◌<◌, ◌≡◌, refl, ◌∙◌, sym, ap, arith,
}
use libuc.Bits.{align_down}

abbrev and_digits : ℕ → ℕ → ℕ → ℕ
and_digits = digits (λ _. zero) min

-- The largest multiple of `2 ^ k` up to `a`.
abbrev down : ℕ → ℕ → ℕ
down k a = a / 2 ^ k * 2 ^ k

down-suc : (k a : ℕ) → down (suc k) a ≡ 2 * down k (a / 2)
down-suc k a = omega (
  arith,
  ap (λ (t : ℕ). a / t * t) (pow-succ' 2 k),
  ap (λ (t : ℕ). t * (2 * 2 ^ k)) (div-div-eq-div-mul a 2 (2 ^ k)),
)

down-le : (k a : ℕ) → down k a ≤ a
down-le k a = div-mul-le_self a (2 ^ k)

and_digits-zero : (n a : ℕ) → and_digits n a 0 ≡ 0
and_digits-zero zero a = refl
and_digits-zero (suc n) zero = refl
and_digits-zero (suc n) (suc a) = omega (arith, and_digits-zero n (suc a / 2))

down-zero : (k : ℕ) → down k 0 ≡ 0
down-zero k = omega (arith, down-le k 0)

low_mask_half : (k : ℕ) → ((2 ^ suc k - 1) / 2 ≡ 2 ^ k - 1) × ((2 ^ suc k - 1) % 2 ≡ 1)
low_mask_half k = omega (arith, pow-succ' 2 k, one-le-pow k 2 (omega arith))

and_digits-low : (n k a : ℕ) → a ≤ n → and_digits n a (2 ^ k - 1) ≡ a - down k a
and_digits-low n zero a h = omega (arith, and_digits-zero n a)
and_digits-low zero (suc k) zero h = omega arith
and_digits-low zero (suc k) (suc a) h = absurd (omega arith)
and_digits-low (suc n) (suc k) zero h = omega arith
and_digits-low (suc n) (suc k) (suc a) h =
    rw ((low_mask_half k).0, (low_mask_half k).1)
      (omega (
        arith,
        and_digits-low n k (suc a / 2) (omega arith),
        down-suc k (suc a),
        down-le k (suc a / 2),
      ))

-- `x & (2 ^ k - 1)` is the remainder by `2 ^ k`.
pub bit_and_mask : (k a : ℕ) → bit_and a (2 ^ k - 1) ≡ a % 2 ^ k
bit_and_mask k a = omega (
  arith,
  bit_and-bitwise a (2 ^ k - 1),
  and_digits-low a k a (omega arith),
  div-add-mod' a (2 ^ k),
)

pow_grow : (k m : ℕ) → 2 ^ (suc k + m) ≡ 2 * 2 ^ (k + m)
pow_grow k m = let size : suc k + m ≡ suc (k + m) = omega arith in rw size (pow-succ' 2 (k + m))

high_mask_half :
    (k m : ℕ)
    → ((2 ^ (suc k + m) - 2 ^ suc k) / 2 ≡ 2 ^ (k + m) - 2 ^ k)
      × ((2 ^ (suc k + m) - 2 ^ suc k) % 2 ≡ 0)
high_mask_half k m = omega (arith, pow_grow k m, pow-succ' 2 k)

and_digits-high :
    (n k m a : ℕ) → a ≤ n → a < 2 ^ (k + m) → and_digits n a (2 ^ (k + m) - 2 ^ k) ≡ down k a
and_digits-high n zero m a h lt =
    omega (arith, and_digits-low n (0 + m) a h, mod-eq_of_lt lt, div-add-mod' a (2 ^ (0 + m)))
and_digits-high zero (suc k) m zero h lt = sym (down-zero (suc k))
and_digits-high zero (suc k) m (suc a) h lt = absurd (omega arith)
and_digits-high (suc n) (suc k) m zero h lt = sym (down-zero (suc k))
and_digits-high (suc n) (suc k) m (suc a) h lt =
    rw ((high_mask_half k m).0, (high_mask_half k m).1)
      (omega (
        arith,
        and_digits-high n k m (suc a / 2) (omega arith) (omega (arith, pow_grow k m)),
        down-suc k (suc a),
      ))

-- On 64 bits `x & ~(alignment - 1)` is the largest multiple of the power of two up to `x`.
pub align_down-mod : (k a : ℕ) → k ≤ 64 → a < 2 ^ 64 → align_down a (2 ^ k) ≡ a - a % 2 ^ k
unfolding align_down
align_down-mod k a small fits =
    let size : k + (64 - k) ≡ 64 = omega arith in
    let mask : 2 ^ 64 - 1 - (2 ^ k - 1) ≡ 2 ^ (k + (64 - k)) - 2 ^ k =
      rw size (omega (arith, one-le-pow k 2 (omega arith))) in
    rw mask (
      omega (
        arith,
        bit_and-bitwise a (2 ^ (k + (64 - k)) - 2 ^ k),
        and_digits-high a k (64 - k) a (omega arith) (rw size fits),
        div-add-mod' a (2 ^ k),
      ))

-- What callers need of a rounded address.
pub align_down_bounds :
    (k a : ℕ)
    → k ≤ 64
    → a < 2 ^ 64
    → (align_down a (2 ^ k) % 2 ^ k ≡ 0)
      × (align_down a (2 ^ k) ≤ a)
      × (a < align_down a (2 ^ k) + 2 ^ k)
align_down_bounds k a small fits = rw (align_down-mod k a small fits) (
  ap (λ (t : ℕ). t % 2 ^ k) multiple ∙ mul-mod_left (a / 2 ^ k) (2 ^ k),
  omega arith,
  omega (arith, mod-lt a (one-le-pow k 2 (omega arith))),
)
  where
    multiple : a - a % 2 ^ k ≡ a / 2 ^ k * 2 ^ k
    multiple = omega (arith, div-add-mod' a (2 ^ k))
