-- ===== src/Bits/Power.antt =====
-- Powers of two as moduli.
use Prim.Native.Nat.{◌∣◌}
use mathlib.Core.Path.{subst}
use native.Mathlib.Nat.{
  pow-succ', mod-mod_of_dvd, dvd-mul_right, pow-le-pow_right, mod-eq_of_lt, mod-eq-sub-mod,
  mod-add-mod, mod-lt, add-mod, add-zero, mod-mod, zero-mod,
}
use libuc.Prelude.{
  ℕ, zero, suc, ◌+◌, ◌-◌, ◌*◌, ◌%◌, ◌^◌, ◌≤◌, ◌<◌, ◌≡◌, ◌≢◌, sym, ◌∙◌, ap, arith, dec_lt,
}

pub pow_add : (k m : ℕ) → 2 ^ (k + m) ≡ 2 ^ k * 2 ^ m
pow_add zero m = let start : 0 + m ≡ m = omega arith in rw start (omega arith)
pow_add (suc k) m =
    let start : suc k + m ≡ suc (k + m) = omega arith in
    rw start (
      omega (
        arith,
        pow-succ' 2 (k + m),
        ap (λ (t : ℕ). t * 2 ^ m) (pow-succ' 2 k),
        ap (λ (t : ℕ). 2 * t) (pow_add k m),
      ))

pub pow-dvd-pow : (k m : ℕ) → k ≤ m → 2 ^ k ∣ 2 ^ m
pow-dvd-pow k m le =
    let size : k + (m - k) ≡ m = omega arith in
    subst (λ t. 2 ^ k ∣ t) (sym (pow_add k (m - k)) ∙ ap (λ (t : ℕ). 2 ^ t) size)
      (dvd-mul_right (2 ^ k) (2 ^ (m - k)))

pub pow-le-pow : (k m : ℕ) → k ≤ m → 2 ^ k ≤ 2 ^ m
pow-le-pow k m le = pow-le-pow_right (omega arith) le

-- A word of `m` bits wraps at a multiple of a smaller power.
pub mod-mod_pow : (k m x : ℕ) → k ≤ m → x % 2 ^ m % 2 ^ k ≡ x % 2 ^ k
mod-mod_pow k m x le = mod-mod_of_dvd (2 ^ k) x (pow-dvd-pow k m le)

-- Fewer than `p` steps from a residue do not come back to it.
add-mod-ne_of_lt : (p h d : ℕ) → h < p → 0 < d → d < p → (h + d) % p ≢ h
add-mod-ne_of_lt p h d hh hd hp = elim (dec_lt (h + d) p) [
  | yes small ↦ omega (arith, mod-eq_of_lt small)
  | no large ↦ omega (
    arith,
    mod-eq-sub-mod {n = h + d} {m = p} (omega arith),
    mod-eq_of_lt {n = h + d - p} {m = p} (omega arith),
  )
]

-- Indices less than `p` apart have distinct residues.
pub mod-ne_of_near : (p i j : ℕ) → i < j → j < i + p → i % p ≢ j % p
mod-ne_of_near p i j lt near e =
    let gap : i + (j - i) ≡ j = omega arith in
    add-mod-ne_of_lt p (i % p) (j - i) (mod-lt i (omega arith)) (omega arith) (omega arith)
      (mod-add-mod i p (j - i) ∙ ap (λ (t : ℕ). t % p) gap ∙ sym e)

pub sub-mod_zero : (a b m : ℕ) → b ≤ a → a % m ≡ 0 → b % m ≡ 0 → (a - b) % m ≡ 0
sub-mod_zero a b m le ha hb =
    let whole : a ≡ (a - b) + b = omega arith in
    let sum : 0 ≡ ((a - b) % m + 0) % m =
      sym ha
      ∙ ap (λ (t : ℕ). t % m) whole
      ∙ add-mod (a - b) b m
      ∙ ap (λ (t : ℕ). ((a - b) % m + t) % m) hb in
    sym (sum ∙ ap (λ (t : ℕ). t % m) (add-zero ((a - b) % m)) ∙ mod-mod (a - b) m)

-- A multiple of 8 is one of each smaller power of two.
pub mod_zero_of_eight : (k x : ℕ) → k ≤ 3 → x % 8 ≡ 0 → x % 2 ^ k ≡ 0
mod_zero_of_eight k x le h =
    sym (mod-mod_pow k 3 x le) ∙ ap (λ (t : ℕ). t % 2 ^ k) h ∙ zero-mod (2 ^ k)

-- And a multiple of a larger one is a multiple of 8.
pub mod_eight_of_zero : (k x : ℕ) → 3 ≤ k → x % 2 ^ k ≡ 0 → x % 8 ≡ 0
mod_eight_of_zero k x le h = sym (mod-mod_pow 3 k x le) ∙ ap (λ (t : ℕ). t % 8) h
