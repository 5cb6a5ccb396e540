-- ===== src/Bits/Popcount.antt =====
-- One bit set means a power of two.
use native.Mathlib.Nat.{pow-succ'}
use libuc.Prelude.{ℕ, zero, suc, ◌/◌, ◌%◌, ◌^◌, ◌<◌, ◌≡◌, refl, ◌⊎◌, inl, inr, arith}
use libuc.Bits.{popcount}

popcount-eq-zero : (w x : ℕ) → x < 2 ^ w → popcount w x ≡ 0 → x ≡ 0
unfolding popcount
popcount-eq-zero zero x lt h = omega arith
popcount-eq-zero (suc w) x lt h =
    omega (
      arith,
      pow-succ' 2 w,
      popcount-eq-zero w (x / 2) (omega (arith, pow-succ' 2 w)) (omega arith),
    )

-- A word with one bit set is a power of two within the word.
pub popcount-eq-one : (w x : ℕ) → x < 2 ^ w → popcount w x ≡ 1 → (k : ℕ) × (k < w) × (x ≡ 2 ^ k)
unfolding popcount
popcount-eq-one zero x lt h = absurd (omega arith)
popcount-eq-one (suc w) x lt h = elim (low_digit x) [
  | inl even ↦
      let (k, below, e) = popcount-eq-one w (x / 2) (omega (arith, pow-succ' 2 w)) (omega arith) in
      (suc k, omega arith, omega (arith, pow-succ' 2 k))
  | inr odd ↦ (
    0,
    omega arith,
    omega (arith, popcount-eq-zero w (x / 2) (omega (arith, pow-succ' 2 w)) (omega arith)),
  )
]
  where
    low_digit : (x : ℕ) → (x % 2 ≡ 0) ⊎ (x % 2 ≡ 1)
    low_digit x = ground arith

popcount-zero : (w : ℕ) → popcount w 0 ≡ 0
unfolding popcount
popcount-zero zero = refl
popcount-zero (suc w) = omega (arith, popcount-zero w)

-- And a power of two has one bit set.
pub popcount-pow : (w k : ℕ) → k < w → popcount w (2 ^ k) ≡ 1
unfolding popcount
popcount-pow zero k h = absurd (omega arith)
popcount-pow (suc w) zero h = omega (arith, popcount-zero w)
popcount-pow (suc w) (suc k) h =
    let half : 2 ^ suc k / 2 ≡ 2 ^ k = omega (arith, pow-succ' 2 k) in
    rw half (omega (arith, pow-succ' 2 k, popcount-pow w k (omega arith)))
