-- ===== src/Memory/Compare/Words.antt =====
-- A word of two byte strings against the bytes in it.
use libuc.Prelude.{
  ℕ, zero, suc, ◌+◌, ◌*◌, ◌/◌, ◌%◌, ◌^◌, ◌<◌, ◌≡◌, ◌≢◌, refl, ap, arith, ℤ, pos, negsuc, true, ◌==◌,
  ltb, if◌then◌else◌, ℕ_discrete, dec_lt,
}
use libuc.Memory.Compare.{load_le, bswap}

-- The big-endian number in `n` bytes.
unfoldable pub load_be : (ℕ → ℕ) → (address n : ℕ) → ℕ
load_be m address zero = 0
load_be m address (suc n) = m address * 256 ^ n + load_be m (address + 1) n

-- The lexicographic order of two byte strings of one length: the first difference decides.
unfoldable pub compare_bytes : (ℕ → ℕ) → (l r n : ℕ) → ℤ
compare_bytes m l r zero = pos 0
compare_bytes m l r (suc n) =
    if m l == m r
    then compare_bytes m (l + 1) (r + 1) n
    else if ltb (m l) (m r)
    then negsuc 0
    else pos 1

-- A step of a product, for a factor that `omega` takes as it is.
mul-lt : (a b p x y : ℕ) → a < b → x < p → a * p + x < b * p + y
mul-lt a b p x y lt small = grind arith

module _ (m : ℕ → ℕ) (bytes : (a : ℕ) → m a < 256) where
  pub load_be-lt-pow : (address n : ℕ) → load_be m address n < 256 ^ n
  unfolding load_be
  load_be-lt-pow address zero = omega arith
  load_be-lt-pow address (suc n) = grind (arith, bytes address, load_be-lt-pow (address + 1) n)

  -- The byte swap turns the one order of bytes into the other.
  pub bswap-load_le : (n address : ℕ) → bswap n (load_le m address n) ≡ load_be m address n
  unfolding bswap load_le load_be
  bswap-load_le zero address = refl
  bswap-load_le (suc n) address =
      let low : (m address + 256 * load_le m (address + 1) n) % 256 ≡ m address =
        omega (arith, bytes address) in
      let high : (m address + 256 * load_le m (address + 1) n) / 256 ≡ load_le m (address + 1) n =
        omega (arith, bytes address) in
      rw (low, high, bswap-load_le n (address + 1)) refl

  -- Equal words: the comparison goes on behind them.
  pub compare_bytes-same :
      (n l r k : ℕ)
      → load_le m l n ≡ load_le m r n
      → compare_bytes m l r (n + k) ≡ compare_bytes m (l + n) (r + n) k
  unfolding load_le compare_bytes
  compare_bytes-same zero l r k e =
      let size : 0 + k ≡ k = omega arith in
      let left : l + 0 ≡ l = omega arith in
      let right : r + 0 ≡ r = omega arith in rw (size, left, right) refl
  compare_bytes-same (suc n) l r k e =
      let size : suc n + k ≡ suc (n + k) = omega arith in
      let left : l + suc n ≡ l + 1 + n = omega arith in
      let right : r + suc n ≡ r + 1 + n = omega arith in
      let first : (m l == m r) ≡ true = ground (arith, bytes l, bytes r) in
      rw (size, left, right, first)
        (compare_bytes-same n (l + 1) (r + 1) k (omega (arith, bytes l, bytes r)))

  -- Unequal words: the order of the big-endian numbers is the comparison.
  pub compare_bytes-differ :
      (n l r k : ℕ)
      → load_le m l n ≢ load_le m r n
      → compare_bytes m l r (n + k)
        ≡ (if ltb (load_be m l n) (load_be m r n) then negsuc 0 else pos 1)
  unfolding load_le load_be compare_bytes
  compare_bytes-differ zero l r k ne = absurd (ne refl)
  compare_bytes-differ (suc n) l r k ne =
      let size : suc n + k ≡ suc (n + k) = omega arith in
      elim (ℕ_discrete (m l) (m r)) [
        | yes e ↦
            let tails : load_le m (l + 1) n ≢ load_le m (r + 1) n = ground arith in
            rw size (
              ground (
                arith,
                compare_bytes-differ n (l + 1) (r + 1) k tails,
                ap (λ (t : ℕ). t * 256 ^ n) e,
              ))
        | no first ↦ elim (dec_lt (m l) (m r)) [
          | yes lt ↦
              let less =
                mul-lt (m l) (m r) (256 ^ n) (load_be m (l + 1) n) (load_be m (r + 1) n) lt
                  (load_be-lt-pow (l + 1) n) in
              rw size (ground arith)
          | no ge ↦
              let more =
                mul-lt (m r) (m l) (256 ^ n) (load_be m (r + 1) n) (load_be m (l + 1) n)
                  (omega arith) (load_be-lt-pow (r + 1) n) in
              rw size (ground arith)
        ]
      ]
