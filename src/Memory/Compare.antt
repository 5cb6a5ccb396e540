-- ===== src/Memory/Compare.antt =====
-- memcmp of src/string/memcmp.c: a scan by blocks of 64 bytes, then by words of 8, then by bytes.
-- The memory holds bytes; fuel bounds the rounds of the two `while` loops.
pub mod Words
pub mod Lexicographic
use Prim.Native.Nat.{bit_or, bit_xor}
use libuc.Prelude.{
  ℕ, zero, suc, ◌+◌, ◌-◌, ◌*◌, ◌/◌, ◌%◌, ◌^◌, ℤ, pos, negsuc, Bool, true, false, ◌==◌, ltb, Option,
  none, some, if◌then◌else◌,
}

-- The little-endian number in `n` bytes.
unfoldable pub load_le : (ℕ → ℕ) → (address n : ℕ) → ℕ
load_le m address zero = 0
load_le m address (suc n) = m address + 256 * load_le m (address + 1) n

-- A `scalar`.
unfoldable pub scalar : (ℕ → ℕ) → (address : ℕ) → ℕ
scalar m address = load_le m address 8

-- `__builtin_bswapg` of a number of `n` bytes.
unfoldable pub bswap : (n : ℕ) → ℕ → ℕ
bswap zero x = 0
bswap (suc n) x = x % 256 * 256 ^ n + bswap n (x / 256)

-- `__builtin_reduce_or(a ^ b)` of two vectors of `k` scalars.
unfoldable pub reduce_or_xor : (ℕ → ℕ) → (l r k : ℕ) → ℕ
reduce_or_xor m l r zero = 0
reduce_or_xor m l r (suc k) =
    bit_or (bit_xor (scalar m l) (scalar m r)) (reduce_or_xor m (l + 8) (r + 8) k)

-- `for (i = 0; i < n; i++)`, with `k` rounds left.
unfoldable pub compare_tail : (ℕ → ℕ) → (l r i k : ℕ) → ℤ
compare_tail m l r i zero = pos 0
compare_tail m l r i (suc k) =
    if m (l + i) == m (r + i)
    then compare_tail m l r (i + 1) k
    else if ltb (m (l + i)) (m (r + i))
    then negsuc 0
    else pos 1

-- `while (n >= sizeof(scalar))`, and the bytes behind it.
unfoldable pub compare_words : (ℕ → ℕ) → (fuel l r n : ℕ) → Option ℤ
compare_words m zero l r n = none
compare_words m (suc fuel) l r n = elim (ltb n 8) [
  | true ↦ some (compare_tail m l r 0 n)
  | false ↦ elim (scalar m l == scalar m r) [
    | true ↦ compare_words m fuel (l + 8) (r + 8) (n - 8)
    | false ↦ some (if ltb (bswap 8 (scalar m l)) (bswap 8 (scalar m r)) then negsuc 0 else pos 1)
  ]
]

-- `while (n >= sizeof(block))`: where the word loop starts. The break skips the decrement.
unfoldable pub skip_blocks : (ℕ → ℕ) → (fuel l r n : ℕ) → Option (ℕ × ℕ × ℕ)
skip_blocks m zero l r n = none
skip_blocks m (suc fuel) l r n = elim (ltb n 64) [
  | true ↦ some (l, r, n)
  | false ↦ elim (reduce_or_xor m l r 8 == 0) [
    | true ↦ skip_blocks m fuel (l + 64) (r + 64) (n - 64)
    | false ↦ some (l, r, n)
  ]
]

unfoldable pub memcmp : (ℕ → ℕ) → (fuel lhs rhs n : ℕ) → Option ℤ
memcmp m fuel lhs rhs n = elim (skip_blocks m fuel lhs rhs n) [
  | none ↦ none
  | some (l, r, left) ↦ compare_words m fuel l r left
]
