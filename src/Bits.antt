-- ===== src/Bits.antt =====
-- The bit operations that the code applies to machine words, as arithmetic: masks, alignment by
-- `& ~(alignment - 1)`, the test for a power of two, and differences by `^` and `|`.
pub mod Align
pub mod Differ
pub mod Popcount
pub mod Power
use Prim.Native.Nat.{bit_and, bit_or, bit_xor}
use libuc.Prelude.{ℕ, zero, suc, ◌+◌, ◌-◌, ◌/◌, ◌%◌, ◌^◌, Option, none, some, ltb, if◌then◌else◌}

-- `x & ~(alignment - 1)` on 64 bits, for an alignment that is not 0.
unfoldable pub align_down : ℕ → ℕ → ℕ
align_down x alignment = bit_and x (2 ^ 64 - 1 - (alignment - 1))

-- `__builtin_popcountg` of a number below `2 ^ w`.
unfoldable pub popcount : (w : ℕ) → ℕ → ℕ
popcount zero x = 0
popcount (suc w) x = x % 2 + popcount w (x / 2)

-- `ckd_add` and `ckd_mul` on `size_t`: `none` is the true that reports an overflow.
unfoldable pub ckd : ℕ → Option ℕ
ckd exact = if ltb exact (2 ^ 64) then some exact else none
