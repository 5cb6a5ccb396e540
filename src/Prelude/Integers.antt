-- ===== src/Prelude/Integers.antt =====
-- Signed integers over the native numbers, as far as C's `int` and `long` need them.
use Prim.Native.Nat.{ℕ, suc, ◌+◌, ◌-◌, ◌%◌, ◌^◌}
use mathlib.Core.Bool.{Bool, true, false}
use libuc.Prelude.Tests.{leb, ltb, if◌then◌else◌}

-- `negsuc n` is -(n + 1).
pub data ℤ : Type 0 where
  pos : ℕ → ℤ
  negsuc : ℕ → ℤ

-- `z < 0`
abbrev pub is_negative : ℤ → Bool
is_negative (pos n) = false
is_negative (negsuc n) = true

-- The value of a non-negative integer, and 0 of a negative one.
abbrev pub pos_part : ℤ → ℕ
pos_part (pos n) = n
pos_part (negsuc n) = 0

-- -z
abbrev pub neg_part : ℤ → ℕ
neg_part (pos n) = 0
neg_part (negsuc n) = suc n

-- -n, for a number n.
abbrev pub neg_ℕ : ℕ → ℤ
neg_ℕ n = if leb n 0 then pos 0 else negsuc (n - 1)

-- The conversion of a signed integer to an unsigned one of `w` bits, for |z| ≤ 2 ^ w.
abbrev pub to_unsigned : ℕ → ℤ → ℕ
to_unsigned w (pos n) = n % 2 ^ w
to_unsigned w (negsuc n) = 2 ^ w - 1 - n % 2 ^ w

-- The conversion of an unsigned integer to a signed one of `w + 1` bits.
abbrev pub to_signed : ℕ → ℕ → ℤ
to_signed w n =
    let r = n % 2 ^ (w + 1) in if ltb r (2 ^ w) then pos r else negsuc (2 ^ (w + 1) - 1 - r)
