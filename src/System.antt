-- ===== src/System.antt =====
-- src/syscall.h and src/errno: how a system call reports failure, and how errno is set.
pub mod Errors
pub mod Wrappers
mod Tests
use libuc.Prelude.{
  ℕ, ℤ, pos, negsuc, pos_part, neg_part, Bool, true, false, leb, neg_ℕ, is_negative, ◌&&◌, ◌^◌,
  if◌then◌else◌, to_signed, to_unsigned,
}

-- A `long` from -4095 to -1 is an error.
unfoldable pub syscall_failed : ℤ → Bool
syscall_failed result = is_negative result && leb (neg_part result) 4095

-- `(uintptr_t)result`
abbrev pub to_address : ℤ → ℕ
to_address = to_unsigned 64

-- The thread's errno beside what the function returns. `(int)-res` narrows.
unfoldable pub errno_result : (errno : ℤ) → ℤ → ℤ × ℤ
errno_result errno res =
    if is_negative res then (to_signed 31 (neg_part res), negsuc 0) else (errno, res)
