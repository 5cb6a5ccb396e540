-- ===== src/Calls.antt =====
-- src/unistd and src/sys/socket: each call fills an entry, awaits it, and turns the result into
-- errno and a return value.
pub mod Entries
mod Tests
use libuc.Prelude.{
  ℕ, ◌-◌, ◌%◌, ◌^◌, ℤ, pos, negsuc, ltb, leb, if◌then◌else◌, to_signed, to_unsigned,
}
use libuc.System.{errno_result}
use libuc.Ring.{Sqe, zero_sqe}

-- A call is answered at once, with errno and what it returns, or awaits an entry and makes them of
-- the result.
pub data Plan : Type 0 where
  at_once : (errno : ℤ) → (returned : ℤ) → Plan
  awaiting : Sqe → (finish : ℤ → ℤ × ℤ) → Plan

-- `(int)` on a result of 32 bits.
abbrev pub to_int : ℤ → ℤ
to_int z = to_signed 31 (to_unsigned 32 z)

-- `(int)__libuc_errno_result(res)`
unfoldable pub int_result : (errno : ℤ) → ℤ → ℤ × ℤ
int_result errno res = let (errno', value) = errno_result errno res in (errno', to_int value)

-- `__libuc_rw_len`
unfoldable pub rw_len : ℕ → ℕ
rw_len count = (if ltb (2 ^ 31 - 1) count then 2 ^ 31 - 1 else count) % 2 ^ 32

-- EINVAL
abbrev pub einval : ℤ
einval = pos 22

unfoldable pub read : (errno fd : ℤ) → (buf count : ℕ) → Plan
read errno fd buf count =
    if leb (2 ^ 63) count
    then at_once einval (negsuc 0)
    else awaiting
        (record zero_sqe { opcode = 22; fd = fd; off = 2 ^ 64 - 1; addr = buf; len = rw_len count })
        (errno_result errno)

unfoldable pub write : (errno fd : ℤ) → (buf count : ℕ) → Plan
write errno fd buf count =
    if leb (2 ^ 63) count
    then at_once einval (negsuc 0)
    else awaiting
        (record zero_sqe { opcode = 23; fd = fd; off = 2 ^ 64 - 1; addr = buf; len = rw_len count })
        (errno_result errno)

unfoldable pub close : (errno fd : ℤ) → Plan
close errno fd = awaiting (record zero_sqe { opcode = 19; fd = fd }) (int_result errno)

unfoldable pub pipe2 : (errno : ℤ) (fds : ℕ) (flags : ℤ) → Plan
pipe2 errno fds flags =
    awaiting (record zero_sqe { opcode = 62; addr = fds; op_flags = to_unsigned 32 flags })
      (int_result errno)

unfoldable pub pipe : (errno : ℤ) (fds : ℕ) → Plan
pipe errno fds = pipe2 errno fds (pos 0)

unfoldable pub accept : (errno fd : ℤ) → (addr len : ℕ) → Plan
accept errno fd addr len =
    awaiting (record zero_sqe { opcode = 13; fd = fd; addr = addr; off = len }) (int_result errno)

unfoldable pub bind : (errno fd : ℤ) → (addr len : ℕ) → Plan
bind errno fd addr len =
    awaiting (record zero_sqe { opcode = 56; fd = fd; addr = addr; off = len }) (int_result errno)

unfoldable pub connect : (errno fd : ℤ) → (addr len : ℕ) → Plan
connect errno fd addr len =
    awaiting (record zero_sqe { opcode = 16; fd = fd; addr = addr; off = len }) (int_result errno)

unfoldable pub listen : (errno fd backlog : ℤ) → Plan
listen errno fd backlog =
    awaiting (record zero_sqe { opcode = 57; fd = fd; len = to_unsigned 32 backlog })
      (int_result errno)

unfoldable pub socket : (errno domain type protocol : ℤ) → Plan
socket errno domain type protocol =
    awaiting
      (record zero_sqe {
        opcode = 45;
        fd = domain;
        off = to_unsigned 32 type;
        len = to_unsigned 32 protocol;
      })
      (int_result errno)
