-- ===== src/Calls/Tests.antt =====
-- A read and the lengths of two transfers.
use libuc.Prelude.{◌-◌, ◌^◌, ◌≤◌, ◌<◌, ◌≡◌, ◌⊎◌, pos, negsuc, refl}
use libuc.System.{errno_result}
use libuc.Ring.{zero_sqe}
use libuc.Calls.{rw_len, read, write, at_once, awaiting, einval}
use libuc.Calls.Entries.{Call, reads, writes, plan, Follows, plan-Follows, rw_len_bounds}

-- More bytes than a transfer takes.
abbrev long_write : Call
long_write = writes (pos 3) 0x1000 (2 ^ 32)

plan-Follows_example : Follows (pos 0) long_write (plan (pos 0) long_write)
plan-Follows_example = plan-Follows (pos 0) long_write tt

-- Such a write asks for an entry, and a count that is no ssize_t for none.
plan_runs :
    (plan (pos 5) long_write
      ≡ awaiting
          (record zero_sqe {
            opcode = 23;
            fd = pos 3;
            off = 2 ^ 64 - 1;
            addr = 0x1000;
            len = 2 ^ 31 - 1;
          })
          (errno_result (pos 5)))
    × (plan (pos 5) (reads (pos 3) 0x1000 (2 ^ 63)) ≡ at_once einval (negsuc 0))
unfolding plan read write rw_len
plan_runs = (refl, refl)

rw_len_bounds_example :
    (rw_len (2 ^ 32) ≤ 2 ^ 32)
    × (rw_len (2 ^ 32) < 2 ^ 31)
    × ((rw_len (2 ^ 32) ≡ 2 ^ 32) ⊎ ((rw_len (2 ^ 32) ≡ 2 ^ 31 - 1) × (2 ^ 31 ≤ 2 ^ 32)))
rw_len_bounds_example = rw_len_bounds (2 ^ 32)
