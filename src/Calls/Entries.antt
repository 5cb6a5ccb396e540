-- ===== src/Calls/Entries.antt =====
-- What the calls ask for, and what they return.
use libuc.Prelude.{
  ap, ap₂, ◌==◌, Bool, Option, some, none, if◌then◌else◌, to_signed, ◌&&◌, ℕ, ◌+◌, ◌-◌, ◌^◌, ◌≤◌,
  ◌<◌, ◌≡◌, ◌⊎◌, inl, inr, refl, arith, ℤ, pos, negsuc, neg_part, leb, to_unsigned, Bool-cases,
}
use libuc.System.{errno_result}
use libuc.Ring.{Sqe}
use libuc.Calls.{
  Plan, at_once, awaiting, int_result, rw_len, einval, read, write, close, pipe2, pipe, accept,
  bind, connect, listen, socket,
}

-- A call with its arguments.
pub data Call : Type 0 where
  reads writes : (fd : ℤ) → (buf count : ℕ) → Call
  closes : (fd : ℤ) → Call
  pipes : (fds : ℕ) → Call
  pipes2 : (fds : ℕ) → (flags : ℤ) → Call
  accepts binds connects : (fd : ℤ) → (addr len : ℕ) → Call
  listens : (fd backlog : ℤ) → Call
  sockets : (domain type protocol : ℤ) → Call

unfoldable pub plan : (errno : ℤ) → Call → Plan
plan errno (reads fd buf count) = read errno fd buf count
plan errno (writes fd buf count) = write errno fd buf count
plan errno (closes fd) = close errno fd
plan errno (pipes fds) = pipe errno fds
plan errno (pipes2 fds flags) = pipe2 errno fds flags
plan errno (accepts fd addr len) = accept errno fd addr len
plan errno (binds fd addr len) = bind errno fd addr len
plan errno (connects fd addr len) = connect errno fd addr len
plan errno (listens fd backlog) = listen errno fd backlog
plan errno (sockets domain type protocol) = socket errno domain type protocol

-- A result of 32 bits: what an errno and a return value are made of it.
abbrev pub Fits : ℤ → Type 0
Fits (pos n) = n < 2 ^ 31
Fits (negsuc n) = n < 2 ^ 31

-- The errno convention: a negative result is -1 and its number in errno, any other is returned and
-- leaves errno alone.
abbrev pub convention : (errno res : ℤ) → ℤ × ℤ
convention errno (pos n) = (errno, pos n)
convention errno (negsuc n) = (pos (n + 1), negsuc 0)

-- The arguments of type int.
abbrev pub IsCall : Call → Type 0
IsCall (pipes2 fds flags) = Fits flags
IsCall (listens fd backlog) = Fits backlog
IsCall (sockets domain type protocol) = Fits type × Fits protocol
IsCall _ = Unit

-- The bytes to transfer, 0 where there are none.
abbrev pub count_of : Call → ℕ
count_of (reads fd buf count) = count
count_of (writes fd buf count) = count
count_of _ = 0

-- The call that is made for it: a count is at most the largest int, and a pipe has no flags.
abbrev pub narrowed : Call → Call
narrowed (reads fd buf count) = reads fd buf (if leb count (2 ^ 31 - 1) then count else 2 ^ 31 - 1)
narrowed (writes fd buf count) =
    writes fd buf (if leb count (2 ^ 31 - 1) then count else 2 ^ 31 - 1)
narrowed (pipes fds) = pipes2 fds (pos 0)
narrowed call = call

abbrev when : Bool → Call → Option Call
when b call = if b then some call else none

-- io_uring's documentation: the call that the kernel makes of an entry, by its opcode. A transfer
-- at offset -1 is at the file's position. Fields that a call does not use are 0.
abbrev pub understood : Sqe → Option Call
understood sqe =
    let no_op_flags = sqe.op_flags == 0 in
    let no_off = sqe.off == 0 in
    let no_addr = sqe.addr == 0 in
    let no_len = sqe.len == 0 in
    if sqe.opcode == 22
    then when (sqe.off == 2 ^ 64 - 1 && no_op_flags) (reads sqe.fd sqe.addr sqe.len)
    else if sqe.opcode == 23
    then when (sqe.off == 2 ^ 64 - 1 && no_op_flags) (writes sqe.fd sqe.addr sqe.len)
    else if sqe.opcode == 19
    then when (no_off && no_addr && no_len && no_op_flags) (closes sqe.fd)
    else if sqe.opcode == 62
    then when (no_off && no_len) (pipes2 sqe.addr (to_signed 31 sqe.op_flags))
    else if sqe.opcode == 13
    then when (no_len && no_op_flags) (accepts sqe.fd sqe.addr sqe.off)
    else if sqe.opcode == 56
    then when (no_len && no_op_flags) (binds sqe.fd sqe.addr sqe.off)
    else if sqe.opcode == 16
    then when (no_len && no_op_flags) (connects sqe.fd sqe.addr sqe.off)
    else if sqe.opcode == 57
    then when (no_off && no_addr && no_op_flags) (listens sqe.fd (to_signed 31 sqe.len))
    else if sqe.opcode == 45
    then when (no_addr && no_op_flags)
        (sockets sqe.fd (to_signed 31 sqe.off) (to_signed 31 sqe.len))
    else none

-- An entry of the call that the scheduler parks, and an answer by the convention; or, for a count that
-- is no ssize_t, EINVAL at once.
abbrev pub Follows : (errno : ℤ) → Call → Plan → Type 0
Follows errno call (at_once errno' value) =
    (2 ^ 63 ≤ count_of call) × (errno' ≡ einval) × (value ≡ negsuc 0)
Follows errno call (awaiting sqe finish) =
    (count_of call < 2 ^ 63)
    × (understood sqe ≡ some (narrowed call))
    × (sqe.flags ≡ 0)
    × (sqe.len < 2 ^ 32)
    × ((res : ℤ) → Fits res → neg_part res < 2 ^ 31 → finish res ≡ convention errno res)

errno_result-convention :
    (errno res : ℤ)
    → Fits res
    → neg_part res < 2 ^ 31
    → errno_result errno res ≡ convention errno res
unfolding errno_result
errno_result-convention errno (pos n) fits small = ground arith
errno_result-convention errno (negsuc n) fits small = ground arith

int_result-convention :
    (errno res : ℤ) → Fits res → neg_part res < 2 ^ 31 → int_result errno res ≡ convention errno res
unfolding int_result errno_result
int_result-convention errno (pos n) fits small = ground arith
int_result-convention errno (negsuc n) fits small = ground arith

to_unsigned_small : (z : ℤ) → to_unsigned 32 z < 2 ^ 32
to_unsigned_small (pos n) = omega arith
to_unsigned_small (negsuc n) = omega arith

-- An int comes back from the field of an unsigned one.
to_signed-to_unsigned : (z : ℤ) → Fits z → to_signed 31 (to_unsigned 32 z) ≡ z
to_signed-to_unsigned (pos n) fits = ground arith
to_signed-to_unsigned (negsuc n) fits = ground arith

rw_len_is : (count : ℕ) → rw_len count ≡ (if leb count (2 ^ 31 - 1) then count else 2 ^ 31 - 1)
unfolding rw_len
rw_len_is count = ground arith

rw_len_small : (count : ℕ) → rw_len count < 2 ^ 32
unfolding rw_len
rw_len_small count = ground arith

-- For arguments that are ints where the call has ints, each call asks for an entry that the kernel
-- takes for that call, with the same descriptor, buffer and arguments, a count being at most the
-- largest int; the entry has no flags, so that it is parked and not trapped, and the answer follows
-- the errno convention for every int but the least. Only a read or write whose count is no ssize_t
-- fails, at once, with EINVAL.
pub plan-Follows : (errno : ℤ) (call : Call) → IsCall call → Follows errno call (plan errno call)
unfolding plan read write close pipe2 pipe accept bind connect listen socket
plan-Follows errno (reads fd buf count) ints = elim (Bool-cases (leb (2 ^ 63) count)) [
  | inl large ↦ rw (large, read) (ground arith, refl, refl)
  | inr small ↦
      rw (small, read)
        (
          ground arith,
          ap (λ n. some (reads fd buf n)) (rw_len_is count),
          refl,
          rw_len_small count,
          errno_result-convention errno,
        )
]
plan-Follows errno (writes fd buf count) ints = elim (Bool-cases (leb (2 ^ 63) count)) [
  | inl large ↦ rw (large, write) (ground arith, refl, refl)
  | inr small ↦
      rw (small, write)
        (
          ground arith,
          ap (λ n. some (writes fd buf n)) (rw_len_is count),
          refl,
          rw_len_small count,
          errno_result-convention errno,
        )
]
plan-Follows errno (closes fd) ints =
    (omega arith, refl, refl, omega arith, int_result-convention errno)
plan-Follows errno (pipes fds) ints =
    (omega arith, refl, refl, omega arith, int_result-convention errno)
plan-Follows errno (pipes2 fds flags) ints = (
  omega arith,
  ap (λ z. some (pipes2 fds z)) (to_signed-to_unsigned flags ints),
  refl,
  omega arith,
  int_result-convention errno,
)
plan-Follows errno (accepts fd addr len) ints =
    (omega arith, refl, refl, omega arith, int_result-convention errno)
plan-Follows errno (binds fd addr len) ints =
    (omega arith, refl, refl, omega arith, int_result-convention errno)
plan-Follows errno (connects fd addr len) ints =
    (omega arith, refl, refl, omega arith, int_result-convention errno)
plan-Follows errno (listens fd backlog) ints = (
  omega arith,
  ap (λ z. some (listens fd z)) (to_signed-to_unsigned backlog ints),
  refl,
  to_unsigned_small backlog,
  int_result-convention errno,
)
plan-Follows errno (sockets domain type protocol) ints = (
  omega arith,
  ap₂ (λ y z. some (sockets domain y z)) (to_signed-to_unsigned type ints.0)
      (to_signed-to_unsigned protocol ints.1),
  refl,
  to_unsigned_small protocol,
  int_result-convention errno,
)

-- The length of a transfer is the count, or the largest `int` if that is less: a count is never
-- narrowed to another one, and a positive one never to 0.
pub rw_len_bounds :
    (count : ℕ)
    → (rw_len count ≤ count)
      × (rw_len count < 2 ^ 31)
      × ((rw_len count ≡ count) ⊎ ((rw_len count ≡ 2 ^ 31 - 1) × (2 ^ 31 ≤ count)))
unfolding rw_len
rw_len_bounds count = ground arith
