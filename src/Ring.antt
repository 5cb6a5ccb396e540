-- ===== src/Ring.antt =====
-- src/ring/ring.c and ring.h: the submission batch and the completion queue of one io_uring.
pub mod Batch
pub mod Submit
pub mod Queue
pub mod Create
mod Tests
use Prim.Native.Nat.{bit_and}
use libuc.Prelude.{
  ℕ, zero, suc, ◌+◌, ◌-◌, ◌%◌, ◌^◌, ℤ, pos, negsuc, to_unsigned, Bool, true, false, ◌==◌, Option,
  none, some, List, [], ◌++◌, if◌then◌else◌, update, slice,
}
use libuc.Memory.{memmove}
use libuc.System.{syscall_failed}

-- The fields of `struct io_uring_sqe` that libuc writes. `addr2` shares its word with `off`, and
-- `pipe_flags` is `op_flags`.
pub record Sqe : Type 0 where
  pub opcode : ℕ
  pub flags : ℕ
  pub fd : ℤ
  pub off : ℕ
  pub addr : ℕ
  pub len : ℕ
  pub op_flags : ℕ
  pub user_data : ℕ

abbrev pub zero_sqe : Sqe
zero_sqe = record {
  opcode = 0;
  flags = 0;
  fd = pos 0;
  off = 0;
  addr = 0;
  len = 0;
  op_flags = 0;
  user_data = 0;
}

pub record Cqe : Type 0 where
  pub user_data : ℕ
  pub res : ℤ
  pub flags : ℕ

-- `struct __libuc_ring`, with the words and arrays that its pointers lead to in their place.
pub record Ring : Type 0 where
  pub ring_mapping : ℕ
  pub ring_mapping_length : ℕ
  pub sqes_mapping : ℕ
  pub sqes_mapping_length : ℕ
  pub sqes : ℕ → Sqe
  pub cq_head : ℕ
  pub cq_tail : ℕ
  pub cqes : ℕ → Cqe
  pub descriptor : ℤ
  pub sq_entries : ℕ
  pub cq_entries : ℕ
  pub cq_mask : ℕ
  pub batch_count : ℕ

-- The index of the slot, zeroed; the caller writes through it.
unfoldable pub append_sqe : Ring → Option (ℕ × Ring)
append_sqe ring =
    if ring.batch_count == ring.sq_entries
    then none
    else some (
      ring.batch_count,
      record ring {
        sqes = update ring.sqes ring.batch_count zero_sqe;
        batch_count = (ring.batch_count + 1) % 2 ^ 32;
      },
    )

-- What the kernel leaves after one io_uring_enter: its result, and its side of the completion
-- queue.
pub record Reply : Type 0 where
  pub result : ℤ
  pub tail : ℕ
  pub cqes : ℕ → Cqe

-- The kernel answers the n-th io_uring_enter, given the ring, `to_submit` and `min_complete`.
abbrev pub Kernel : Type 0
Kernel = (n : ℕ) → Ring → (to_submit min_complete : ℕ) → Reply

-- How a submit ends: its result, the ring, what the kernel read from the slots, in order, and the
-- number of the next io_uring_enter. Fuel bounds the calls.
pub data Submitted : Type 0 where
  returned : ℤ → Ring → List Sqe → ℕ → Submitted
  out_of_fuel : Submitted

-- The kernel read these entries before the rest of the loop.
abbrev pub after_reading : List Sqe → Submitted → Submitted
after_reading sqes (returned result ring more n) = returned result ring (sqes ++ more) n
after_reading sqes out_of_fuel = out_of_fuel

-- -EINTR
abbrev pub eintr : ℤ
eintr = negsuc 3

abbrev pub is_eintr : ℤ → Bool
is_eintr (pos n) = false
is_eintr (negsuc n) = n == 3

-- The ring as the kernel leaves it.
abbrev pub with_reply : Ring → Reply → Ring
with_reply ring reply = record ring { cq_tail = reply.tail; cqes = reply.cqes }

-- The remainder of a short count moves down to slot zero.
unfoldable pub keep_remainder : Ring → ℕ → Ring
keep_remainder ring submitted =
    let remaining = (ring.batch_count + 2 ^ 32 - submitted) % 2 ^ 32 in
    record ring { sqes = memmove ring.sqes 0 submitted remaining; batch_count = remaining }

-- The kernel took `submitted` entries; `next` is the next pass of the loop.
unfoldable pub took : Ring → ℤ → (submitted n : ℕ) → (Ring → Submitted) → Submitted
took ring result submitted n next = elim (submitted == ring.batch_count) [
  | true ↦ returned result (record ring { batch_count = 0 }) (slice ring.sqes 0 submitted) n
  | false ↦ after_reading (slice ring.sqes 0 submitted) (next (keep_remainder ring submitted))
]

-- A pass behind its io_uring_enter.
unfoldable pub after_enter : Ring → ℤ → ℕ → (Ring → Submitted) → Submitted
after_enter ring result n next = elim (is_eintr result) [
  | true ↦ next ring
  | false ↦ elim (syscall_failed result) [
    | true ↦ returned result ring [] n
    | false ↦ took ring result (to_unsigned 32 result) n next
  ]
]

unfoldable pub submit : Kernel → (fuel n : ℕ) → Ring → (min_complete : ℕ) → Submitted
submit enter zero n ring min_complete = out_of_fuel
submit enter (suc fuel) n ring min_complete =
    let reply = enter n ring ring.batch_count min_complete in
    after_enter (with_reply ring reply) reply.result (n + 1)
      (λ r. submit enter fuel (n + 1) r min_complete)

-- The completion at the head, if there is one.
unfoldable pub reap : Ring → Option (Cqe × Ring)
reap ring =
    if ring.cq_head == ring.cq_tail
    then none
    else some (
      ring.cqes (bit_and ring.cq_head ring.cq_mask),
      record ring { cq_head = (ring.cq_head + 1) % 2 ^ 32 },
    )
