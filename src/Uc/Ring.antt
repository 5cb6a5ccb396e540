-- ===== src/Uc/Ring.antt =====
-- src/uc/scheduler/ring.c, whose struct has the fields of `struct __libuc_ring`.
pub mod Same
pub mod Create
use Prim.Native.Nat.{bit_and}
use libuc.Prelude.{
  ℕ, zero, suc, ◌+◌, ◌-◌, ◌%◌, ◌^◌, ℤ, to_unsigned, Bool, true, false, ◌==◌, Option, none, some,
  List, [], if◌then◌else◌, update, slice,
}
use libuc.Memory.{copy_up}
use libuc.System.{syscall_failed}
use libuc.Ring.{
  Sqe, zero_sqe, Cqe, Ring, Kernel, Submitted, returned, out_of_fuel, after_reading, is_eintr,
  with_reply,
}

-- `__libuc_scheduler_ring_append`
unfoldable pub append : Ring → Option (ℕ × Ring)
append ring =
    if ring.batch_count == ring.sq_entries
    then none
    else some (
      ring.batch_count,
      record ring {
        sqes = update ring.sqes ring.batch_count zero_sqe;
        batch_count = (ring.batch_count + 1) % 2 ^ 32;
      },
    )

-- The loop reads entry `submitted + index` into entry `index`.
unfoldable pub shift_unsubmitted : Ring → (submitted : ℕ) → Ring
shift_unsubmitted ring submitted =
    let remaining = (ring.batch_count + 2 ^ 32 - submitted) % 2 ^ 32 in
    record ring { sqes = copy_up ring.sqes 0 submitted 0 remaining; batch_count = remaining }

-- A pass of the submit loop behind its io_uring_enter.
unfoldable pub pass : Ring → ℤ → ℕ → (Ring → Submitted) → Submitted
pass ring result n next = elim (is_eintr result) [
  | true ↦ next ring
  | false ↦ elim (syscall_failed result) [
    | true ↦ returned result ring [] n
    | false ↦
        let submitted = to_unsigned 32 result in
        elim (submitted == ring.batch_count) [
          | true ↦ returned result (record ring { batch_count = 0 }) (slice ring.sqes 0 submitted) n
          | false ↦
              after_reading (slice ring.sqes 0 submitted) (next (shift_unsubmitted ring submitted))
        ]
  ]
]

-- `__libuc_scheduler_ring_submit`
unfoldable pub ring_submit : Kernel → (fuel n : ℕ) → Ring → (min_complete : ℕ) → Submitted
ring_submit enter zero n ring min_complete = out_of_fuel
ring_submit enter (suc fuel) n ring min_complete =
    let reply = enter n ring ring.batch_count min_complete in
    pass (with_reply ring reply) reply.result (n + 1)
      (λ r. ring_submit enter fuel (n + 1) r min_complete)

-- `__libuc_scheduler_ring_reap`
unfoldable pub ring_reap : Ring → Option (Cqe × Ring)
ring_reap ring =
    if ring.cq_head == ring.cq_tail
    then none
    else some (
      ring.cqes (bit_and ring.cq_head ring.cq_mask),
      record ring { cq_head = (ring.cq_head + 1) % 2 ^ 32 },
    )
