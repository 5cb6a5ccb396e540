-- ===== src/Uc/Operation.antt =====
-- src/uc/scheduler/scheduler.c: the operations, which the second scheduler drives from a request to
-- their completions. The fiber's code and its transfer API are a parameter.
pub mod Next
pub mod Completion
pub mod Trace
use Prim.Native.Nat.{bit_and}
use libuc.Prelude.{
  ℕ, ℤ, List, [], ◌++◌, Bool, true, false, ◌==◌, Option, none, some, if◌then◌else◌, update, pos,
}
use libuc.System.{syscall_failed}
use libuc.Ring.{Sqe, Cqe, Ring, Kernel, Submitted, returned, out_of_fuel}
use libuc.Uc.Ring.{append, ring_submit}

-- `enum operation_state`
pub data OperationState : Type 0 where
  prepared in_flight complete : OperationState

-- `struct operation`, with its `struct completion` as two fields.
pub record Operation : Type 0 where
  pub owner : ℕ
  pub submission : Sqe
  pub result : ℤ
  pub flags : ℕ
  pub state : OperationState

-- The operations by address, the ring of `struct scheduler`, how often the kernel was entered, and
-- what it has read, in order.
pub record Reactor : Type 0 where
  pub operations : ℕ → Option Operation
  pub ring : Ring
  pub enters : ℕ
  pub submitted : List Sqe

pub data Step : Type 0 where
  goes : Reactor → Step
  traps faults lacks_fuel : Step

-- What `uc_fiber_resume` comes back with: a return, or a `struct request`.
pub data Transfer : Type 0 where
  returns yields : Transfer
  asks_next : (operation : ℕ) → Transfer

-- The end of `handle_next`, with a slot of the ring.
unfoldable pub put_in_flight : (scheduled p : ℕ) → Operation → Option (ℕ × Ring) → Reactor → Step
put_in_flight scheduled p operation none r = traps
put_in_flight scheduled p operation (some (slot, ring)) r = goes (record r {
  operations =
      update r.operations p (some (record operation { owner = scheduled; state = in_flight }));
  ring = record ring {
    sqes = update ring.sqes slot (record operation.submission { user_data = p });
  };
})

-- A full batch is submitted first.
unfoldable pub submit_first : Kernel → (fuel : ℕ) → (scheduled p : ℕ) → Operation → Reactor → Step
submit_first enter fuel scheduled p operation r = elim (ring_submit enter fuel r.enters r.ring 0) [
  | out_of_fuel ↦ lacks_fuel
  | returned result ring read n ↦
      if syscall_failed result
      then traps
      else put_in_flight scheduled p operation (append ring)
          (record r { ring = ring; enters = n; submitted = r.submitted ++ read })
]

-- `handle_next`, given the operation's address.
unfoldable pub handle_next : Kernel → (fuel : ℕ) → (scheduled p : ℕ) → Reactor → Step
handle_next enter fuel scheduled p r = elim (r.operations p) [
  | none ↦ faults
  | some operation ↦ elim operation.state [
    | prepared ↦ elim (append r.ring) [
      | none ↦ submit_first enter fuel scheduled p operation r
      | some slot ↦ put_in_flight scheduled p operation (some slot) r
    ]
    | in_flight ↦ goes r
    | complete ↦ goes r
  ]
]

-- `dispatch`: `resume` runs the fiber of a scheduled fiber, which may write to the operations.
unfoldable pub dispatch :
    Kernel
    → (fuel : ℕ) → (resume : (scheduled value : ℕ) → Reactor → Transfer × Reactor)
    → (scheduled value : ℕ) → Reactor
    → Step
dispatch enter fuel resume scheduled value r = elim (resume scheduled value r).0 [
  | returns ↦ goes (resume scheduled value r).1
  | yields ↦ goes (resume scheduled value r).1
  | asks_next operation ↦ handle_next enter fuel scheduled operation (resume scheduled value r).1
]

-- IORING_CQE_F_MORE
abbrev pub more : ℕ
more = 2

-- The completion as the operation keeps it; it is the last one unless more are announced.
unfoldable pub completed : Cqe → Operation → Operation
completed completion operation =
    if bit_and completion.flags more == 0
    then record operation { result = completion.res; flags = completion.flags; state = complete }
    else record operation { result = completion.res; flags = completion.flags }

-- `handle_completion`; the value that the fiber gets is the operation's completion, by the
-- operation's address.
unfoldable pub handle_completion :
    Kernel
    → (fuel : ℕ) → (resume : (scheduled value : ℕ) → Reactor → Transfer × Reactor) → Cqe
    → Reactor
    → Step
handle_completion enter fuel resume completion r = elim (r.operations completion.user_data) [
  | none ↦ faults
  | some operation ↦ dispatch enter fuel resume operation.owner completion.user_data (record r {
    operations = update r.operations completion.user_data (some (completed completion operation));
  })
]
