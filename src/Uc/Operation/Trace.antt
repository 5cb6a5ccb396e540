-- ===== src/Uc/Operation/Trace.antt =====
-- What the operations and the kernel's entries add up to, over any sequence of dispatches and
-- completions.
pub mod Change
pub mod Balance
use Prim.Native.Nat.{bit_and}
use mathlib.Core.Path.{subst}
use libuc.Prelude.{
  ℕ, ◌+◌, ◌<◌, ◌≡◌, ◌≢◌, refl, ap, sym, ◌∙◌, arith, List, [], ◌∷◌, ◌++◌, Option, none, some, inl,
  inr, ◌==◌, if◌then◌else◌, update, ℕ_discrete, Bool-cases,
}
use libuc.Ring.{Sqe, Cqe, Kernel}
use libuc.Ring.Batch.{batch, IsBatch}
use libuc.Ring.Submit.{IsCounted, IsQuietFrom}
use libuc.Scheduler.Await.{tagged}
use libuc.Scheduler.Chain.{times, times-append}
use libuc.Uc.Operation.{
  Operation, OperationState, prepared, in_flight, complete, Reactor, Step, goes, traps, faults,
  lacks_fuel, Transfer, returns, yields, asks_next, more, completed, handle_next, dispatch,
  handle_completion,
}
use libuc.Uc.Operation.Next.{Nexts, unchanged, refused, queued, handle_next-Nexts}
use libuc.Uc.Operation.Completion.{delivered}

-- How many entries are tagged with an operation.
abbrev pub entries_of : ℕ → List Sqe → ℕ
entries_of p [] = 0
entries_of p (e ∷ es) = (if p == e.user_data then 1 else 0) + entries_of p es

-- 1 for an operation in flight, 0 for any other.
abbrev pub counts : OperationState → ℕ
counts prepared = 0
counts in_flight = 1
counts complete = 0

abbrev pub counts_at : Option Operation → ℕ
counts_at none = 0
counts_at (some operation) = counts operation.state

abbrev pub flying : ℕ → Reactor → ℕ
flying p r = counts_at (r.operations p)

-- The operation that a completion ends, if it announces no more.
abbrev pub ends : Cqe → List ℕ
ends c = if bit_and c.flags more == 0 then c.user_data ∷ [] else []

-- What the scheduler relies on in a fiber: it leaves the ring to the scheduler, an operation in
-- flight stays in flight, and no other one becomes so.
pub record Minds (resume : (scheduled value : ℕ) → Reactor → Transfer × Reactor) : Type 0 where
  pub ring : (scheduled value : ℕ) (r : Reactor) → (resume scheduled value r).1.ring ≡ r.ring
  pub submitted :
      (scheduled value : ℕ) (r : Reactor) → (resume scheduled value r).1.submitted ≡ r.submitted
  pub in_flight_kept :
      (scheduled value : ℕ) (r : Reactor) (p : ℕ)
      → flying p (resume scheduled value r).1 ≡ flying p r

-- The calls of the scheduler, in any order, with the operations that ended, the last one first; the
-- kernel completes what is in flight.
pub data Serves (enter : Kernel) (fuel : ℕ)
    (resume : (scheduled value : ℕ) → Reactor → Transfer × Reactor)
    : Reactor → List ℕ → Reactor → Type 0 where
  begins : (r : Reactor) → Serves enter fuel resume r [] r
  dispatches :
      {start : Reactor} {ended : List ℕ} {r after : Reactor}
      → Serves enter fuel resume start ended r
      → (scheduled value : ℕ) → dispatch enter fuel resume scheduled value r ≡ goes after
      → Serves enter fuel resume start ended after
  completes :
      {start : Reactor} {ended : List ℕ} {r after : Reactor}
      → Serves enter fuel resume start ended r
      → (c : Cqe) → flying c.user_data r ≡ 1
      → handle_completion enter fuel resume c r ≡ goes after
      → Serves enter fuel resume start (ends c ++ ended) after

-- The batch fits the queue, of `size` entries; and of each operation there are as many entries, with
-- the kernel or in the batch, as last completions, and one more if it is in flight.
pub record Balances (size : ℕ) (ended : List ℕ) (r : Reactor) : Type 0 where
  pub fits : IsBatch r.ring
  pub slots : r.ring.sq_entries ≡ size
  pub balance : (p : ℕ) → flying p r + times p ended ≡ entries_of p (r.submitted ++ batch r.ring)
