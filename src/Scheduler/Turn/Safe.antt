-- ===== src/Scheduler/Turn/Safe.antt =====
-- What a turn keeps, and what it rests on.
use libuc.Prelude.{ℕ, ◌+◌, ◌-◌, ◌<◌, ◌^◌, ℤ, List, [], ◌++◌, Option, some, none}
use libuc.Machine.{
  Ptr, Ask, awaits, spawns, joins, detaches, State, Outcome, ok, trap, fault, out_of_fuel,
}
use libuc.Fiber.{Event}
use libuc.Scheduler.Ready.{Mapped}
use libuc.Scheduler.Invariant.{IsValid}
use libuc.Scheduler.Account.{IsAccounted}
use libuc.Scheduler.Spawn.{MapsFresh}

-- The fibers of the list are ready, in its order, in front of any others, and every fiber that has
-- not finished is ready, parked or joining; the parked ones and those answered are accounted for.
abbrev pub Sound : (answered : List Ptr) → List Ptr → State → Type 0
Sound answered r s =
    (more : List Ptr) × (k : List Ptr) × (j : List Ptr) × IsValid s [] (r ++ more) k j
    × IsAccounted answered s k

-- A command ends in a sound state, or traps.
abbrev pub Keeps : (answered : List Ptr) → List Ptr → Outcome (Unit {0}) → Type 0
Keeps answered r (ok a s) = Sound answered r s
Keeps answered r trap = Unit
Keeps answered r fault = ⊥
Keeps answered r out_of_fuel = ⊥

-- A turn ends in a sound state, ends the process, or traps.
abbrev pub IsSafe : (answered : List Ptr) → List Ptr → Outcome (Option ℤ) → Type 0
IsSafe answered r (ok none s) = Sound answered r s
IsSafe answered r (ok (some code) s) = Unit
IsSafe answered r trap = Unit
IsSafe answered r fault = ⊥
IsSafe answered r out_of_fuel = ⊥

-- What the fiber's request rests on: a handle that is not stale, room for one more fiber in fresh
-- mappings, or slots and enough fuel for a submit.
abbrev pub Allowed : (quiet fuel : ℕ) → Event → State → Ask → Type 0
Allowed quiet fuel event s (joins target) = Mapped s target
Allowed quiet fuel event s (detaches target) = Mapped s target
Allowed quiet fuel event s (spawns stack_length entry argument) =
    MapsFresh event s stack_length × (s.ready_count + s.parked_count + s.joining_count + 2 < 2 ^ 32)
Allowed quiet fuel event s (awaits sqe) =
    ((quiet - s.enters) + s.ring.batch_count < fuel) × (0 < s.ring.sq_entries)
Allowed quiet fuel event s _ = Unit
