-- ===== src/Scheduler/Tests/Rounds.antt =====
-- Two fibers in two rounds: the first one's turn lets it go on, the second one ends the process.
use libuc.Prelude.{
  ℕ, zero, suc, ℤ, pos, Option, none, some, [], ◌∷◌, ◌≡◌, refl, ◌∙◌, ap, sym, arith, slice,
}
use libuc.System.{syscall_failed}
use libuc.Machine.{yields, process_exits, State, Outcome, ok}
use libuc.Fiber.{Event, new_fiber, resume}
use libuc.Scheduler.{enqueue}
use libuc.Scheduler.Reactor.{turn}
use libuc.Scheduler.Ready.{enqueued}
use libuc.Scheduler.Account.{IsAccounted}
use libuc.Scheduler.Invariant.{IsValid}
use libuc.Scheduler.Move.{enqueue-IsValid}
use libuc.Scheduler.Dispatch.{Turned, start, next, WellBehaved}
use libuc.Scheduler.Fair.{GetsTurn, turns-GetsTurn}
use libuc.Scheduler.Tests.States.{
  empty_state, asks, root, child, root_fiber, root_runs, root_runs-IsValid, root_can, obedient,
  obedient-IsCounted, obedient-IsQuietFrom,
}

-- The first turn is a yield of the child, the others end the process.
abbrev pub goes_on_once : ℕ → Event
goes_on_once zero = asks 7 10240 yields
goes_on_once (suc n) = asks 5 2048 (process_exits (pos 3))

abbrev both_ready : State
both_ready = enqueued root root_runs

both_ready-IsValid : IsValid both_ready [] (child ∷ root ∷ []) [] []
both_ready-IsValid = (enqueue-IsValid root_runs-IsValid root_fiber refl root_can).1

-- Nothing was asked of the kernel.
both_ready-IsAccounted : IsAccounted [] both_ready []
unfolding enqueued slice
both_ready-IsAccounted = record { adds_up = λ a. refl }

abbrev pub state_of : Outcome (Option ℤ) → State
state_of (ok status t) = t
state_of _ = empty_state

abbrev pub status_of : Outcome (Option ℤ) → Option ℤ
status_of (ok status t) = status
status_of _ = none

abbrev later : State
later = state_of (turn obedient goes_on_once 1 both_ready)

first_turn : turn obedient goes_on_once 1 both_ready ≡ ok none later
unfolding turn enqueued new_fiber resume enqueue
first_turn = refl

second_turn : status_of (turn obedient goes_on_once 1 later) ≡ some (pos 3)
unfolding turn enqueued new_fiber resume enqueue
second_turn = refl

later_resumes : later.resumes ≡ 1
unfolding turn enqueued new_fiber resume enqueue
later_resumes = refl

both_ready-WellBehaved : WellBehaved 0 1 goes_on_once both_ready
unfolding enqueued new_fiber syscall_failed
both_ready-WellBehaved p r k j f v at = record {
  ask = yields;
  asked = refl;
  code = ground arith;
  keeps = ground (arith, v.ready.chain);
  unmaps = λ address length. refl;
  allowed = tt;
}

pub quits-WellBehaved : (t : State) → t.resumes ≡ 1 → WellBehaved 0 1 goes_on_once t
unfolding syscall_failed
quits-WellBehaved t e p r k j f v at = rw e record {
  ask = process_exits (pos 3);
  asked = refl;
  code = ground arith;
  keeps = tt;
  unmaps = λ address length. refl;
  allowed = tt;
}

two_turns :
    (t : State) → Turned obedient goes_on_once 1 both_ready t → WellBehaved 0 1 goes_on_once t
two_turns t (start s) = both_ready-WellBehaved
two_turns t (next s u w e rest) = behind u (ap state_of (sym first_turn ∙ e)) rest
  where
    behind :
        (u : State)
        → later ≡ u
        → Turned obedient goes_on_once 1 u t
        → WellBehaved 0 1 goes_on_once t
    behind u same (start v) = quits-WellBehaved u (ap (λ x. x.resumes) (sym same) ∙ later_resumes)
    behind u same (next v w x e rest) = absurd (ground (arith, second_turn, same, e))

turns-GetsTurn_example : GetsTurn obedient goes_on_once 1 both_ready (child ∷ []) root [] (pos 0)
unfolding enqueued
turns-GetsTurn_example =
    turns-GetsTurn obedient goes_on_once 1 0 obedient-IsCounted obedient-IsQuietFrom [] both_ready
      (child ∷ []) [] [] [] root root_fiber both_ready-IsValid both_ready-IsAccounted refl two_turns
