-- ===== src/Scheduler/Rounds.antt =====
-- The rounds of the reactor: the dispatch loop, then the submit and the completions.
use mathlib.Core.List.{append-nil}
use mathlib.Core.Path.{subst}
use libuc.Prelude.{
  pos, ℕ, zero, suc, ◌+◌, ◌^◌, ◌%◌, ◌≡◌, ◌∙◌, refl, sym, arith, ℤ, false, List, [], ◌++◌, Option,
  some, none, ◌==◌, Bool-cases, inl, inr,
}
use libuc.Ring.{Kernel, out_of_fuel}
use libuc.Ring.Submit.{IsCounted, IsQuietFrom}
use libuc.Machine.{Ptr, State, Outcome, ok, trap, fault, out_of_fuel}
use libuc.Fiber.{Event}
use libuc.Scheduler.Reactor.{turns, poll, run}
use libuc.Scheduler.Invariant.{IsValid}
use libuc.Scheduler.Turn.{Sound, Keeps, IsSafe}
use libuc.Scheduler.Poll.{reaped, Answering, poll-Keeps}
use libuc.Scheduler.Account.{IsAccounted}
use libuc.Scheduler.Dispatch.{Turned, WellBehaved, turns-IsSafe}

-- The rounds that neither trap nor end the process lead from the one state to the other, and the
-- fibers answered by then grow by those that each poll answers.
pub data Rounded (enter : Kernel) (events : ℕ → Event) (fuel : ℕ)
    : State → List Ptr → State → List Ptr → Type 0 where
  begin : (s : State) (answered : List Ptr) → Rounded enter events fuel s answered s answered
  again :
      (s t u v : State) (answered by_then : List Ptr)
      → turns enter events fuel s.ready_count s ≡ ok none t
      → poll enter events fuel t ≡ ok tt u
      → Rounded enter events fuel u (answered ++ reaped enter fuel t) v by_then
      → Rounded enter events fuel s answered v by_then

-- What the rounds from a state rest on: in each turn that they lead to the fiber behaves, and the
-- kernel answers each poll.
pub record Cooperates (enter : Kernel) (events : ℕ → Event) (fuel quiet : ℕ) (s : State)
    (answered : List Ptr) : Type 0 where
  pub behaves :
      (t u : State) (by_then : List Ptr)
      → Rounded enter events fuel s answered t by_then
      → Turned enter events fuel t u
      → WellBehaved quiet fuel events u
  pub answers :
      (t u : State) (by_then : List Ptr)
      → Rounded enter events fuel s answered t by_then
      → turns enter events fuel t.ready_count t ≡ ok none u
      → Answering enter fuel quiet u by_then

-- What a number of rounds of the reactor does: it stops with a status, it traps, or it goes on from
-- a valid state that the rounds have led to, as many further rounds as there are.
pub data Runs (enter : Kernel) (events : ℕ → Event) (fuel rounds : ℕ) (s : State)
    (answered : List Ptr) : Type 0 where
  stopped :
      (code : ℤ) (t : State)
      → run enter events fuel rounds s ≡ ok code t
      → Runs enter events fuel rounds s answered
  trapped : run enter events fuel rounds s ≡ trap → Runs enter events fuel rounds s answered
  still_runs :
      (t : State) (by_then r k j : List Ptr)
      → Rounded enter events fuel s answered t by_then
      → IsValid t [] r k j
      → IsAccounted by_then t k
      → ((more : ℕ) → run enter events fuel (rounds + more) s ≡ run enter events fuel more t)
      → Runs enter events fuel rounds s answered

module _ (enter : Kernel) (events : ℕ → Event) (fuel : ℕ) (s : State)
    (some_left : ((s.parked_count + s.ready_count) % 2 ^ 32 == 0) ≡ false) where
  run_status :
      (rounds : ℕ) (code : ℤ) (t : State)
      → turns enter events fuel s.ready_count s ≡ ok (some code) t
      → run enter events fuel (suc rounds) s ≡ ok code t
  unfolding run
  run_status rounds code t e = rw (run, some_left, e) refl

  run_trap :
      (rounds : ℕ)
      → turns enter events fuel s.ready_count s ≡ trap
      → run enter events fuel (suc rounds) s ≡ trap
  unfolding run
  run_trap rounds e = rw (run, some_left, e) refl

  run-poll_trap :
      (rounds : ℕ) (t : State)
      → turns enter events fuel s.ready_count s ≡ ok none t
      → poll enter events fuel t ≡ trap
      → run enter events fuel (suc rounds) s ≡ trap
  unfolding run
  run-poll_trap rounds t e f = rw (run, some_left, e, f) refl

  run_round :
      (rounds : ℕ) (t u : State)
      → turns enter events fuel s.ready_count s ≡ ok none t
      → poll enter events fuel t ≡ ok tt u
      → run enter events fuel (suc rounds) s ≡ run enter events fuel rounds u
  unfolding run
  run_round rounds t u e f = rw (run, some_left, e, f) refl

-- The rounds behind the first one rest on the same.
pub later :
    {enter : Kernel} {events : ℕ → Event} {fuel quiet : ℕ} {s t u : State} {answered : List Ptr}
    → turns enter events fuel s.ready_count s ≡ ok none t
    → poll enter events fuel t ≡ ok tt u
    → Cooperates enter events fuel quiet s answered
    → Cooperates enter events fuel quiet u (answered ++ reaped enter fuel t)
later {s = s} {t = t} {u = u} {answered = answered} e f c = record {
  behaves =
      λ v w by_then to there. c.behaves v w by_then (again s t u v answered by_then e f to) there;
  answers =
      λ v w by_then to there. c.answers v w by_then (again s t u v answered by_then e f to) there;
}

module _ (enter : Kernel) (events : ℕ → Event) (fuel quiet : ℕ) (counted : IsCounted enter)
    (still : IsQuietFrom enter quiet) where
  -- From a valid state in which the parked fibers are those that have an entry in the log and no
  -- completion so far, the reactor never faults, for any number of rounds: it stops with a status, it
  -- traps, or the state behind the rounds is such a state and it goes on from there. In particular no
  -- round runs out of fuel. The conditions: in each turn that the rounds lead to the fiber behaves, as
  -- for a turn; the kernel's counts are as io_uring_enter documents, and each poll finds the last
  -- completions of operations, no more for a fiber than it has entries that the kernel has read.
  pub run-Runs :
      (rounds : ℕ) (s : State) (answered r k j : List Ptr)
      → IsValid s [] r k j
      → IsAccounted answered s k
      → Cooperates enter events fuel quiet s answered
      → Runs enter events fuel rounds s answered
  unfolding run
  run-Runs zero s answered r k j v h c =
      still_runs s answered r k j (begin s answered) v h
        (λ more. let same : 0 + more ≡ more = omega arith in rw same refl)
  run-Runs (suc rounds) s answered r k j v h c =
      elim (Bool-cases ((s.parked_count + s.ready_count) % 2 ^ 32 == 0)) [
        | inl nothing_left ↦ elim (Bool-cases (s.joining_count == 0)) [
          | inl none_joins ↦ stopped (pos 0) s (rw (run, nothing_left, none_joins) refl)
          | inr some_join ↦ trapped (rw (run, nothing_left, some_join) refl)
        ]
        | inr some_left ↦
            by_turns some_left (turns enter events fuel s.ready_count s) refl
              (turns-IsSafe enter events fuel quiet counted still answered s.ready_count s r [] k j
                (subst (λ l. IsValid s [] l k j) (sym (append-nil r)) v) h (sym v.ready.count)
                (λ t there. c.behaves s t answered (begin s answered) there))
              (run-Runs rounds)
      ]
    where
      goes_on :
          ((s.parked_count + s.ready_count) % 2 ^ 32 == 0) ≡ false
          → (t u : State) → turns enter events fuel s.ready_count s ≡ ok none t
          → poll enter events fuel t ≡ ok tt u
          → Runs enter events fuel rounds u (answered ++ reaped enter fuel t)
          → Runs enter events fuel (suc rounds) s answered
      goes_on some_left t u e f (stopped code w g) =
          stopped code w (run_round enter events fuel s some_left rounds t u e f ∙ g)
      goes_on some_left t u e f (trapped g) =
          trapped (run_round enter events fuel s some_left rounds t u e f ∙ g)
      goes_on some_left t u e f (still_runs w by_then r' k' j' there valid account g) =
          still_runs w by_then r' k' j' (again s t u w answered by_then e f there) valid account
            (λ more.
              let size : suc rounds + more ≡ suc (rounds + more) = omega arith in
              rw size (run_round enter events fuel s some_left (rounds + more) t u e f ∙ g more))

      by_poll :
          ((s.parked_count + s.ready_count) % 2 ^ 32 == 0) ≡ false
          → (t : State) → turns enter events fuel s.ready_count s ≡ ok none t
          → (r' : List Ptr) (o : Outcome (Unit {0})) → poll enter events fuel t ≡ o
          → Keeps (answered ++ reaped enter fuel t) r' o
          → ((u : State)
              → poll enter events fuel t ≡ ok tt u
              → Sound (answered ++ reaped enter fuel t) r' u
              → Runs enter events fuel rounds u (answered ++ reaped enter fuel t))
          → Runs enter events fuel (suc rounds) s answered
      by_poll some_left t e r' (ok tt u) f sound rec = goes_on some_left t u e f (rec u f sound)
      by_poll some_left t e r' trap f sound rec =
          trapped (run-poll_trap enter events fuel s some_left rounds t e f)
      by_poll some_left t e r' fault f sound rec = absurd sound
      by_poll some_left t e r' out_of_fuel f sound rec = absurd sound

      by_turns :
          ((s.parked_count + s.ready_count) % 2 ^ 32 == 0) ≡ false
          → (o : Outcome (Option ℤ)) → turns enter events fuel s.ready_count s ≡ o
          → IsSafe answered [] o
          → ((u : State) (by_now r' k' j' : List Ptr)
              → IsValid u [] r' k' j'
              → IsAccounted by_now u k'
              → Cooperates enter events fuel quiet u by_now
              → Runs enter events fuel rounds u by_now)
          → Runs enter events fuel (suc rounds) s answered
      by_turns some_left (ok (some code) t) e safe rec =
          stopped code t (run_status enter events fuel s some_left rounds code t e)
      by_turns some_left (ok none t) e (more, k', j', w, g) rec =
          by_poll some_left t e more (poll enter events fuel t) refl
            (poll-Keeps enter events fuel quiet counted still t answered more k' j' w g
              (c.answers s t answered (begin s answered) e))
            (λ u f (added, k2, j2, x, y).
              rec u (answered ++ reaped enter fuel t) (more ++ added) k2 j2 x y (later e f c))
      by_turns some_left trap e safe rec = trapped (run_trap enter events fuel s some_left rounds e)
      by_turns some_left fault e safe rec = absurd safe
      by_turns some_left out_of_fuel e safe rec = absurd safe
