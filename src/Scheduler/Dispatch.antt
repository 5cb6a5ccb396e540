-- ===== src/Scheduler/Dispatch.antt =====
-- The dispatch loop: one turn for each fiber that is ready at its start.
use mathlib.Core.List.{append_assoc, append-nil}
use mathlib.Core.Path.{subst}
use libuc.Prelude.{
  ℕ, zero, suc, ◌≡◌, ◌≢◌, refl, sym, arith, ℤ, List, [], ◌∷◌, ◌++◌, Option, some, none, length,
}
use libuc.Ring.{Kernel}
use libuc.Ring.Submit.{IsCounted, IsQuietFrom}
use libuc.Machine.{Ptr, Ask, Fiber, State, Outcome, ok, trap, fault, out_of_fuel, and_then}
use libuc.Fiber.{Event}
use libuc.Fiber.Resume.{KeepsBlock, resumed}
use libuc.Scheduler.Reactor.{turn, turns}
use libuc.Scheduler.Ready.{dequeued}
use libuc.Scheduler.Account.{IsAccounted}
use libuc.Scheduler.Invariant.{CanRun, IsValid}
use libuc.Scheduler.Exit.{Unmaps}
use libuc.Scheduler.Turn.{IsSafe, Allowed, turn-IsSafe}

-- The states that turns which neither trap nor end the process lead to.
pub data Turned (enter : Kernel) (events : ℕ → Event) (fuel : ℕ) : State → State → Type 0 where
  start : (s : State) → Turned enter events fuel s s
  next :
      (s t u : State)
      → turn enter events fuel s ≡ ok none t
      → Turned enter events fuel t u
      → Turned enter events fuel s u

-- A loop that goes on, as its first turn and the others.
module _ (enter : Kernel) (events : ℕ → Event) (fuel : ℕ) where
  pub turns_first :
      (left : ℕ) (s t : State)
      → turns enter events fuel (suc left) s ≡ ok none t
      → (u : State) × (turn enter events fuel s ≡ ok none u)
        × (turns enter events fuel left u ≡ ok none t)
  unfolding turns
  turns_first left s t e = by_turn (turn enter events fuel s) refl e
    where
      by_turn :
          (o : Outcome (Option ℤ))
          → turn enter events fuel s ≡ o
          → (and_then o λ status u. elim status [
            | none ↦ turns enter events fuel left u
            | some code ↦ ok (some code) u
          ])
            ≡ ok none t
          → (u : State) × (turn enter events fuel s ≡ ok none u)
            × (turns enter events fuel left u ≡ ok none t)
      by_turn (ok none u) is rest = (u, is, rest)
      by_turn (ok (some code) u) is rest = absurd (ground arith)
      by_turn trap is rest = absurd (ground arith)
      by_turn fault is rest = absurd (ground arith)
      by_turn out_of_fuel is rest = absurd (ground arith)

-- In this state the fiber at the front is about to ask for something that it may ask for.
pub record Behaves (quiet fuel : ℕ) (event : Event) (s : State) (p : Ptr) (f : Fiber) : Type 0 where
  pub ask : Ask
  pub asked : event.request ≡ some ask
  pub code : event.saved.rip ≢ 0
  pub keeps : KeepsBlock f event ask
  pub unmaps : Unmaps event
  pub allowed : Allowed quiet fuel event (resumed p event.saved ask f (dequeued s)) ask

abbrev pub WellBehaved : (quiet fuel : ℕ) → (ℕ → Event) → State → Type 0
WellBehaved quiet fuel events s =
    (p : Ptr) (r k j : List Ptr) (f : Fiber)
    → IsValid s [] (p ∷ r) k j
    → s.fibers p ≡ some f
    → Behaves quiet fuel (events s.resumes) s p f

fewer :
    (answered a b : List Ptr) (o : Outcome (Option ℤ))
    → IsSafe answered (a ++ b) o
    → IsSafe answered a o
fewer answered a b (ok none s) (more, k, j, v, h) =
    (b ++ more, k, j, subst (λ l. IsValid s [] l k j) (append_assoc a b more) v, h)
fewer answered a b (ok (some code) s) h = h
fewer answered a b trap h = h
fewer answered a b fault h = h
fewer answered a b out_of_fuel h = h

module _ (enter : Kernel) (events : ℕ → Event) (fuel quiet : ℕ) (counted : IsCounted enter)
    (still : IsQuietFrom enter quiet) (answered : List Ptr) where
  -- The rest of the loop behind a turn.
  behind_turn :
      (left : ℕ) (s : State) (r behind : List Ptr) (o : Outcome (Option ℤ))
      → turn enter events fuel s ≡ o
      → ((t : State) (more k j : List Ptr)
          → turn enter events fuel s ≡ ok none t
          → IsValid t [] (r ++ (behind ++ more)) k j
          → IsAccounted answered t k
          → IsSafe answered (behind ++ more) (turns enter events fuel left t))
      → IsSafe answered (r ++ behind) o
      → IsSafe answered behind (
          and_then o λ status t. elim status [
            | none ↦ turns enter events fuel left t
            | some code ↦ ok (some code) t
          ])
  behind_turn left s r behind (ok none t) e rest (more, k, j, w, h) =
      fewer answered behind more (turns enter events fuel left t)
        (rest t more k j e (subst (λ l. IsValid t [] l k j) (append_assoc r behind more) w) h)
  behind_turn left s r behind (ok (some code) t) e rest h = tt
  behind_turn left s r behind trap e rest h = tt
  behind_turn left s r behind fault e rest h = h
  behind_turn left s r behind out_of_fuel e rest h = h

  -- The dispatch loop, from a valid state with as many fibers at the front as it takes turns,
  -- never faults or runs out of fuel: it ends in a valid state in which those behind them are at
  -- the front, in order, or at a process exit, or in a trap; the parked fibers stay those that
  -- have an entry in the log and no completion so far. The conditions are those of a turn, at each
  -- state that the turns lead to.
  pub turns-IsSafe :
      (left : ℕ) (s : State) (r behind k j : List Ptr)
      → IsValid s [] (r ++ behind) k j
      → IsAccounted answered s k
      → length r ≡ left
      → ((t : State) → Turned enter events fuel s t → WellBehaved quiet fuel events t)
      → IsSafe answered behind (turns enter events fuel left s)
  unfolding turns
  turns-IsSafe zero s [] behind k j v h size behaves =
      ([], k, j, subst (λ l. IsValid s [] l k j) (sym (append-nil behind)) v, h)
  turns-IsSafe zero s (p ∷ r) behind k j v h size behaves = absurd (omega arith)
  turns-IsSafe (suc left) s [] behind k j v h size behaves = absurd (omega arith)
  turns-IsSafe (suc left) s (p ∷ r) behind k j v h size behaves =
      behind_turn left s r behind (turn enter events fuel s) refl
        (λ t more k' j' e w g.
          turns-IsSafe left t r (behind ++ more) k' j' w g (omega arith)
            (λ u there. behaves u (next s t u e there)))
        (front (v.known p (ground arith)))
    where
      front :
          (f : Fiber) × (s.fibers p ≡ some f) × CanRun f
          → IsSafe answered (r ++ behind) (turn enter events fuel s)
      front (f, at, can) =
          let b = behaves s (start s) p (r ++ behind) k j f v at in
          turn-IsSafe enter events fuel quiet counted still f b.ask h v at b.asked b.code b.keeps
            b.unmaps b.allowed
