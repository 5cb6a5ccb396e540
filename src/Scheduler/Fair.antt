-- ===== src/Scheduler/Fair.antt =====
-- The dispatch loop is fair: each fiber that is ready at its start gets its turn in it.
use mathlib.Core.Path.{subst}
use libuc.Prelude.{
  ℕ, zero, suc, ◌+◌, ◌≤◌, ◌≡◌, ◌∙◌, ap, refl, arith, ℤ, List, [], ◌∷◌, ◌++◌, Option, some, none,
  length,
}
use libuc.Ring.{Kernel}
use libuc.Ring.Submit.{IsCounted, IsQuietFrom}
use libuc.Scheduler.Chain.{times, times-append}
use libuc.Scheduler.Spec.{Abstract}
use libuc.Scheduler.Spec.Order.{Awaits}
use libuc.Scheduler.View.{thread, view, seen}
use libuc.Scheduler.Simulate.{turns-Awaits}
use libuc.Machine.{Ptr, Fiber, State, Outcome, ok, trap, fault, out_of_fuel}
use libuc.Fiber.{Event}
use libuc.Scheduler.Reactor.{turn, turns}
use libuc.Scheduler.Account.{IsAccounted}
use libuc.Scheduler.Invariant.{IsValid}
use libuc.Scheduler.Turn.{IsSafe}
use libuc.Scheduler.Dispatch.{Turned, start, next, turns_first, WellBehaved, turns-IsSafe}

module _ (enter : Kernel) (events : ℕ → Event) (fuel : ℕ) where
  turns_more :
      (left : ℕ) (s t : State)
      → turn enter events fuel s ≡ ok none t
      → turns enter events fuel (suc left) s ≡ turns enter events fuel left t
  unfolding turns
  turns_more left s t e = rw (turns, e) refl

  -- The turns of a loop that goes on, and the loop as those and the turns behind them.
  record Passed (left : ℕ) (s t : State) : Type 0 where
    path : Turned enter events fuel s t
    rest :
        (behind : ℕ) → turns enter events fuel (left + behind) s ≡ turns enter events fuel behind t

  state_of : State → Outcome (Option ℤ) → State
  state_of d (ok status t) = t
  state_of d trap = d
  state_of d fault = d
  state_of d out_of_fuel = d

  -- One turn, and then a loop that is known.
  add_turn :
      (left : ℕ) (s u t : State)
      → turn enter events fuel s ≡ ok none u
      → Passed left u t
      → Passed (suc left) s t
  add_turn left s u t e p = record {
    path = next s u t e p.path;
    rest = λ behind.
        let size : suc left + behind ≡ suc (left + behind) = omega arith in
        rw size (turns_more (left + behind) s u e ∙ p.rest behind);
  }

  turns-Passed :
      (left : ℕ) (s t : State) → turns enter events fuel left s ≡ ok none t → Passed left s t
  unfolding turns state_of
  turns-Passed zero s t e =
      let same : s ≡ t = ap (state_of s) e in
      record {
        path = subst (Turned enter events fuel s) same (start s);
        rest = λ behind.
            let size : 0 + behind ≡ behind = omega arith in
            rw size (ap (turns enter events fuel behind) same);
      }
  turns-Passed (suc left) s t e =
      let (u, is, rest) = turns_first enter events fuel left s t e in
      add_turn left s u t is (turns-Passed left u t rest)

-- What comes of a fiber that is ready behind others with an answer: their turns end the process or
-- trap, or lead to a valid state in which it is at the front, with this answer, and has its turn next, in
-- the same loop.
pub data GetsTurn (enter : Kernel) (events : ℕ → Event) (fuel : ℕ) (s : State) (before : List Ptr)
    (p : Ptr) (behind : List Ptr) (answer : ℤ) : Type 0 where
  ends :
      (code : ℤ) (t : State)
      → turns enter events fuel (length before) s ≡ ok (some code) t
      → GetsTurn enter events fuel s before p behind answer
  traps :
      turns enter events fuel (length before) s ≡ trap
      → GetsTurn enter events fuel s before p behind answer
  next_is :
      (t : State) (g : Fiber) (more k j : List Ptr)
      → Turned enter events fuel s t
      → t.ready_head ≡ p
      → t.fibers p ≡ some g
      → g.request.result ≡ answer
      → IsValid t [] (p ∷ behind ++ more) k j
      → ((left : ℕ)
          → turns enter events fuel (length before + left) s ≡ turns enter events fuel left t)
      → GetsTurn enter events fuel s before p behind answer

pub seen-result :
    (t : State) (p : Ptr) (g : Fiber) (answer : ℤ)
    → t.fibers p ≡ some g
    → Awaits (seen t) p answer
    → g.request.result ≡ answer
seen-result t p g answer at (x, is, lives, same) = ground arith

module _ (enter : Kernel) (events : ℕ → Event) (fuel quiet : ℕ) (counted : IsCounted enter)
    (still : IsQuietFrom enter quiet) (answered : List Ptr) where
  -- In a valid state, with the parked fibers as for a turn, a fiber that is ready behind others
  -- gets its turn in this dispatch loop, once each of those has had one, unless one of them ends
  -- the process or traps: its wait is bounded by its place in the queue. The answer to its request is
  -- then what it was at the start: no other turn changes it. The condition is that of a turn, at each
  -- state that the turns lead to.
  pub turns-GetsTurn :
      (s : State) (before behind k j : List Ptr) (p : Ptr) (f : Fiber)
      → IsValid s [] (before ++ p ∷ behind) k j
      → IsAccounted answered s k
      → s.fibers p ≡ some f
      → ((t : State) → Turned enter events fuel s t → WellBehaved quiet fuel events t)
      → GetsTurn enter events fuel s before p behind f.request.result
  turns-GetsTurn s before behind k j p f v h at behaves =
      by_turns (turns enter events fuel (length before) s) refl (
        turns-IsSafe enter events fuel quiet counted still answered (length before) s before
          (p ∷ behind) k j v h refl behaves)
    where
      a : Abstract
      a = record { threads = seen s; ready = before ++ p ∷ behind; parked = k; joining = j }

      waits : Awaits (seen s) p f.request.result
      waits =
          let here : 1 ≤ times p (before ++ p ∷ behind) =
            ground (arith, times-append p before (p ∷ behind)) in
          let (x, there, can) = v.known p (omega arith) in
          (thread f, ap view at, ground arith, refl)

      arrives :
          (t : State)
          → turns enter events fuel (length before) s ≡ ok none t
          → (more k' j' : List Ptr) → IsValid t [] (p ∷ behind ++ more) k' j'
          → GetsTurn enter events fuel s before p behind f.request.result
      arrives t e more k' j' w =
          let passed = turns-Passed enter events fuel (length before) s t e in
          let still_waits =
            turns-Awaits enter events fuel quiet counted still answered before s t a p behind
              f.request.result (record { threads = refl; valid = v }) h refl behaves e waits in
          let (g, there, can) = w.known p (ground arith) in
          next_is t g more k' j' passed.path w.ready.chain.0 there
            (seen-result t p g f.request.result there still_waits) w passed.rest

      by_turns :
          (o : Outcome (Option ℤ))
          → turns enter events fuel (length before) s ≡ o
          → IsSafe answered (p ∷ behind) o
          → GetsTurn enter events fuel s before p behind f.request.result
      by_turns (ok none t) e (more, k', j', w, g) = arrives t e more k' j' w
      by_turns (ok (some code) t) e safe = ends code t e
      by_turns trap e safe = traps e
      by_turns fault e safe = absurd safe
      by_turns out_of_fuel e safe = absurd safe
