-- ===== src/Scheduler/Simulate.antt =====
-- The reactor's turns, as steps of the abstract scheduler.
use libuc.Prelude.{
  ℕ, ◌+◌, ◌≡◌, ◌≢◌, ◌∙◌, refl, sym, ap, arith, ℤ, List, [], ◌∷◌, ◌++◌, none, length,
}
use libuc.Ring.{Kernel}
use libuc.Ring.Submit.{IsCounted, IsQuietFrom}
use libuc.Machine.{Ptr, null, Ask, State, ok, fault}
use libuc.Fiber.{Event}
use libuc.Scheduler.{dequeue}
use mathlib.Core.List.{append_assoc}
use libuc.Scheduler.Chain.{times, times-append}
use libuc.Scheduler.Reactor.{turn, turns}
use libuc.Scheduler.Account.{IsAccounted}
use libuc.Scheduler.Invariant.{IsValid}
use libuc.Scheduler.Ready.{IsReady, dequeued}
use libuc.Fiber.Resume.{resumed}
use libuc.Scheduler.Spec.{Abstract, Turns}
use libuc.Scheduler.Spec.Order.{Awaits, Turns-Awaits, Turns-ready}
use mathlib.Core.Path.{subst}
use libuc.Scheduler.View.{seen, Shows}
use libuc.Scheduler.Turn.{turn-Stepped}
use libuc.Scheduler.Turn.Contract.{Stepped}
use libuc.Scheduler.Dispatch.{Turned, start, next, turns_first, WellBehaved}

-- What a turn that goes on is.
pub record Steps (answered : List Ptr) (a : Abstract) (t : State) : Type 0 where
  pub after : Abstract
  pub who : Ptr
  pub ask : Ask
  pub others : List Ptr
  pub front : a.ready ≡ who ∷ others
  pub step : Turns a who ask after
  pub shows : Shows t after
  pub account : IsAccounted answered t after.parked

same_parts : {p q : Ptr} {r l : List Ptr} → p ∷ r ≡ q ∷ l → (p ≡ q) × (r ≡ l)
same_parts e = (cc, cc)

module _ (enter : Kernel) (events : ℕ → Event) (fuel quiet : ℕ) (counted : IsCounted enter)
    (still : IsQuietFrom enter quiet) (answered : List Ptr) where
  -- With no fiber in front there is no turn.
  no_turn :
      (s : State) → s.ready_head ≡ null → s.fibers null ≡ none → turn enter events fuel s ≡ fault
  unfolding turn dequeue
  no_turn s empty unmapped = rw (turn, dequeue, empty, unmapped) refl

  pub turn-Steps :
      (s t : State) (a : Abstract)
      → Shows s a
      → IsAccounted answered s a.parked
      → WellBehaved quiet fuel events s
      → turn enter events fuel s ≡ ok none t
      → Steps answered a t
  turn-Steps s t a shows h behaves goes = by_ready a.ready refl
    where
      by_ready : (l : List Ptr) → a.ready ≡ l → Steps answered a t
      by_ready [] front =
          let empty : IsReady s [] = subst (IsReady s) front shows.valid.ready in
          absurd (ground (arith, no_turn s empty.chain shows.valid.no_null))
      by_ready (p ∷ r) front =
          let v : IsValid s [] (p ∷ r) a.parked a.joining =
            subst (λ l. IsValid s [] l a.parked a.joining) front shows.valid in
          let (f, at, can) = v.known p (ground arith) in
          let b = behaves p r a.parked a.joining f v at in
          let (after, step, shown, account) =
            subst
              (Stepped enter fuel answered (resumed p (events s.resumes).saved b.ask f (dequeued s))
                a p b.ask)
              goes
              (turn-Stepped enter events fuel quiet counted still a f b.ask shows h front at b.asked
                b.code b.keeps b.unmaps b.allowed) in
          record {
            after = after;
            who = p;
            ask = b.ask;
            others = r;
            front = front;
            step = step;
            shows = shown;
            account = account;
          }

  -- A loop of turns that goes on, with a thread that waits behind as many of them.
  pub turns-Awaits :
      (before : List Ptr) (s t : State) (a : Abstract) (w : Ptr) (behind : List Ptr) (answer : ℤ)
      → Shows s a
      → IsAccounted answered s a.parked
      → a.ready ≡ before ++ w ∷ behind
      → ((u : State) → Turned enter events fuel s u → WellBehaved quiet fuel events u)
      → turns enter events fuel (length before) s ≡ ok none t
      → Awaits (seen s) w answer
      → Awaits (seen t) w answer
  unfolding turns
  turns-Awaits [] s t a w behind answer shows h is behaves goes waits =
      let same : s ≡ t = cc in subst (λ u. Awaits (seen u) w answer) same waits
  turns-Awaits (p ∷ before) s t a w behind answer shows h is behaves goes waits =
      let (u, first, rest) = turns_first enter events fuel (length before) s t goes in
      let step = turn-Steps s u a shows h (behaves s (start s)) first in
      let (p_is, others_is) = same_parts (sym step.front ∙ is) in
      let here : times w a.ready ≡ times w (p ∷ []) + (times w before + times w (w ∷ behind)) =
        ap (times w) is ∙ ground (arith, times-append w before (w ∷ behind)) in
      let apart : w ≢ step.who = ground (arith, shows.valid.once w) in
      let out : times w a.joining ≡ 0 = ground (arith, shows.valid.once w) in
      let (more, ready) =
        Turns-ready a step.after step.who step.others step.ask step.front step.step in
      let still : Awaits (seen u) w answer =
        subst (λ threads. Awaits threads w answer) (sym step.shows.threads)
          (Turns-Awaits a step.after step.who w step.ask answer step.step apart out
            (subst (λ threads. Awaits threads w answer) shows.threads waits)) in
      turns-Awaits before u t step.after w (behind ++ more) answer step.shows step.account
        (ready ∙ ap (λ l. l ++ more) others_is ∙ append_assoc before (w ∷ behind) more)
        (λ v there. behaves v (next s u v first there)) rest still
