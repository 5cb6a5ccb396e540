-- ===== src/Scheduler/Refine.antt =====
-- The reactor refines the abstract scheduler: what its rounds do is a run of turns and answers.
use mathlib.Core.Path.{subst}
use mathlib.Core.List.{append_assoc, append-nil}
use libuc.Prelude.{
  ℕ, zero, suc, ◌≤◌, ◌≡◌, ◌∙◌, refl, sym, ap, ap₂, arith, false, ◌==◌, List, [], ◌∷◌, ◌++◌, Option,
  some, none, update, Bool-cases, inl, inr, ℕ_discrete,
}
use libuc.System.{syscall_failed}
use libuc.Ring.{Cqe, Kernel, Submitted, returned, out_of_fuel, submit}
use libuc.Ring.Queue.{queued}
use libuc.Ring.Submit.{IsCounted, IsQuietFrom, Delivers, submit-Delivers}
use libuc.Machine.{Ptr, State, ok}
use libuc.Fiber.{Event}
use libuc.Scheduler.Chain.{times, drop_one, times-drop_one}
use libuc.Scheduler.Reactor.{turns, poll}
use libuc.Scheduler.Account.{IsAccounted, answers_to, others, Answers}
use libuc.Scheduler.Spec.{Thread, Abstract, given}
use libuc.Scheduler.Spec.Reach.{Reaches, here, by_turn, by_answer, Reaches-trans}
use libuc.Scheduler.View.{thread, view, Shows}
use libuc.Scheduler.Drain.{give, given_all}
use libuc.Scheduler.Dispatch.{Turned, start, next, turns_first, WellBehaved}
use libuc.Scheduler.Simulate.{turn-Steps}
use libuc.Scheduler.Poll.{
  reaped, reaped_by, Answering, waits_for, Reaps, poll-Reaps, poll_idle, poll_refused,
}
use libuc.Scheduler.Rounds.{Rounded, begin, again, Cooperates, later}

-- The state stands for one that the abstract scheduler reaches from `a`.
pub record Refines (answered : List Ptr) (a : Abstract) (t : State) : Type 0 where
  pub after : Abstract
  pub reaches : Reaches a after
  pub shows : Shows t after
  pub account : IsAccounted answered t after.parked

-- Completions of parked threads are answers, one after the other.
given_all-Reaches :
    (cs : List Cqe) (threads : Ptr → Option Thread) (r k j : List Ptr)
    → Answers cs k
    → ((w : Ptr) → 1 ≤ times w k → (x : Thread) × (threads w ≡ some x))
    → Reaches
        (record { threads = threads; ready = r; parked = k; joining = j })
        (record {
          threads = given_all cs threads;
          ready = r ++ answers_to cs;
          parked = others cs k;
          joining = j;
        })
given_all-Reaches [] threads r k j for_parked known =
    subst
      (λ l.
        Reaches (record { threads = threads; ready = r; parked = k; joining = j })
          (record { threads = threads; ready = l; parked = k; joining = j }))
      (sym (append-nil r)) (here (record { threads = threads; ready = r; parked = k; joining = j }))
given_all-Reaches (c ∷ cs) threads r k j (last, in_k, rest) known =
    let w : Ptr = c.user_data in
    let (x, at) = known w in_k in
    let threads' : Ptr → Option Thread = update threads w (some (given c.res x)) in
    let same : update threads w (give c.res (threads w)) ≡ threads' =
      ap (λ (y : Option Thread). update threads w (give c.res y)) at in
    let known' : (q : Ptr) → 1 ≤ times q (drop_one w k) → (y : Thread) × (threads' q ≡ some y) =
      λ q waits. elim (ℕ_discrete q w) [
        | yes e ↦ (given c.res x, ground arith)
        | no ne ↦
            let (y, there) = known q (ground (arith, times-drop_one q w k in_k)) in
            (y, ground arith)
      ] in
    let more = given_all-Reaches cs threads' (r ++ w ∷ []) (drop_one w k) j rest known' in
    by_answer _ _ w x c.res in_k at (
      subst
        (λ (b : (Ptr → Option Thread) × List Ptr).
          Reaches
            (record { threads = threads'; ready = r ++ w ∷ []; parked = drop_one w k; joining = j })
            (record { threads = b.0; ready = b.1; parked = others cs (drop_one w k); joining = j }))
        (ap₂ (λ (l : Ptr → Option Thread) (m : List Ptr). (l, m)) (ap (given_all cs) (sym same))
          (append_assoc r (w ∷ []) (answers_to cs)))
        more)

module _ (enter : Kernel) (events : ℕ → Event) (fuel quiet : ℕ) (counted : IsCounted enter)
    (still : IsQuietFrom enter quiet) where
  turns-Refines :
      (left : ℕ) (answered : List Ptr) (s t : State) (a : Abstract)
      → Shows s a
      → IsAccounted answered s a.parked
      → ((u : State) → Turned enter events fuel s u → WellBehaved quiet fuel events u)
      → turns enter events fuel left s ≡ ok none t
      → Refines answered a t
  unfolding turns
  turns-Refines zero answered s t a shows h behaves goes =
      let same : s ≡ t = cc in
      subst (Refines answered a) same
        (record { after = a; reaches = here a; shows = shows; account = h })
  turns-Refines (suc left) answered s t a shows h behaves goes =
      let (u, first, rest) = turns_first enter events fuel left s t goes in
      let step =
        turn-Steps enter events fuel quiet counted still answered s u a shows h
          (behaves s (start s)) first in
      let more =
        turns-Refines left answered u t step.after step.shows step.account
          (λ v there. behaves v (next s u v first there)) rest in
      record {
        after = more.after;
        reaches = by_turn a step.after more.after step.who step.ask step.step more.reaches;
        shows = more.shows;
        account = more.account;
      }

  -- The poll with a submit that succeeds.
  reaped-Refines :
      (answered : List Ptr) (s t : State) (a : Abstract) (cs : List Cqe)
      → Shows s a
      → Reaps enter events fuel answered s a.ready a.parked a.joining cs
      → poll enter events fuel s ≡ ok tt t
      → Refines (answered ++ answers_to cs) a t
  reaped-Refines answered s t a cs shows p goes =
      let known : (w : Ptr) → 1 ≤ times w a.parked → (x : Thread) × (a.threads w ≡ some x) =
        λ w waits.
          let (f, there, can) = shows.valid.known w (omega arith) in
          (thread f, ap (λ threads. threads w) (sym shows.threads) ∙ ap view there) in
      let outcomes : ok tt p.drained.after ≡ ok tt t = sym p.polls ∙ goes in
      let same : p.drained.after ≡ t = cc in
      subst (Refines (answered ++ answers_to cs) a) same (record {
        after = record {
          threads = given_all cs a.threads;
          ready = a.ready ++ answers_to cs;
          parked = others cs a.parked;
          joining = a.joining;
        };
        reaches = given_all-Reaches cs a.threads a.ready a.parked a.joining p.for_parked known;
        shows = record {
          threads =
              p.drained.answers
              ∙ ap (λ fibers. given_all cs (λ w. view (fibers w))) p.fibers
              ∙ ap (given_all cs) shows.threads;
          valid = p.drained.valid;
        };
        account = p.account;
      })

  poll-Refines :
      (answered : List Ptr) (s t : State) (a : Abstract)
      → Shows s a
      → IsAccounted answered s a.parked
      → Answering enter fuel quiet s answered
      → poll enter events fuel s ≡ ok tt t
      → Refines (answered ++ reaped enter fuel s) a t
  poll-Refines answered s t a shows h answers goes = elim (Bool-cases (s.parked_count == 0)) [
    | inl none_parked ↦
        let outcomes : ok tt s ≡ ok tt t =
          sym (poll_idle enter events fuel quiet counted still s none_parked) ∙ goes in
        let same : s ≡ t = cc in
        rw (none_parked, append-nil answered)
          (subst (Refines answered a) same
            (record { after = a; reaches = here a; shows = shows; account = h }))
    | inr some_parked ↦
        let polls : reaped enter fuel s
            ≡ reaped_by (submit enter fuel s.enters s.ring (waits_for s)) =
          rw some_parked refl in
        subst (λ l. Refines (answered ++ l) a t) (sym polls)
          (by_submit some_parked (submit enter fuel s.enters s.ring (waits_for s)) refl (
            submit-Delivers enter quiet counted still fuel s.enters s.ring (waits_for s)
              shows.valid.batch answers.enough))
  ]
    where
      by_submit :
          (s.parked_count == 0) ≡ false
          → (x : Submitted) → submit enter fuel s.enters s.ring (waits_for s) ≡ x
          → Delivers s.ring s.enters x
          → Refines (answered ++ reaped_by x) a t
      by_submit some_parked out_of_fuel e d = absurd d
      by_submit some_parked (returned result ring read n) e d =
          elim (Bool-cases (syscall_failed result)) [
            | inl fails ↦
                let traps =
                  poll_refused enter events fuel quiet counted still s a.ready a.parked a.joining
                    shows.valid some_parked result ring read n e fails in
                absurd (ground arith)
            | inr fine ↦
                reaped-Refines answered s t a (queued ring) shows
                  (poll-Reaps enter events fuel quiet counted still s answered a.ready a.parked
                    a.joining result ring read n shows.valid h answers some_parked e fine)
                  goes
          ]

  -- The reactor refines the abstract scheduler. From a valid state that stands for an abstract one, with
  -- the parked fibers those that have an entry in the log and no completion so far, each state that its
  -- rounds lead to is valid and stands for one that the abstract scheduler reaches: by turns of the
  -- threads in front, each with what its request may lead to, and by answers from the kernel to parked
  -- threads. The conditions are those of the reactor's safety.
  pub Rounded-Refines :
      {answered by_then : List Ptr} {s t : State} (a : Abstract)
      → Rounded enter events fuel s answered t by_then
      → Shows s a
      → IsAccounted answered s a.parked
      → Cooperates enter events fuel quiet s answered
      → Refines by_then a t
  Rounded-Refines a (begin s answered) shows h c = record {
    after = a;
    reaches = here a;
    shows = shows;
    account = h;
  }
  Rounded-Refines a (again s t u v answered by_then turns_go polls rest) shows h c =
      let in_turns =
        turns-Refines s.ready_count answered s t a shows h
          (λ w there. c.behaves s w answered (begin s answered) there) turns_go in
      let in_poll =
        poll-Refines answered t u in_turns.after in_turns.shows in_turns.account
          (c.answers s t answered (begin s answered) turns_go) polls in
      let more =
        Rounded-Refines in_poll.after rest in_poll.shows in_poll.account (later turns_go polls c) in
      record {
        after = more.after;
        reaches = Reaches-trans in_turns.reaches (Reaches-trans in_poll.reaches more.reaches);
        shows = more.shows;
        account = more.account;
      }
