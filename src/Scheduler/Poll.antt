-- ===== src/Scheduler/Poll.antt =====
-- The poll behind the dispatch loop: the submit, and the completions that it waits for.
use mathlib.Core.List.{append-nil, append_assoc}
use mathlib.Core.Path.{subst}
use libuc.Prelude.{
  ℕ, suc, ◌+◌, ◌-◌, ◌<◌, ◌≡◌, ◌≤◌, refl, sym, ap, ◌∙◌, slice, arith, ℤ, true, false, List, [], ◌++◌,
  length, length-slice, ◌==◌, Bool-cases, inl, inr, if◌then◌else◌,
}
use libuc.System.{syscall_failed}
use libuc.Ring.{Ring, Sqe, Cqe, Kernel, Submitted, returned, out_of_fuel, submit}
use libuc.Ring.Queue.{IsQueue, nth, pending, queued}
use libuc.Ring.Submit.{IsCounted, IsQuietFrom, Delivers, submit-Delivers}
use libuc.Machine.{Ptr, State, ok, trap, out_of_fuel}
use libuc.Fiber.{Event}
use libuc.Scheduler.{reap_all}
use libuc.Scheduler.Reactor.{submit_batch, poll}
use libuc.Scheduler.Invariant.{IsValid}
use libuc.Scheduler.Write.{ring-IsValid}
use libuc.Ring.Batch.{batch}
use libuc.Scheduler.Chain.{times, times-append}
use libuc.Scheduler.Account.{
  names, answers_to, others, Answers, AreLast, log, IsAccounted, AreLast-Answers, times-others,
}
use libuc.Scheduler.Drain.{Drained, reap_all-Drained}
use libuc.Scheduler.Turn.{Keeps}

-- How many completions a poll waits for.
abbrev pub waits_for : State → ℕ
waits_for s = if s.ready_count == 0 then 1 else 0

-- The fibers that this state's poll answers.
abbrev pub reaped_by : Submitted → List Ptr
reaped_by (returned result ring read n) = answers_to (queued ring)
reaped_by out_of_fuel = []

abbrev pub reaped : Kernel → (fuel : ℕ) → State → List Ptr
reaped enter fuel s =
    if s.parked_count == 0 then [] else reaped_by (submit enter fuel s.enters s.ring (waits_for s))

-- What the poll of this state rests on: fuel for the interrupts to come and the batch; and the kernel's
-- side of the ring. Behind a submit that succeeds the completions are in a queue as documented, each is
-- the last of its operation, and with those reaped before no fiber has more of them than it has
-- entries that the kernel has read.
pub record Answering (enter : Kernel) (fuel quiet : ℕ) (s : State) (answered : List Ptr)
    : Type 0 where
  pub enough : (quiet - s.enters) + s.ring.batch_count < fuel
  pub posted :
      (result : ℤ) (ring : Ring) (read : List Sqe) (n : ℕ)
      → submit enter fuel s.enters s.ring (waits_for s) ≡ returned result ring read n
      → syscall_failed result ≡ false
      → IsQueue ring
        × AreLast (queued ring)
        × ((a : Ptr)
            → times a (answers_to (queued ring)) + times a answered
              ≤ times a (names (s.submitted ++ read)))

abbrev submitted_state : State → Ring → List Sqe → ℕ → State
submitted_state s ring read n = record s {
  ring = ring;
  enters = n;
  submitted = s.submitted ++ read;
}

-- The completions that a loop has answered are accounted for.
same_log-IsAccounted :
    {t u : State} {answered k : List Ptr} (cs : List Cqe)
    → IsAccounted answered t k
    → Answers cs k
    → log u ≡ log t
    → IsAccounted (answered ++ answers_to cs) u (others cs k)
same_log-IsAccounted {answered = answered} {k = k} cs h for_parked same = record {
  adds_up = λ a. rw same (
      omega (
        arith,
        h.adds_up a,
        times-others a cs k for_parked,
        times-append a answered (answers_to cs),
      ));
}

-- A poll that reaps these completions: the state behind its submit, and what the reap loop makes of it.
pub record Reaps (enter : Kernel) (events : ℕ → Event) (fuel : ℕ) (answered : List Ptr) (s : State)
    (r k j : List Ptr) (cs : List Cqe) : Type 0 where
  pub left : ℕ
  pub submitted : State
  pub fibers : submitted.fibers ≡ s.fibers
  pub valid : IsValid submitted [] r k j
  pub for_parked : Answers cs k
  pub drained : Drained left submitted cs r k j
  pub account : IsAccounted (answered ++ answers_to cs) drained.after (others cs k)
  pub polls : poll enter events fuel s ≡ ok tt drained.after

module _ (enter : Kernel) (events : ℕ → Event) (fuel quiet : ℕ) (counted : IsCounted enter)
    (still : IsQuietFrom enter quiet) where
  module _ (s : State) (r k j : List Ptr) (v : IsValid s [] r k j)
      (some_parked : (s.parked_count == 0) ≡ false) (result : ℤ) (ring : Ring) (read : List Sqe)
      (n : ℕ)
      (e : submit enter fuel s.enters s.ring (waits_for s) ≡ returned result ring read n) where
    pub poll_refused : syscall_failed result ≡ true → poll enter events fuel s ≡ trap
    unfolding poll submit_batch
    poll_refused fails = rw (poll, some_parked, submit_batch, e, fails) refl

    poll_reaps :
        syscall_failed result ≡ false
        → poll enter events fuel s
          ≡ reap_all
              (suc (pending ring))
              (record s { ring = ring; enters = n; submitted = s.submitted ++ read })
    unfolding poll submit_batch
    poll_reaps fine = rw (poll, some_parked, submit_batch, e, fine) refl

  pub poll_idle : (s : State) → (s.parked_count == 0) ≡ true → poll enter events fuel s ≡ ok tt s
  unfolding poll
  poll_idle s none_parked = rw (poll, none_parked) refl

  -- What a submit that succeeds does to the log, and whom the completions answer.
  module _ (s : State) (answered k : List Ptr) (h : IsAccounted answered s k) (result : ℤ)
      (ring : Ring) (read : List Sqe) (in_order : read ++ batch ring ≡ batch s.ring) (n : ℕ) where
    submitted_state-log : log (submitted_state s ring read n) ≡ log s
    submitted_state-log =
        append_assoc s.submitted read (batch ring) ∙ ap (λ l. s.submitted ++ l) in_order

    submitted_state-IsAccounted : IsAccounted answered (submitted_state s ring read n) k
    submitted_state-IsAccounted = record { adds_up = λ a. rw submitted_state-log (h.adds_up a) }

    posted-Answers :
        ring.batch_count ≡ 0
        → AreLast (queued ring)
        → ((a : Ptr)
            → times a (answers_to (queued ring)) + times a answered
              ≤ times a (names (s.submitted ++ read)))
        → Answers (queued ring) k
    unfolding slice
    posted-Answers whole lasts few = AreLast-Answers (queued ring) k lasts (λ a.
        let empty : batch ring ≡ [] = ap (slice ring.sqes 0) whole in
        let all_read : read ≡ batch s.ring =
          sym (append-nil read) ∙ ap (λ l. read ++ l) (sym empty) ∙ in_order in
        omega (arith, few a, h.adds_up a, ap (λ l. times a (names (s.submitted ++ l))) all_read))

  -- A poll whose submit succeeds ends, and reaps what the kernel has posted.
  pub poll-Reaps :
      (s : State) (answered r k j : List Ptr) (result : ℤ) (ring : Ring) (read : List Sqe) (n : ℕ)
      → IsValid s [] r k j
      → IsAccounted answered s k
      → Answering enter fuel quiet s answered
      → (s.parked_count == 0) ≡ false
      → submit enter fuel s.enters s.ring (waits_for s) ≡ returned result ring read n
      → syscall_failed result ≡ false
      → Reaps enter events fuel answered s r k j (queued ring)
  poll-Reaps s answered r k j result ring read n v h a some_parked e fine =
      let (d, le) : Delivers s.ring s.enters (returned result ring read n) =
        subst (Delivers s.ring s.enters) e (
          submit-Delivers enter quiet counted still fuel s.enters s.ring (waits_for s) v.batch
            a.enough) in
      let (q, lasts, few) = a.posted result ring read n e fine in
      let t : State = submitted_state s ring read n in
      let v1 : IsValid t [] r k j =
        ring-IsValid ring n (s.submitted ++ read) v d.valid d.shape.cq_entries in
      let for_parked : Answers (queued ring) k =
        posted-Answers s answered k h result ring read d.in_order n (d.whole fine) lasts few in
      let size : length (queued ring) < suc (pending ring) =
        omega (arith, length-slice (nth ring) 0 (pending ring)) in
      let drained =
        reap_all-Drained (suc (pending ring)) t (queued ring) r k j refl q v1 for_parked size in
      record {
        left = suc (pending ring);
        submitted = t;
        fibers = refl;
        valid = v1;
        for_parked = for_parked;
        drained = drained;
        account =
            same_log-IsAccounted (queued ring)
              (submitted_state-IsAccounted s answered k h result ring read d.in_order n) for_parked
              drained.same_log;
        polls = poll_reaps s r k j v some_parked result ring read n e fine ∙ drained.runs;
      }

  -- A poll of a valid state never faults or runs out of fuel: it traps, or it ends in a valid state
  -- with the fibers that were ready in front, in order.
  pub poll-Keeps :
      (s : State) (answered r k j : List Ptr)
      → IsValid s [] r k j
      → IsAccounted answered s k
      → Answering enter fuel quiet s answered
      → Keeps (answered ++ reaped enter fuel s) r (poll enter events fuel s)
  unfolding poll
  poll-Keeps s answered r k j v h a = elim (Bool-cases (s.parked_count == 0)) [
    | inl none_parked ↦
        rw (poll_idle s none_parked, none_parked, append-nil answered)
          ([], k, j, subst (λ l. IsValid s [] l k j) (sym (append-nil r)) v, h)
    | inr some_parked ↦
        let polls : reaped enter fuel s
            ≡ reaped_by (submit enter fuel s.enters s.ring (waits_for s)) =
          rw some_parked refl in
        subst (λ l. Keeps (answered ++ l) r (poll enter events fuel s)) (sym polls)
          (behind some_parked (submit enter fuel s.enters s.ring (waits_for s)) refl (
            submit-Delivers enter quiet counted still fuel s.enters s.ring (waits_for s) v.batch
              a.enough))
  ]
    where
      behind :
          ((s.parked_count == 0) ≡ false)
          → (x : Submitted) → submit enter fuel s.enters s.ring (waits_for s) ≡ x
          → Delivers s.ring s.enters x
          → Keeps (answered ++ reaped_by x) r (poll enter events fuel s)
      behind some_parked out_of_fuel e d = absurd d
      behind some_parked (returned result ring read n) e (d, le) =
          elim (Bool-cases (syscall_failed result)) [
            | inl fails ↦ rw (poll_refused s r k j v some_parked result ring read n e fails) tt
            | inr fine ↦
                let reaps =
                  poll-Reaps s answered r k j result ring read n v h a some_parked e fine in
                rw reaps.polls (
                  answers_to (queued ring),
                  others (queued ring) k,
                  j,
                  reaps.drained.valid,
                  reaps.account,
                )
          ]
