-- ===== src/Scheduler/Drain.antt =====
-- The reap loop: every completion that waits is answered.
use mathlib.Core.List.{append_assoc, append-nil}
use libuc.Prelude.{
  ℕ, zero, suc, ◌<◌, ◌≡◌, refl, ap, ap₂, sym, ◌∙◌, arith, inl, inr, List, [], ◌∷◌, ◌++◌, Option,
  some, none, length, ℤ, update,
}
use mathlib.Core.Path.{subst}
use libuc.Ring.{Ring, Cqe, reap}
use libuc.Ring.Batch.{batch}
use libuc.Ring.Queue.{IsQueue, queued, reap-queued}
use libuc.Machine.{Ptr, State, ok}
use libuc.Scheduler.{complete, reap_all}
use libuc.Scheduler.Chain.{drop_one}
use libuc.Scheduler.Account.{log, answers_to, others, Answers}
use libuc.Scheduler.Invariant.{IsValid}
use libuc.Scheduler.Write.{ring-IsValid}
use libuc.Scheduler.Park.{complete-Completes}
use libuc.Scheduler.Exit.{answered}
use libuc.Scheduler.Spec.{Thread, given}
use libuc.Scheduler.View.{view, seen, seen-update}

reap-keeps :
    (ring ring' : Ring) (c : Cqe)
    → reap ring ≡ some (c, ring')
    → (ring'.cq_entries ≡ ring.cq_entries)
      × (ring'.sq_entries ≡ ring.sq_entries)
      × (ring'.batch_count ≡ ring.batch_count)
unfolding reap
reap-keeps ring ring' c h = ground arith

reap-batch : (ring ring' : Ring) (c : Cqe) → reap ring ≡ some (c, ring') → batch ring' ≡ batch ring
unfolding reap
reap-batch ring ring' c h = ground arith

pass_runs :
    (left : ℕ) (s s2 after : State) (c : Cqe) (ring' : Ring)
    → reap s.ring ≡ some (c, ring')
    → complete c (record s { ring = ring' }) ≡ ok tt s2
    → reap_all left s2 ≡ ok tt after
    → reap_all (suc left) s ≡ ok tt after
unfolding reap_all
pass_runs left s s2 after c ring' takes answers rest = rw (reap_all, takes, answers) rest

-- The threads with these answers given, one after the other.
abbrev pub give : ℤ → Option Thread → Option Thread
give answer none = none
give answer (some t) = some (given answer t)

abbrev pub given_all : List Cqe → (Ptr → Option Thread) → Ptr → Option Thread
given_all [] threads = threads
given_all (c ∷ cs) threads =
    given_all cs (update threads c.user_data (give c.res (threads c.user_data)))

-- What the loop leaves.
pub record Drained (left : ℕ) (s : State) (cs : List Cqe) (r k j : List Ptr) : Type 0 where
  pub after : State
  pub runs : reap_all left s ≡ ok tt after
  pub empty : queued after.ring ≡ []
  pub same_log : log after ≡ log s
  pub valid : IsValid after [] (r ++ answers_to cs) (others cs k) j
  pub answers : seen after ≡ given_all cs (seen s)

-- From a valid state, if each completion that waits is the last of an operation and they answer
-- parked fibers, one each, the reap loop ends within one pass for each and one more, with the
-- completion queue empty: the fibers they answer are ready, behind the others, in the order of the
-- completions, and parked no more, no entry is added or lost, and the state is valid.
pub reap_all-Drained :
    (left : ℕ) (s : State) (cs : List Cqe) (r k j : List Ptr)
    → queued s.ring ≡ cs
    → IsQueue s.ring
    → IsValid s [] r k j
    → Answers cs k
    → length cs < left
    → Drained left s cs r k j
unfolding reap_all
reap_all-Drained zero s cs r k j e q v a enough = absurd (omega arith)
reap_all-Drained (suc left) s [] r k j e q v a enough = elim (reap-queued s.ring q) [
  | inl (none_wait, stops) ↦ record {
    after = s;
    runs = rw (reap_all, stops) refl;
    empty = e;
    same_log = refl;
    valid = subst (λ l. IsValid s [] l k j) (sym (append-nil r)) v;
    answers = refl;
  }
  | inr (c, ring', takes, split, q') ↦ absurd (cc)
]
reap_all-Drained (suc left) s (c ∷ cs) r k j e q v (single, in_k, rest) enough =
    elim (reap-queued s.ring q) [
      | inl (none_wait, stops) ↦ absurd (cc)
      | inr (c', ring', takes, split, q') ↦
          let same : c' ≡ c = cc in
          let left_over : queued ring' ≡ cs = cc in
          let (cq, sq, batch_same) = reap-keeps s.ring ring' c' takes in
          let s1 : State = record s { ring = ring' } in
          let v1 : IsValid s1 [] r k j =
            ring-IsValid ring' s.enters s.submitted v (ground (arith, v.batch, cq, sq, batch_same))
              cq in
          let done = complete-Completes c c.user_data v1 refl single in_k in
          let more =
            reap_all-Drained left done.after cs (r ++ c.user_data ∷ []) (drop_one c.user_data k) j
              (ap queued done.ring ∙ left_over) (rw done.ring q') done.valid rest (omega arith) in
          record {
            after = more.after;
            runs =
                pass_runs left s done.after more.after c ring'
                  (takes ∙ ap (λ d. some (d, ring')) same) done.runs more.runs;
            empty = more.empty;
            same_log =
                more.same_log
                ∙ ap₂ (λ read ring. read ++ batch ring) done.read done.ring
                ∙ ap (λ l. s.submitted ++ l) (reap-batch s.ring ring' c' takes);
            valid =
                subst (λ l. IsValid more.after [] l (others cs (drop_one c.user_data k)) j)
                  (append_assoc r (c.user_data ∷ []) (answers_to cs)) more.valid;
            answers =
                more.answers
                ∙ ap (given_all cs) (
                    seen-update s1 done.after c.user_data (some (answered done.fiber c.res))
                      done.fibers
                    ∙ ap (λ x. update (seen s) c.user_data (give c.res (view x))) (sym done.there));
          }
    ]
