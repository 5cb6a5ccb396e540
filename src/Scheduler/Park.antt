-- ===== src/Scheduler/Park.antt =====
-- AWAIT and the completion that answers it.
use Prim.Native.Nat.{bit_and}
use libuc.Prelude.{
  ◌+◌, ◌-◌, ◌%◌, ◌≤◌, ◌^◌, ◌≡◌, ◌≢◌, refl, ap, ◌∙◌, arith, List, [], ◌∷◌, ◌++◌, some, length,
  update, ℕ_discrete,
}
use libuc.Ring.{Cqe}
use libuc.Machine.{Ptr, Fiber, State, ok, trap}
use libuc.Scheduler.{streams, enqueue, complete}
use libuc.Scheduler.Chain.{times, drop_one, times-drop_one, length-drop_one}
use libuc.Scheduler.Ready.{enqueued}
use libuc.Scheduler.Invariant.{IsValid}
use libuc.Scheduler.Move.{enqueue-IsValid}
use libuc.Scheduler.Write.{write-IsValid}
use libuc.Scheduler.Exit.{answer-ok, load-ok, answered, answered-IsMinor}

-- A parked fiber is no longer counted as parked, and runs next.
unpark :
    {s : State} {r k j : List Ptr} (w : Ptr)
    → IsValid s [] r k j
    → 1 ≤ times w k
    → IsValid
        (record s { parked_count = (s.parked_count + 2 ^ 32 - 1) % 2 ^ 32 })
        (w ∷ [])
        r
        (drop_one w k)
        j
unpark {s} {r} {k} {j} w v in_k = record {
  ready = record { chain = v.ready.chain; tail = v.ready.tail; count = v.ready.count };
  parked = omega (arith, v.parked, v.small, less);
  joining = v.joining;
  small = omega (arith, v.small, less);
  room = omega (arith, v.room, less);
  batch = v.batch;
  once = λ a. ground (arith, v.once a, times-drop_one a w k in_k);
  known = λ a h. v.known a (ground (arith, times-drop_one a w k in_k));
  runs = λ a h. elim (ℕ_discrete a w) [
    | yes e ↦ let (x, there, can) = v.known w (omega arith) in (x, ground arith)
    | no ne ↦ absurd (ground arith)
  ];
  asker = λ a x there h. v.asker a x there (ground (arith, times-drop_one a w k in_k));
  somewhere = λ a x there h. ground (arith, v.somewhere a x there h, times-drop_one a w k in_k);
  joined = λ a x there h.
      let (kept, alive, waits) = v.joined a x there h in (kept, λ _. alive refl, waits);
  one_target = v.one_target;
  waits_for = v.waits_for;
  no_null = v.no_null;
  owns = v.owns;
}
  where
    less : length (drop_one w k) + 1 ≡ length k
    less = length-drop_one w k in_k

-- What a completion does.
pub record Completes (c : Cqe) (s : State) (w : Ptr) (r k j : List Ptr) : Type 0 where
  pub after : State
  pub runs : complete c s ≡ ok tt after
  pub fiber : Fiber
  pub there : s.fibers w ≡ some fiber
  pub fibers : after.fibers ≡ update s.fibers w (some (answered fiber c.res))
  pub ring : after.ring ≡ s.ring
  pub read : after.submitted ≡ s.submitted
  pub valid : IsValid after [] (r ++ w ∷ []) (drop_one w k) j

module _ (c : Cqe) {s : State} {r k j : List Ptr} (w : Ptr) (v : IsValid s [] r k j) where
  -- In a valid state, a completion that is the last of its operation and names a parked fiber
  -- makes it ready, behind the others, with the kernel's result as its answer; it is parked no
  -- more, the ring and what the kernel has read are as they were, and the state is valid.
  pub complete-Completes :
      c.user_data ≡ w → bit_and c.flags streams ≡ 0 → 1 ≤ times w k → Completes c s w r k j
  unfolding complete enqueued
  complete-Completes names single in_k =
      let (g, there, can) = v.known w (omega arith) in
      let s1 : State = record s { fibers = update s.fibers w (some (answered g c.res)) } in
      let s2 : State = record s1 { parked_count = (s.parked_count + 2 ^ 32 - 1) % 2 ^ 32 } in
      let at2 : s2.fibers w ≡ some (answered g c.res) = ground arith in
      let v2 : IsValid s2 (w ∷ []) r (drop_one w k) j =
        unpark w (write-IsValid v w g (answered g c.res) there (answered-IsMinor g c.res)) in_k in
      let (queued, v3) = enqueue-IsValid v2 (answered g c.res) at2 can in
      let own : g.request.fiber ≡ w = v.asker w g there (omega arith) in
      record {
        after = enqueued w s2;
        runs =
            rw (single, names, answer-ok s w g c.res there, load-ok s1 w (answered g c.res) at2)
              (ap (λ q. enqueue q s2) own ∙ queued);
        fiber = g;
        there = there;
        fibers = refl;
        ring = refl;
        read = refl;
        valid = v3;
      }

-- A trap on a completion that announces more, or a notification.
pub complete-trap : (c : Cqe) (s : State) → bit_and c.flags streams ≢ 0 → complete c s ≡ trap
unfolding complete
complete-trap c s more = ground arith
