-- ===== src/Scheduler/Move.antt =====
-- The moves between the places: to the front of the machine, back into the ready queue, and a
-- resume in between keep the invariant.
use libuc.Prelude.{
  ℕ, ◌+◌, ◌≤◌, ◌≡◌, ◌≢◌, refl, arith, List, [], ◌∷◌, ◌++◌, some, length-append, update, ℕ_discrete,
}
use libuc.Machine.{Ptr, null, Context, Ask, returns, exits, Fiber, detached, State, ok}
use libuc.Fiber.{after_ask, suspended}
use libuc.Fiber.Resume.{resumed, resumed_fiber}
use libuc.Scheduler.{enqueue, dequeue}
use libuc.Scheduler.Chain.{times, times-append}
use libuc.Scheduler.Ready.{Mapped, enqueued, dequeued, enqueue-snoc, dequeue-cons}
use libuc.Scheduler.Invariant.{CanRun, IsValid}

module _ {s : State} {p : Ptr} {r k j : List Ptr} (v : IsValid s [] (p ∷ r) k j) where
  front-Mapped : Mapped s p
  front-Mapped = let (f, at, can) = v.known p (ground arith) in (f, at)

  -- In a valid state with a fiber at the front of the queue, the head is taken off: it is that
  -- fiber, it runs, the others stay ready in order, and the state is valid.
  pub begin_turn : (dequeue s ≡ ok p (dequeued s)) × IsValid (dequeued s) (p ∷ []) r k j
  unfolding dequeued
  begin_turn =
      let (runs, ready) =
        dequeue-cons s p r v.ready front-Mapped (ground (arith, v.once p))
          (omega (arith, v.small)) in
      (
        runs,
        record {
          ready = ready;
          parked = v.parked;
          joining = v.joining;
          small = omega (arith, v.small);
          room = v.room;
          batch = v.batch;
          once = λ a. ground (arith, v.once a);
          known = λ a h. v.known a (ground arith);
          runs = λ a h. elim (ℕ_discrete a p) [
            | yes e ↦ rw e front-Mapped
            | no ne ↦ absurd (ground arith)
          ];
          asker = v.asker;
          somewhere = λ a f at h. ground (arith, v.somewhere a f at h);
          joined = λ a f at h.
              let (kept, alive, waiting) = v.joined a f at h in (kept, λ _. alive refl, waiting);
          one_target = v.one_target;
          waits_for = v.waits_for;
          no_null = v.no_null;
          owns = v.owns;
        },
      )

-- What a resume leaves of a record.
resumed_fiber-keeps :
    (p : Ptr) (saved : Context) (ask : Ask) (f : Fiber)
    → ((resumed_fiber p saved ask f).joiner ≡ f.joiner)
      × ((resumed_fiber p saved ask f).block ≡ f.block)
      × ((resumed_fiber p saved ask f).life ≡ detached → f.life ≡ detached)
unfolding resumed_fiber after_ask suspended
resumed_fiber-keeps p saved (returns status) f = (refl, refl, λ h. ground arith)
resumed_fiber-keeps p saved (exits status) f = (refl, refl, λ h. ground arith)
resumed_fiber-keeps p saved _ f = (refl, refl, λ h. h)

module _ {s : State} {p : Ptr} {u r k j : List Ptr} (v : IsValid s (p ∷ u) r k j) where
  running-once : (times p r ≡ 0) × (times p k ≡ 0) × (times p j ≡ 0)
  running-once = ground (arith, v.once p)

  running-Mapped : Mapped s p
  running-Mapped = v.runs p (ground arith)

  running-ne-null : p ≢ null
  running-ne-null = let (f, at) = running-Mapped in ground (arith, v.no_null)

  -- Behind a write to one record, each record has one before.
  rewritten :
      (f g : Fiber)
      → s.fibers p ≡ some f
      → g.joiner ≡ f.joiner
      → g.block ≡ f.block
      → (a : Ptr) (w : Fiber) → update s.fibers p (some g) a ≡ some w
      → (old : Fiber) × (s.fibers a ≡ some old) × (w.joiner ≡ old.joiner) × (w.block ≡ old.block)
  rewritten f g at same_joiner same_block a w there = elim (ℕ_discrete a p) [
    | yes e ↦ (f, ground arith, ground arith, ground arith)
    | no ne ↦ (w, ground arith, refl, refl)
  ]

  -- A write to the record of the running fiber that keeps who joins it and its block, and detaches
  -- nothing.
  pub rewrite-IsValid :
      (f g : Fiber) (n : ℕ)
      → s.fibers p ≡ some f
      → g.joiner ≡ f.joiner
      → g.block ≡ f.block
      → (g.life ≡ detached → f.life ≡ detached)
      → IsValid (record s { fibers = update s.fibers p (some g); resumes = n }) (p ∷ u) r k j
  rewrite-IsValid f g n at same_joiner same_block detaches =
      let (out_r, out_k, out_j) = running-once in
      record {
        ready = record { chain = v.ready.chain; tail = v.ready.tail; count = v.ready.count };
        parked = v.parked;
        joining = v.joining;
        small = v.small;
        room = v.room;
        batch = v.batch;
        once = v.once;
        known = λ a h. let (w, there, can) = v.known a h in (w, ground arith, can);
        runs = λ a h. elim (ℕ_discrete a p) [
          | yes e ↦ (g, ground arith)
          | no ne ↦ let (w, there) = v.runs a h in (w, ground arith)
        ];
        asker = λ a w there h. v.asker a w (ground arith) h;
        somewhere = λ a w there h. elim (ℕ_discrete a p) [
          | yes e ↦ ground (arith, v.once p)
          | no ne ↦ v.somewhere a w (ground arith) h
        ];
        joined = λ a w there h. elim (ℕ_discrete a p) [
          | yes e ↦
              let (kept, alive, waiting) = v.joined p f at (ground arith) in
              (ground (arith, detaches), λ out. absurd (ground arith), ground arith)
          | no ne ↦ v.joined a w (ground arith) h
        ];
        one_target = λ a b w x there here h e.
            let (old_a, at_a, joiner_a, block_a) =
              rewritten f g at same_joiner same_block a w there in
            let (old_b, at_b, joiner_b, block_b) =
              rewritten f g at same_joiner same_block b x here in
            v.one_target a b old_a old_b at_a at_b (ground arith) (ground arith);
        waits_for = λ a h.
            let (t, w, there, e) = v.waits_for a h in
            elim (ℕ_discrete t p) [
              | yes same ↦ (p, g, ground arith, ground arith)
              | no ne ↦ (t, w, ground arith, e)
            ];
        no_null = ground (arith, v.no_null);
        owns = λ a w there.
            let (old, at_a, joiner_a, block_a) =
              rewritten f g at same_joiner same_block a w there in
            let (set, names) = v.owns a old at_a in (ground arith, ground arith);
      }

  -- So does a resume, whatever the fiber asks.
  pub resumed-IsValid :
      (f : Fiber) (saved : Context) (ask : Ask)
      → s.fibers p ≡ some f
      → IsValid (resumed p saved ask f s) (p ∷ u) r k j
  unfolding resumed
  resumed-IsValid f saved ask at =
      let (joiner, block, life) = resumed_fiber-keeps p saved ask f in
      rewrite-IsValid f (resumed_fiber p saved ask f) (s.resumes + 1) at joiner block life

  -- In a valid state, an enqueue of a running fiber that can run puts it behind the ready ones,
  -- and the state is valid.
  pub enqueue-IsValid :
      (f : Fiber)
      → s.fibers p ≡ some f
      → CanRun f
      → (enqueue p s ≡ ok tt (enqueued p s)) × IsValid (enqueued p s) u (r ++ p ∷ []) k j
  unfolding enqueued
  enqueue-IsValid f at can =
      let (out_r, out_k, out_j) = running-once in
      let known_ready : (a : Ptr) → 1 ≤ times a r → Mapped s a =
        λ a h. let (g, there, able) = v.known a (omega arith) in (g, there) in
      let (runs, ready) =
        enqueue-snoc s p running-Mapped r v.ready known_ready (λ a. ground (arith, v.once a)) out_r
          running-ne-null (omega (arith, v.small)) in
      (
        runs,
        record {
          ready = ready;
          parked = v.parked;
          joining = v.joining;
          small = omega (arith, v.small, length-append r (p ∷ []));
          room = v.room;
          batch = v.batch;
          once = λ a. ground (arith, v.once a, times-append a r (p ∷ []));
          known = λ a h. elim (ℕ_discrete a p) [
            | yes e ↦ (f, rw e at, can)
            | no ne ↦ v.known a (ground (arith, times-append a r (p ∷ [])))
          ];
          runs = λ a h. v.runs a (omega arith);
          asker = v.asker;
          somewhere =
              λ a g there h. ground (arith, v.somewhere a g there h, times-append a r (p ∷ []));
          joined = λ a g there h.
              let (kept, alive, waiting) = v.joined a g there h in
              (
                kept,
                λ out. elim (ℕ_discrete a p) [
                  | yes e ↦ ground arith
                  | no ne ↦ alive (ground arith)
                ],
                waiting,
              );
          one_target = v.one_target;
          waits_for = v.waits_for;
          no_null = v.no_null;
          owns = v.owns;
        },
      )
