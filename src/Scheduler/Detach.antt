-- ===== src/Scheduler/Detach.antt =====
-- DETACH.
use libuc.Prelude.{
  ◌≡◌, ◌≢◌, refl, arith, ◌⊎◌, List, [], ◌∷◌, ◌++◌, some, none, update, ◌==◌, true, ℕ_discrete,
}
use libuc.Machine.{Ptr, null, Fiber, Life, live, detached, exited, State, ok, trap}
use libuc.Fiber.{Event}
use libuc.Scheduler.{handle_detach}
use libuc.Scheduler.Ready.{enqueued}
use libuc.Scheduler.Invariant.{SameLog, CanRun, IsValid}
use libuc.Scheduler.Move.{enqueue-IsValid}
use libuc.Scheduler.Write.{IsMinor, write-IsValid}
use libuc.Scheduler.Exit.{Unmaps, reclaim-ok, load-ok}
use libuc.Scheduler.Join.{store-ok, release_finished}

-- What a DETACH leaves of the target: released if it has finished, else marked.
pub record Detaches (event : Event) (s : State) (p target : Ptr) (g : Fiber) (r k j : List Ptr)
    : Type 0 where
  pub after : State
  pub runs : handle_detach event p target s ≡ ok tt after
  pub valid : IsValid after [] (r ++ p ∷ []) k j
  pub same_log : SameLog s after
  pub released : g.life ≡ exited → after.fibers ≡ update s.fibers target none
  pub marked :
      g.life ≡ live → after.fibers ≡ update s.fibers target (some (record g { life = detached }))

module _ (event : Event) (s : State) (p : Ptr) (f : Fiber) (at : s.fibers p ≡ some f) (target : Ptr)
    (g : Fiber) (there : s.fibers target ≡ some g) where
  -- A DETACH of a mapped fiber that another joins, or that is detached, traps.
  pub detach-trap : (g.joiner ≢ null) ⊎ (g.life ≡ detached) → handle_detach event p target s ≡ trap
  unfolding handle_detach
  detach-trap h = ground (arith, load-ok s target g there)

  module _ {r k j : List Ptr} (v : IsValid s (p ∷ []) r k j) (can : CanRun f)
      (own : f.request.fiber ≡ p) (unmaps : Unmaps event) (alone : g.joiner ≡ null) where
    release_target : g.life ≡ exited → Detaches event s p target g r k j
    unfolding handle_detach enqueued
    release_target over =
        let ne : target ≢ p = ground arith in
        let s1 : State = record s { fibers = update s.fibers target none } in
        let v1 : IsValid s1 (p ∷ []) r k j =
          release_finished v f at can own target g there ne alone over in
        let at1 : s1.fibers p ≡ some f = ground arith in
        let (queued, v2) = enqueue-IsValid v1 f at1 can in
        let free : (g.joiner == null) ≡ true = ground arith in
        record {
          after = enqueued p s1;
          runs = rw (
            load-ok s target g there,
            free,
            over,
            reclaim-ok event s target g unmaps there,
            queued,
          );
          valid = v2;
          same_log = (refl, refl);
          released = λ _. refl;
          marked = λ e. absurd (ground arith);
        }

    mark_target : g.life ≡ live → Detaches event s p target g r k j
    unfolding handle_detach enqueued
    mark_target lives =
        let g' : Fiber = record g { life = detached } in
        let s1 : State = record s { fibers = update s.fibers target (some g') } in
        let minor : IsMinor g g' = ground arith in
        let v1 : IsValid s1 (p ∷ []) r k j = write-IsValid v target g g' there minor in
        let (f', at1, can') = runner in
        let (queued, v2) = enqueue-IsValid v1 f' at1 can' in
        let free : (g.joiner == null) ≡ true = ground arith in
        record {
          after = enqueued p s1;
          runs = rw (load-ok s target g there, free, lives, store-ok s target g g' there, queued);
          valid = v2;
          same_log = (refl, refl);
          released = λ e. absurd (ground arith);
          marked = λ _. refl;
        }
      where
        -- It may detach itself.
        runner :
            (f' : Fiber) × (update s.fibers target (some (record g { life = detached })) p
              ≡ some f')
            × CanRun f'
        runner = elim (ℕ_discrete p target) [
          | yes e ↦ (record g { life = detached }, ground arith, ground arith)
          | no ne ↦ (f, ground arith, can)
        ]

    -- In a valid state, if the running fiber can run, its request names it and munmap succeeds, a
    -- DETACH of a mapped fiber that is not detached and that nobody joins releases its record if
    -- it has finished and marks it detached if it is live, the asker itself included; the asker
    -- goes behind the ready fibers, the ring is as it was, and the state is valid.
    pub detach-Detaches : g.life ≢ detached → Detaches event s p target g r k j
    detach-Detaches kept = by_life g.life refl
      where
        by_life : (l : Life) → g.life ≡ l → Detaches event s p target g r k j
        by_life detached e = absurd (kept e)
        by_life exited e = release_target e
        by_life live e = mark_target e
