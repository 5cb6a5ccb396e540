-- ===== src/Scheduler/Join.antt =====
-- JOIN.
mod Wait
pub use Wait.*
use libuc.Prelude.{
  ◌+◌, ◌%◌, ◌^◌, ◌≡◌, ◌≢◌, refl, sym, ◌∙◌, arith, ◌⊎◌, List, [], ◌∷◌, ◌++◌, some, none, update,
  ◌==◌, true, false, ℕ_discrete,
}
use libuc.Machine.{Ptr, null, Fiber, Life, live, detached, exited, State, ok, trap, store}
use libuc.Fiber.{Event}
use libuc.Scheduler.{handle_join}
use libuc.Scheduler.Chain.{times}
use libuc.Scheduler.Ready.{enqueued}
use libuc.Scheduler.Invariant.{SameLog, CanRun, IsValid}
use libuc.Scheduler.Move.{enqueue-IsValid}
use libuc.Scheduler.Write.{write-IsValid, release-IsValid}
use libuc.Scheduler.Exit.{Unmaps, reclaim-ok, answer-ok, load-ok, answered, answered-IsMinor}

-- What a JOIN does: wait for a live target, or take the status of a finished one and its record.
pub data Joins (event : Event) (s : State) (p : Ptr) (f : Fiber) (target : Ptr) (g : Fiber)
    (r k j : List Ptr) : Type 0 where
  waits :
      g.life ≡ live
      → handle_join event p target s ≡ ok tt (waiting_on s target p g)
      → IsValid (waiting_on s target p g) [] r k (p ∷ j)
      → Joins event s p f target g r k j
  takes :
      (t : State)
      → g.life ≡ exited
      → handle_join event p target s ≡ ok tt t
      → t.fibers ≡ update (update s.fibers p (some (answered f g.status))) target none
      → SameLog s t
      → IsValid t [] (r ++ p ∷ []) k j
      → Joins event s p f target g r k j

module _ (event : Event) (s : State) (p : Ptr) (f : Fiber) (at : s.fibers p ≡ some f) (target : Ptr)
    (g : Fiber) (there : s.fibers target ≡ some g) where
  -- A JOIN, by a mapped fiber, of itself, or of a mapped fiber that another joins or that is
  -- detached, traps.
  pub join-trap :
      (target ≡ p) ⊎ (g.joiner ≢ null) ⊎ (g.life ≡ detached) → handle_join event p target s ≡ trap
  unfolding handle_join
  join-trap h = ground (arith, load-ok s target g there)

  module _ {r k j : List Ptr} (v : IsValid s (p ∷ []) r k j) (can : CanRun f)
      (own : f.request.fiber ≡ p) (unmaps : Unmaps event) (ne : target ≢ p)
      (alone : g.joiner ≡ null) where
    take_status : g.life ≡ exited → Joins event s p f target g r k j
    unfolding handle_join enqueued
    take_status over =
        let f' : Fiber = answered f g.status in
        let s1 : State = record s { fibers = update s.fibers p (some f') } in
        let s2 : State = record s1 { fibers = update s1.fibers target none } in
        let at1 : s1.fibers target ≡ some g = ground arith in
        let at2 : s2.fibers p ≡ some f' = ground arith in
        let v1 : IsValid s1 (p ∷ []) r k j =
          write-IsValid v p f f' at (answered-IsMinor f g.status) in
        let v2 : IsValid s2 (p ∷ []) r k j =
          release_finished v1 f' (ground arith) can own target g at1 ne alone over in
        let (queued, v3) = enqueue-IsValid v2 f' at2 can in
        let self : (target == p) ≡ false = ground arith in
        let free : (g.joiner == null) ≡ true = ground arith in
        takes (enqueued p s2) over
          (rw (
            self,
            load-ok s target g there,
            free,
            over,
            answer-ok s p f g.status at,
            reclaim-ok event s1 target g unmaps at1,
            queued,
          ))
          refl (refl, refl) v3

    -- In a valid state, if the running fiber can run, its request names it and munmap succeeds, a
    -- JOIN of another fiber that is mapped, not detached and joined by nobody waits if the target
    -- is live: the target knows who joins it, and one more is counted. If the target has finished,
    -- its record is released, and the fiber goes behind the ready ones with its status as the
    -- answer. The ring is as it was and the state is valid.
    pub join-Joins : g.life ≢ detached → Joins event s p f target g r k j
    unfolding handle_join
    join-Joins kept = by_life g.life refl
      where
        by_life : (l : Life) → g.life ≡ l → Joins event s p f target g r k j
        by_life detached e = absurd (kept e)
        by_life exited e = take_status e
        by_life live e =
            let self : (target == p) ≡ false = ground arith in
            let free : (g.joiner == null) ≡ true = ground arith in
            waits e
              (rw
                (
                  self,
                  load-ok s target g there,
                  free,
                  e,
                  store-ok s target g (record g { joiner = p }) there,
                )
                (ground arith))
              (start_join v f at can own target g there ne alone e)
