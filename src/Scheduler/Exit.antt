-- ===== src/Scheduler/Exit.antt =====
-- EXIT: a fiber that has come back for the last time, and whoever joins it.
mod Release
pub use Release.*
use libuc.Prelude.{
  ℕ, ◌+◌, ◌-◌, ◌%◌, ◌≤◌, ◌^◌, ◌≡◌, ◌≢◌, refl, ap, sym, ◌∙◌, arith, ℤ, List, [], ◌∷◌, ◌++◌, some,
  none, update, ◌==◌, false, ℕ_discrete, if◌then◌else◌,
}
use mathlib.Core.Path.{subst}
use libuc.System.{syscall_failed}
use libuc.ThreadLocal.{block_destroy}
use libuc.Machine.{Ptr, null, Fiber, Life, live, detached, exited, State, ok, load, answer}
use libuc.Fiber.{Event, destroy}
use libuc.Scheduler.{enqueue, reclaim, handle_exit}
use libuc.Scheduler.Chain.{times, drop_one, times-drop_one, length-drop_one}
use libuc.Scheduler.Ready.{enqueued}
use libuc.Scheduler.Invariant.{SameLog, CanRun, IsValid}
use libuc.Scheduler.Move.{enqueue-IsValid}
use libuc.Scheduler.Write.{IsMinor, write-IsValid, release-IsValid}

-- How an EXIT ends: the states of the fiber, and of the one that joins it.
pub data Ended (event : Event) (s : State) (p : Ptr) (f : Fiber) (r k j : List Ptr) : Type 0 where
  unjoined :
      f.joiner ≡ null
      → f.life ≡ exited
      → handle_exit event p s ≡ ok tt s
      → IsValid s [] r k j
      → Ended event s p f r k j
  detached_gone :
      (t : State)
      → f.life ≡ detached
      → handle_exit event p s ≡ ok tt t
      → t.fibers ≡ update s.fibers p none
      → SameLog s t
      → IsValid t [] r k j
      → Ended event s p f r k j
  joined :
      (t : State) (g : Fiber)
      → (f.joiner ≢ null) × (f.joiner ≢ p)
      → f.life ≡ exited
      → handle_exit event p s ≡ ok tt t
      → s.fibers f.joiner ≡ some g
      → t.fibers ≡ update (update s.fibers f.joiner (some (answered g f.status))) p none
      → SameLog s t
      → IsValid t [] (r ++ f.joiner ∷ []) k (drop_one f.joiner j)
      → Ended event s p f r k j

-- The state in which the joiner is made ready: answered, and the finished record gone.
abbrev woken : State → Ptr → Fiber → (w : Ptr) → Fiber → State
woken s p f w g = record s {
  joining_count = (s.joining_count + 2 ^ 32 - 1) % 2 ^ 32;
  fibers = update (update s.fibers w (some (answered g f.status))) p none;
}

module _ (event : Event) (s : State) (p : Ptr) (f : Fiber) (at : s.fibers p ≡ some f)
    (unmaps : Unmaps event) where
  exit_runs :
      (w : Ptr) (g : Fiber)
      → f.joiner ≡ w
      → w ≢ null
      → w ≢ p
      → f.life ≡ exited
      → s.fibers w ≡ some g
      → handle_exit event p s ≡ enqueue g.request.fiber (woken s p f w g)
  unfolding handle_exit
  exit_runs w g joins live_w ne over there =
      let s1 : State = record s { joining_count = (s.joining_count + 2 ^ 32 - 1) % 2 ^ 32 } in
      let s2 : State = record s1 { fibers = update s.fibers w (some (answered g f.status)) } in
      let test : (w == null) ≡ false = ground arith in
      rw (
        load-ok s p f at,
        over,
        joins,
        test,
        answer-ok s1 w g f.status there,
        reclaim-ok event s2 p f unmaps (ground arith),
        load-ok (woken s p f w g) w (answered g f.status) (ground arith),
      )

  module _ {r k j : List Ptr} (v : IsValid s (p ∷ []) r k j) where
    wake :
        (w : Ptr) (g : Fiber)
        → f.joiner ≡ w
        → w ≢ null
        → f.life ≡ exited
        → s.fibers w ≡ some g
        → CanRun g
        → g.request.fiber ≡ w
        → w ≢ p
        → Ended event s p f r k j
    unfolding enqueued
    wake w g joins live_w over there can own ne =
        let at3 : (woken s p f w g).fibers w ≡ some (answered g f.status) = ground arith in
        let v3 : IsValid (woken s p f w g) (w ∷ []) r k (drop_one w j) =
          finish_joined
            (write-IsValid v w g (answered g f.status) there (answered-IsMinor g f.status)) f
            (ground arith) w joins live_w in
        let (queued, v4) = enqueue-IsValid v3 (answered g f.status) at3 can in
        joined (enqueued w (woken s p f w g)) g (rw joins (live_w, ne)) over
          (exit_runs w g joins live_w ne over there
            ∙ ap (λ q. enqueue q (woken s p f w g)) own
            ∙ queued)
          (rw joins there)
          (ap (λ q. update (update s.fibers q (some (answered g f.status))) p none) (sym joins))
          (refl, refl)
          (subst (λ q. IsValid (enqueued w (woken s p f w g)) [] (r ++ q ∷ []) k (drop_one q j))
            (sym joins) v4)

    -- An EXIT of the running fiber of a valid state, if it is live no more and munmap succeeds,
    -- neither traps nor faults. A detached fiber's record is released. If nobody joins the fiber
    -- its record stays and nothing else happens. Else the record is released, and the joiner goes
    -- behind the ready fibers, with the exit status as its answer. The ring is as it was and the
    -- state is valid.
    pub exit-Ended : f.life ≢ live → Ended event s p f r k j
    unfolding handle_exit
    exit-Ended over = by_life f.life refl
      where
        by_joiner : f.life ≡ exited → Dec (f.joiner ≡ null) → Ended event s p f r k j
        by_joiner e (yes alone) =
            unjoined alone e (ground (arith, load-ok s p f at)) (finish_unjoined v f at alone e)
        by_joiner e (no busy) =
            let (kept, alive, waiting) = v.joined p f at busy in
            let (g, there, can) = v.known f.joiner (omega arith) in
            wake f.joiner g refl busy e there can (v.asker f.joiner g there (omega arith))
              (ground (arith, v.once p))

        by_life : (l : Life) → f.life ≡ l → Ended event s p f r k j
        by_life live e = absurd (over e)
        by_life exited e = by_joiner e (ℕ_discrete f.joiner null)
        by_life detached e =
            let alone : f.joiner ≡ null = elim (ℕ_discrete f.joiner null) [
              | yes none_joins ↦ none_joins
              | no busy ↦ absurd ((v.joined p f at busy).0 e)
            ] in
            detached_gone (record s { fibers = update s.fibers p none }) e
              (rw (load-ok s p f at, e) (reclaim-ok event s p f unmaps at)) refl (refl, refl)
              (finish_detached v f at alone)
