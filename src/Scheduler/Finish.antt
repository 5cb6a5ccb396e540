-- ===== src/Scheduler/Finish.antt =====
-- The end of the reactor: nothing is ready and nothing is parked.
use libuc.Prelude.{ℕ, suc, ◌≤◌, ◌≡◌, ◌≢◌, refl, arith, pos, ◌⊎◌, inl, inr, List, [], ◌∷◌, some}
use libuc.Ring.{Kernel}
use libuc.Machine.{Ptr, null, Fiber, Life, live, detached, exited, State, ok, trap}
use libuc.Fiber.{Event}
use libuc.Scheduler.Reactor.{run}
use libuc.Scheduler.Chain.{times}
use libuc.Scheduler.Invariant.{IsValid}

module _ (enter : Kernel) (events : ℕ → Event) (fuel : ℕ) where
  -- In a valid state with nothing ready, parked or running, the reactor returns 0 if no fiber
  -- joins another, and then every fiber whose record is left has finished; else it traps, and each
  -- fiber that joins waits for one that is live and joins another itself.
  pub run_end :
      (rounds : ℕ) (s : State) (j : List Ptr)
      → IsValid s [] [] [] j
      → ((j ≡ [])
          × (run enter events fuel (suc rounds) s ≡ ok (pos 0) s)
          × ((a : Ptr) (f : Fiber) → s.fibers a ≡ some f → f.life ≡ exited))
        ⊎ ((run enter events fuel (suc rounds) s ≡ trap)
            × ((a : Ptr)
                → 1 ≤ times a j
                → (t : Ptr) × (g : Fiber) × (s.fibers t ≡ some g)
                  × (g.joiner ≡ a)
                  × (g.life ≡ live)
                  × (times t j ≡ 1)))
  unfolding run
  run_end rounds s [] v =
      inl
        (refl, ground (arith, v.parked, v.ready.count, v.joining), λ a f at. over f.life refl a at)
    where
      over : {f : Fiber} (l : Life) → f.life ≡ l → (a : Ptr) → s.fibers a ≡ some f → f.life ≡ exited
      over exited e a at = e
      over {f} live e a at = absurd (omega (arith, v.somewhere a f at (ground arith)))
      over {f} detached e a at = absurd (omega (arith, v.somewhere a f at (ground arith)))
  run_end rounds s (x ∷ j) v = inr (
    ground (arith, v.parked, v.ready.count, v.joining, v.small),
    λ a h.
        let (t, g, there, joins) = v.waits_for a h in
        let real : g.joiner ≢ null = joined_real a t g there joins h in
        let (kept, alive, waiting) = v.joined t g there real in
        let lives : g.life ≡ live = alive refl in
        (t, g, there, joins, lives, omega (arith, v.somewhere t g there (ground arith))),
  )
    where
      joined_real :
          (a t : Ptr) (g : Fiber)
          → s.fibers t ≡ some g
          → g.joiner ≡ a
          → 1 ≤ times a (x ∷ j)
          → g.joiner ≢ null
      joined_real a t g there joins h e =
          let (y, mapped, can) = v.known a (omega arith) in ground (arith, v.no_null)
