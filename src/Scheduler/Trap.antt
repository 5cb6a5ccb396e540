-- ===== src/Scheduler/Trap.antt =====
-- The reactor traps exactly on a request that breaks its contract.
use libuc.Prelude.{ℕ, ◌≡◌, ◌≢◌, refl, arith, inl, inr, List, [], ◌∷◌, some, ◌∙◌, ◌↔◌, ℕ_discrete}
use libuc.Ring.{Kernel}
use libuc.Machine.{
  Ptr, Ask, yields, returns, exits, awaits, spawns, joins, detaches, process_exits, Fiber, State,
  trap,
}
use libuc.Fiber.{Event}
use libuc.Scheduler.Reactor.{handle, park, turn}
use libuc.Scheduler.Join.{join-trap}
use libuc.Scheduler.Detach.{detach-trap}
use libuc.Scheduler.Await.{park-trap, park_refused}
use libuc.Ring.Submit.{IsCounted, IsQuietFrom}
use libuc.Fiber.Resume.{KeepsBlock, resumed_fiber, resumed}
use libuc.Scheduler.Ready.{dequeued}
use libuc.Scheduler.Exit.{Unmaps}
use libuc.Scheduler.Invariant.{IsValid}
use libuc.Scheduler.Account.{IsAccounted}
use libuc.Scheduler.Spec.{Abstract}
use libuc.Scheduler.View.{seen}
use libuc.Scheduler.Turn.{Allowed, turn-handle, turn-Stepped}
use libuc.Scheduler.Turn.Contract.{Breaks, Refused, Stepped}
use mathlib.Core.Path.{subst}

module _ (enter : Kernel) (events : ℕ → Event) (fuel : ℕ) (event : Event) (s : State)
    (p : Ptr) where
  Refused-trap : (sqe : _) → Refused enter fuel s → park enter events fuel p sqe s ≡ trap
  Refused-trap sqe h = elim (ℕ_discrete sqe.flags 0) [
    | no flagged ↦ park-trap enter events fuel p sqe s (inl flagged)
    | yes plain ↦ elim (ℕ_discrete s.parked_count s.ring.cq_entries) [
      | yes full ↦ park-trap enter events fuel p sqe s (inr full)
      | no space ↦
          park_refused enter events fuel s p sqe plain space h.full h.result h.ring h.read h.entered
            h.submits h.fails
    ]
  ]

  pub Breaks-trap :
      (quiet : ℕ) (f : Fiber) (ask : Ask)
      → s.fibers p ≡ some f
      → Allowed quiet fuel event s ask
      → Breaks enter fuel s p ask
      → handle enter events fuel event p ask s ≡ trap
  unfolding handle
  Breaks-trap quiet f (joins target) at (g, there) (inl self) =
      rw (handle, join-trap event s p f at target g there (inl self)) refl
  Breaks-trap quiet f (joins target) at mapped (inr (g, there, broken)) =
      rw (handle, join-trap event s p f at target g there (inr broken)) refl
  Breaks-trap quiet f (detaches target) at mapped (g, there, broken) =
      rw (handle, detach-trap event s p f at target g there broken) refl
  Breaks-trap quiet f (awaits sqe) at allowed (inl flagged) =
      rw (handle, park-trap enter events fuel p sqe s (inl flagged)) refl
  Breaks-trap quiet f (awaits sqe) at allowed (inr (inl full)) =
      rw (handle, park-trap enter events fuel p sqe s (inr full)) refl
  Breaks-trap quiet f (awaits sqe) at allowed (inr (inr refused)) =
      rw (handle, Refused-trap sqe refused) refl
  Breaks-trap quiet f yields at allowed broken = absurd broken
  Breaks-trap quiet f (returns status) at allowed broken = absurd broken
  Breaks-trap quiet f (exits status) at allowed broken = absurd broken
  Breaks-trap quiet f (spawns n e a) at allowed broken = absurd broken
  Breaks-trap quiet f (process_exits status) at allowed broken = absurd broken

-- Under the conditions of its safety a turn traps exactly if the request breaks its contract: a fiber
-- that joins itself, a handle to join or detach that is joined or detached, an operation with flags or
-- beyond the completion queue, or a full batch that the kernel refuses.
pub turn-trap_iff :
    (enter : Kernel) (events : ℕ → Event) (fuel quiet : ℕ)
    → IsCounted enter
    → IsQuietFrom enter quiet
    → {answered : List Ptr} {s : State} {p : Ptr} {r k j : List Ptr} (f : Fiber) (ask : Ask)
    → IsAccounted answered s k
    → IsValid s [] (p ∷ r) k j
    → s.fibers p ≡ some f
    → (events s.resumes).request ≡ some ask
    → (events s.resumes).saved.rip ≢ 0
    → KeepsBlock f (events s.resumes) ask
    → Unmaps (events s.resumes)
    → Allowed quiet fuel
        (events s.resumes)
        (resumed p (events s.resumes).saved ask f (dequeued s))
        ask
    → (turn enter events fuel s ≡ trap)
      ↔ Breaks enter fuel (resumed p (events s.resumes).saved ask f (dequeued s)) p ask
unfolding resumed
turn-trap_iff enter events fuel quiet counted still {answered} {s} {p} {r} {k} {j} f ask h v at
      asked code keeps unmaps allowed =
    let s2 : State = resumed p (events s.resumes).saved ask f (dequeued s) in
    let a : Abstract = record { threads = seen s; ready = p ∷ r; parked = k; joining = j } in
    (
      λ traps. subst (Stepped enter fuel answered s2 a p ask) traps (
          turn-Stepped enter events fuel quiet counted still a f ask
            (record { threads = refl; valid = v }) h refl at asked code keeps unmaps allowed),
      λ broken.
          turn-handle enter events fuel f ask v at asked keeps
          ∙ Breaks-trap enter events fuel (events s.resumes) s2 p quiet
              (resumed_fiber p (events s.resumes).saved ask f) ask (ground arith) allowed broken,
    )
