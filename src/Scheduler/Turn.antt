-- ===== src/Scheduler/Turn.antt =====
-- One turn of the dispatch loop, whatever the fiber asks.
pub mod Contract
mod Safe
mod Requests
pub use Safe.*
use mathlib.Core.Path.{subst}
use mathlib.Core.List.{append_assoc, append-nil}
use libuc.Prelude.{
  ℕ, ◌+◌, ◌-◌, ◌<◌, ◌^◌, ◌≡◌, ◌≢◌, ◌∙◌, refl, sym, ap, arith, ℤ, inl, inr, List, [], ◌∷◌, ◌++◌,
  Option, some, none, update, ℕ_discrete,
}
use libuc.Ring.{Sqe, Kernel}
use libuc.Ring.Submit.{IsCounted, IsQuietFrom}
use libuc.Machine.{
  Ptr, Context, Ask, yields, returns, exits, awaits, spawns, joins, detaches, process_exits, Fiber,
  State, Outcome, ok, trap, fault, out_of_fuel,
}
use libuc.Fiber.{Event, after_ask, suspended}
use libuc.Fiber.Resume.{KeepsBlock, resumed_fiber, resumed, resume-ok}
use libuc.Scheduler.{enqueue, handle_exit, handle_spawn, handle_join, handle_detach}
use libuc.Scheduler.Reactor.{park, handle, turn}
use libuc.Scheduler.Ready.{dequeued}
use libuc.Scheduler.Invariant.{CanRun, IsValid}
use libuc.Scheduler.Move.{begin_turn, resumed-IsValid}
use libuc.Scheduler.Exit.{Unmaps}
use libuc.Scheduler.Account.{IsAccounted, SameLog-IsAccounted, parked-IsAccounted}
use libuc.Scheduler.Await.{tagged, refused, parked, park-Parks, park-trap}
use libuc.Scheduler.Spec.{Thread, Abstract, Does, Turns, asking, parks}
use libuc.Scheduler.View.{thread, view, seen, seen-update, thread-resumed_fiber, Shows}
use libuc.Scheduler.Turn.Contract.{Follows, Meets, goes_on, Stepped, Meets-Stepped, Stepped-IsSafe}
use libuc.Scheduler.Turn.Requests.{
  exit-Follows, yield-Follows, join-Follows, detach-Follows, spawn-Follows,
}

-- A turn is the switch on the request that its resume comes back with.
pub turn-handle :
    (enter : Kernel) (events : ℕ → Event) (fuel : ℕ) {s : State} {p : Ptr} {r k j : List Ptr}
    (f : Fiber) (ask : Ask)
    → IsValid s [] (p ∷ r) k j
    → s.fibers p ≡ some f
    → (events s.resumes).request ≡ some ask
    → KeepsBlock f (events s.resumes) ask
    → turn enter events fuel s
      ≡ handle enter events fuel
          (events s.resumes)
          p
          ask
          (resumed p (events s.resumes).saved ask f (dequeued s))
unfolding turn dequeued
turn-handle enter events fuel {s} {p} {r} f ask v at asked keeps =
    let event : Event = events s.resumes in
    let (taken, v1) = begin_turn v in
    let can : CanRun f = let (x, there, able) = v.known p (ground arith) in ground arith in
    rw (turn, taken, resume-ok (dequeued s) p f event ask at can.1 asked (v.owns p f at) keeps) refl

module _ (enter : Kernel) (events : ℕ → Event) (fuel quiet : ℕ) (counted : IsCounted enter)
    (still : IsQuietFrom enter quiet) {answered : List Ptr} where
  park-Follows :
      {s : State} {p : Ptr} {r k j : List Ptr}
      → IsAccounted answered s k
      → IsValid s (p ∷ []) r k j
      → (f : Fiber) (sqe : Sqe) → s.fibers p ≡ some f
      → CanRun f
      → f.request.fiber ≡ p
      → ((quiet - s.enters) + s.ring.batch_count < fuel) × (0 < s.ring.sq_entries)
      → Follows enter fuel answered s p
          (thread f)
          r
          k
          j
          (awaits sqe)
          (park enter events fuel p sqe s)
  park-Follows {s} {p} {r} {k} {j} h v f sqe at can own (enough, slots) =
      elim (ℕ_discrete sqe.flags 0) [
        | no flagged ↦ rw (park-trap enter events fuel p sqe s (inl flagged)) (inl flagged)
        | yes plain ↦ elim (ℕ_discrete s.parked_count s.ring.cq_entries) [
          | yes full ↦ rw (park-trap enter events fuel p sqe s (inr full)) (inr (inl full))
          | no space ↦
              elim (park-Parks enter events fuel quiet counted still v enough slots f sqe at can own
                space plain) [
                  | refused result ring read n full e fails runs ↦ rw runs (
                      inr (
                        inr (record {
                          full = full;
                          result = result;
                          ring = ring;
                          read = read;
                          entered = n;
                          submits = e;
                          fails = fails;
                        })))
                  | parked t runs fibers order w ↦ rw runs (
                    _,
                    parks sqe,
                    record { threads = ap (λ l a. view (l a)) fibers; valid = w },
                    parked-IsAccounted (tagged sqe p) order h,
                  )
                ]
        ]
      ]

  -- The switch on the request of a fiber that could run, behind its resume.
  handle-Meets :
      (event : Event) {s : State} {p : Ptr} {r k j : List Ptr} (f : Fiber) (saved : Context)
      (ask : Ask)
      → IsAccounted answered s k
      → IsValid s (p ∷ []) r k j
      → s.fibers p ≡ some (resumed_fiber p saved ask f)
      → CanRun f
      → saved.rip ≢ 0
      → Unmaps event
      → Allowed quiet fuel event s ask
      → Meets enter fuel answered s p
          (thread (resumed_fiber p saved ask f))
          r
          k
          j
          ask
          (handle enter events fuel event p ask s)
  unfolding handle resumed_fiber after_ask suspended
  handle-Meets event {s} {p} {r} {k} {j} f saved yields h v at can code unmaps allowed =
      goes_on enter fuel answered s p _ r k j _ (enqueue p s) (
        yield-Follows enter fuel event v (resumed_fiber p saved yields f) at unmaps h (can.0, code)
          refl)
  handle-Meets event {s} {p} {r} {k} {j} f saved (returns status) h v at can code unmaps allowed =
      goes_on enter fuel answered s p _ r k j _ (handle_exit event p s) (
        exit-Follows enter fuel event v (resumed_fiber p saved (returns status) f) at unmaps h
          (returns status) tt (ground arith))
  handle-Meets event {s} {p} {r} {k} {j} f saved (exits status) h v at can code unmaps allowed =
      goes_on enter fuel answered s p _ r k j _ (handle_exit event p s) (
        exit-Follows enter fuel event v (resumed_fiber p saved (exits status) f) at unmaps h
          (exits status) tt (ground arith))
  handle-Meets event {s} {p} {r} {k} {j} f saved (awaits sqe) h v at can code unmaps allowed =
      goes_on enter fuel answered s p _ r k j _ (park enter events fuel p sqe s)
        (park-Follows h v (resumed_fiber p saved (awaits sqe) f) sqe at (can.0, code) refl allowed)
  handle-Meets event {s} {p} {r} {k} {j} f saved (spawns stack_length entry argument) h v at can
        code unmaps (fresh, small) =
      goes_on enter fuel answered s p _ r k j _ (handle_spawn event p stack_length entry argument s)
        (spawn-Follows enter fuel event v
          (resumed_fiber p saved (spawns stack_length entry argument) f) at unmaps h (can.0, code)
          refl stack_length entry argument fresh small)
  handle-Meets event {s} {p} {r} {k} {j} f saved (joins target) h v at can code unmaps mapped =
      goes_on enter fuel answered s p _ r k j _ (handle_join event p target s) (
        join-Follows enter fuel event v (resumed_fiber p saved (joins target) f) at unmaps h
          (can.0, code) refl target mapped)
  handle-Meets event {s} {p} {r} {k} {j} f saved (detaches target) h v at can code unmaps mapped =
      goes_on enter fuel answered s p _ r k j _ (handle_detach event p target s) (
        detach-Follows enter fuel event v (resumed_fiber p saved (detaches target) f) at unmaps h
          (can.0, code) refl target mapped)
  handle-Meets event f saved (process_exits status) h v at can code unmaps allowed = refl

  -- A turn of the reactor is a turn of the abstract scheduler. From a valid state that stands for an
  -- abstract one with the fiber in front, it never faults or runs out of fuel, and it ends in one of three
  -- ways. It leads to a valid state that stands for one to which the abstract thread's request may lead,
  -- with the parked fibers those that have an entry in the log and no completion so far, as they were. Or
  -- the request is a process exit, with that status. Or it traps, and the request breaks its contract: a
  -- fiber that joins itself, a handle to join or detach that is joined or detached, an operation with
  -- flags or beyond the completion queue, or a batch that the kernel refuses. The conditions are those of
  -- a turn's safety.
  pub turn-Stepped :
      {s : State} {p : Ptr} {r : List Ptr} (a : Abstract) (f : Fiber) (ask : Ask)
      → Shows s a
      → IsAccounted answered s a.parked
      → a.ready ≡ p ∷ r
      → s.fibers p ≡ some f
      → (events s.resumes).request ≡ some ask
      → (events s.resumes).saved.rip ≢ 0
      → KeepsBlock f (events s.resumes) ask
      → Unmaps (events s.resumes)
      → Allowed quiet fuel
          (events s.resumes)
          (resumed p (events s.resumes).saved ask f (dequeued s))
          ask
      → Stepped enter fuel answered
          (resumed p (events s.resumes).saved ask f (dequeued s))
          a
          p
          ask
          (turn enter events fuel s)
  unfolding dequeued resumed
  turn-Stepped {s} {p} {r} a f ask shows h front at asked code keeps unmaps allowed =
      let event : Event = events s.resumes in
      let v : IsValid s [] (p ∷ r) a.parked a.joining =
        subst (λ l. IsValid s [] l a.parked a.joining) front shows.valid in
      let (taken, v1) = begin_turn v in
      let can : CanRun f = let (x, there, able) = v.known p (ground arith) in ground arith in
      let v2 = resumed-IsValid v1 f event.saved ask at in
      let s2 : State = resumed p event.saved ask f (dequeued s) in
      let resumes : thread (resumed_fiber p event.saved ask f) ≡ asking ask (thread f) =
        thread-resumed_fiber p event.saved ask f in
      let known : a.threads p ≡ some (thread f) =
        ap (λ threads. threads p) (sym shows.threads) ∙ ap view at in
      let is : seen s2 ≡ update a.threads p (some (asking ask (thread f))) =
        seen-update s s2 p (some (resumed_fiber p event.saved ask f)) refl
        ∙ ap (λ threads. update threads p (some (thread (resumed_fiber p event.saved ask f))))
            shows.threads
        ∙ ap (λ (t : Thread). update a.threads p (some t)) resumes in
      rw (turn-handle enter events fuel f ask v at asked keeps) (
        Meets-Stepped enter fuel answered s2 a p r (thread f) ask
          (handle enter events fuel event p ask s2) front known is
          (subst
            (λ (t : Thread).
              Meets enter fuel answered s2 p t r a.parked a.joining ask
                (handle enter events fuel event p ask s2))
            resumes
            (handle-Meets event f event.saved ask (SameLog-IsAccounted (refl, refl) h) v2
              (ground arith) can code unmaps allowed)))

  -- A turn from a valid state whose queue has a fiber at the front never faults and never runs out
  -- of fuel, whatever the fiber asks: it ends with the other ready fibers in front, in order, in a
  -- valid state, or with the status of a process exit, or in a trap. The parked fibers stay those
  -- that have an entry in the log, what the kernel has read and the batch, and no completion so
  -- far. The conditions: they are so before; the fiber comes back at an address that is not 0,
  -- with its own thread-local block installed unless it returns or ends the process; munmap
  -- succeeds; and the request is allowed: a handle to join or detach is mapped, a spawn finds
  -- fresh mappings and room in the counts, an await finds a queue with slots and fuel for the
  -- interrupts to come and the batch. The kernel's counts are as io_uring_enter documents.
  pub turn-IsSafe :
      {s : State} {p : Ptr} {r k j : List Ptr} (f : Fiber) (ask : Ask)
      → IsAccounted answered s k
      → IsValid s [] (p ∷ r) k j
      → s.fibers p ≡ some f
      → (events s.resumes).request ≡ some ask
      → (events s.resumes).saved.rip ≢ 0
      → KeepsBlock f (events s.resumes) ask
      → Unmaps (events s.resumes)
      → Allowed quiet fuel
          (events s.resumes)
          (resumed p (events s.resumes).saved ask f (dequeued s))
          ask
      → IsSafe answered r (turn enter events fuel s)
  turn-IsSafe {s} {p} {r} {k} {j} f ask h v at asked code keeps unmaps allowed =
      let a : Abstract = record { threads = seen s; ready = p ∷ r; parked = k; joining = j } in
      Stepped-IsSafe enter fuel answered (resumed p (events s.resumes).saved ask f (dequeued s)) a p
        r ask (turn enter events fuel s) refl
        (turn-Stepped a f ask (record { threads = refl; valid = v }) h refl at asked code keeps
          unmaps allowed)
