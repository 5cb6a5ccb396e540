-- ===== src/Scheduler/Turn/Requests.antt =====
-- What the requests of a running fiber do is what the abstract scheduler may do.
use libuc.Prelude.{
  ℕ, ◌+◌, ◌<◌, ◌^◌, ◌≡◌, ◌≢◌, ◌∙◌, refl, ap, arith, pos, inl, inr, List, [], ◌∷◌, some, none,
  length, update, to_signed, ℕ_discrete,
}
use libuc.Ring.{Kernel}
use libuc.Machine.{
  Ptr, null, Ask, yields, joins, detaches, spawns, Fiber, State, Life, live, detached, exited,
}
use libuc.Fiber.{Event}
use libuc.Scheduler.{enqueue, handle_exit, handle_spawn, handle_join, handle_detach}
use libuc.Scheduler.Ready.{enqueued, Mapped}
use libuc.Scheduler.Invariant.{CanRun, IsValid}
use libuc.Scheduler.Move.{enqueue-IsValid}
use libuc.Scheduler.Exit
use libuc.Scheduler.Exit.{Unmaps, unjoined, detached_gone, joined, exit-Ended}
use libuc.Scheduler.Join.{Joins, waiting_on, join-Joins, join-trap}
use libuc.Scheduler.Detach.{detach-Detaches, detach-trap}
use libuc.Scheduler.Account.{IsAccounted, SameLog-IsAccounted}
use libuc.Scheduler.Spawn.{MapsFresh, no_fiber, new_child, handle_spawn-Spawns}
use libuc.Scheduler.Spec.{
  Thread, Does, Ends, given, goes_behind, gets_none, gets_child, releases, lets_go, stays, vanishes,
  wakes,
}
use libuc.Scheduler.View.{thread, view, seen, seen-update, seen-update_twice, thread-Starting}
use libuc.Scheduler.Turn.Contract.{Follows}

module _ (enter : Kernel) (fuel : ℕ) (event : Event) {s : State} {p : Ptr} {r k j : List Ptr}
    (v : IsValid s (p ∷ []) r k j) (f : Fiber) (at : s.fibers p ≡ some f) (unmaps : Unmaps event)
    {answered : List Ptr} (h : IsAccounted answered s k) where
  pub exit-Follows :
      (ask : Ask)
      → Ends ask
      → f.life ≢ live
      → Follows enter fuel answered s p (thread f) r k j ask (handle_exit event p s)
  exit-Follows ask ends over = elim (exit-Ended event s p f at unmaps v over) [
    | unjoined alone is runs w ↦
        rw runs (_, stays ask ends alone is, record { threads = refl; valid = w }, h)
    | detached_gone t is runs fibers same w ↦ rw runs (
      _,
      vanishes ask ends is,
      record { threads = seen-update s t p none fibers; valid = w },
      SameLog-IsAccounted same h,
    )
    | joined t g (busy, other) over runs there fibers same w ↦
        let (kept, alive, waiting) = v.joined p f at busy in
        rw runs (
          _,
          wakes ask (thread g) ends over busy other (omega arith) (ap view there),
          record {
            threads =
                seen-update_twice s t f.joiner p (some (Exit.answered g f.status)) none fibers;
            valid = w;
          },
          SameLog-IsAccounted same h,
        )
  ]

  module _ (can : CanRun f) (own : f.request.fiber ≡ p) where
    pub yield-Follows : Follows enter fuel answered s p (thread f) r k j yields (enqueue p s)
    unfolding enqueued
    yield-Follows =
        let (runs, w) = enqueue-IsValid v f at can in
        rw runs
          (_, goes_behind, record { threads = refl; valid = w }, SameLog-IsAccounted (refl, refl) h)

    pub join-Follows :
        (target : Ptr)
        → Mapped s target
        → Follows enter fuel answered s p
            (thread f)
            r
            k
            j
            (joins target)
            (handle_join event p target s)
    join-Follows target (g, there) = elim (ℕ_discrete target p) [
      | yes self ↦ rw (join-trap event s p f at target g there (inl self)) (inl self)
      | no ne ↦ elim (ℕ_discrete g.joiner null) [
        | no busy ↦
            rw (join-trap event s p f at target g there (inr (inl busy))) (inr (g, there, inl busy))
        | yes alone ↦ by_life ne alone g.life refl
      ]
    ]
      where
        done :
            (target ≢ p)
            → g.joiner ≡ null
            → g.life ≢ detached
            → Follows enter fuel answered s p
                (thread f)
                r
                k
                j
                (joins target)
                (handle_join event p target s)
        done ne alone kept =
            elim (join-Joins event s p f at target g there v can own unmaps ne alone kept) [
              | Joins.waits is runs w ↦ rw runs (
                _,
                Does.waits target (thread g) ne (ap view there) alone is,
                record {
                  threads =
                      seen-update s (waiting_on s target p g) target
                        (some (record g { joiner = p })) refl;
                  valid = w;
                },
                SameLog-IsAccounted (refl, refl) h,
              )
              | Joins.takes t is runs fibers same w ↦ rw runs (
                _,
                Does.takes target (thread g) ne (ap view there) alone is,
                record {
                  threads =
                      seen-update_twice s t p target (some (Exit.answered f g.status)) none fibers;
                  valid = w;
                },
                SameLog-IsAccounted same h,
              )
            ]

        by_life :
            (target ≢ p)
            → g.joiner ≡ null
            → (l : Life) → g.life ≡ l
            → Follows enter fuel answered s p
                (thread f)
                r
                k
                j
                (joins target)
                (handle_join event p target s)
        by_life ne alone detached e =
            rw (join-trap event s p f at target g there (inr (inr e))) (inr (g, there, inr e))
        by_life ne alone live e = done ne alone (ground arith)
        by_life ne alone exited e = done ne alone (ground arith)

    pub detach-Follows :
        (target : Ptr)
        → Mapped s target
        → Follows enter fuel answered s p
            (thread f)
            r
            k
            j
            (detaches target)
            (handle_detach event p target s)
    detach-Follows target (g, there) = elim (ℕ_discrete g.joiner null) [
      | no busy ↦ rw (detach-trap event s p f at target g there (inl busy)) (g, there, inl busy)
      | yes alone ↦ by_life alone g.life refl
    ]
      where
        by_life :
            g.joiner ≡ null
            → (l : Life) → g.life ≡ l
            → Follows enter fuel answered s p
                (thread f)
                r
                k
                j
                (detaches target)
                (handle_detach event p target s)
        by_life alone detached e =
            rw (detach-trap event s p f at target g there (inr e)) (g, there, inr e)
        by_life alone live e =
            let kept : g.life ≢ detached = ground arith in
            let d = detach-Detaches event s p f at target g there v can own unmaps alone kept in
            rw d.runs (
              _,
              lets_go target (thread g) (ap view there) alone e,
              record {
                threads =
                    seen-update s d.after target (some (record g { life = detached })) (d.marked e);
                valid = d.valid;
              },
              SameLog-IsAccounted d.same_log h,
            )
        by_life alone exited e =
            let kept : g.life ≢ detached = ground arith in
            let d = detach-Detaches event s p f at target g there v can own unmaps alone kept in
            rw d.runs (
              _,
              releases target (thread g) (ap view there) alone e,
              record {
                threads = seen-update s d.after target none (d.released e);
                valid = d.valid;
              },
              SameLog-IsAccounted d.same_log h,
            )

    pub spawn-Follows :
        (stack_length entry argument : ℕ)
        → MapsFresh event s stack_length
        → s.ready_count + s.parked_count + s.joining_count + 2 < 2 ^ 32
        → Follows enter fuel answered s p
            (thread f)
            r
            k
            j
            (spawns stack_length entry argument)
            (handle_spawn event p stack_length entry argument s)
    spawn-Follows stack_length entry argument fresh small =
        let room : length r + length k + length j + 2 < 2 ^ 32 =
          omega (arith, v.ready.count, v.parked, v.joining) in
        elim (handle_spawn-Spawns event v f stack_length entry argument at can fresh room) [
          | no_fiber t cannot runs fibers same w ↦ rw runs (
            _,
            gets_none stack_length entry argument,
            record {
              threads = seen-update s t p (some (Exit.answered f (pos 0))) fibers;
              valid = w;
            },
            SameLog-IsAccounted same h,
          )
          | new_child q g t runs (free, real) fibers new parts same w ↦ rw runs (
            _,
            gets_child stack_length entry argument q (ap view free) real,
            record {
              threads =
                  seen-update_twice s t q p (some g) (some (Exit.answered f (to_signed 63 q)))
                    fibers
                  ∙ ap
                      (λ (x : Thread).
                        update (update (seen s) q (some x)) p
                          (some (given (to_signed 63 q) (thread f))))
                      (thread-Starting new);
              valid = w;
            },
            SameLog-IsAccounted same h,
          )
        ]
