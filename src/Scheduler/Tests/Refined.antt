-- ===== src/Scheduler/Tests/Refined.antt =====
-- The same run as a run of the abstract scheduler, and a poll whose completion gives its fiber a turn.
use mathlib.Core.Path.{subst}
use libuc.Prelude.{ℕ, ◌+◌, ◌++◌, ◌≤◌, pos, [], ◌∷◌, ◌≡◌, refl, ◌∙◌, ap, sym, arith, slice}
use libuc.System.{syscall_failed}
use libuc.Ring.{Ring, returned, submit, after_enter, took}
use libuc.Ring.Queue.{IsQueue, queued}
use libuc.Machine.{Ptr, State, process_exits}
use libuc.Fiber.{Event}
use libuc.Scheduler.Chain.{times}
use libuc.Scheduler.Account.{names, answers_to, AreLast, times-names}
use libuc.Scheduler.Dispatch.{WellBehaved}
use libuc.Scheduler.Poll.{reaped, waits_for, Answering}
use libuc.Scheduler.Rounds.{begin, again}
use libuc.Scheduler.Refine.{Refines, Rounded-Refines}
use libuc.Scheduler.Deliver.{Delivered, poll-Delivered}
use libuc.Scheduler.Tests.States.{
  asks, empty_ring, root, child, root_parked, root_parked-IsValid, root_parked-IsAccounted,
}
use libuc.Scheduler.Tests.Rounds.{goes_on_once}
use libuc.Scheduler.Tests.Loop.{root_waits}
use libuc.Scheduler.Tests.Answered.{
  answer_root, posts, posts-IsCounted, posts-IsQuietFrom, yielded, polled, first_turns, first_poll,
  ring_of, posted_ring-IsQueue, posted_ring-queued,
}
use libuc.Scheduler.Tests.Whole.{root_parked-behaves, root_parked-answers}

Rounded-Refines_example : Refines ([] ++ reaped posts 1 yielded) root_waits polled
Rounded-Refines_example =
    Rounded-Refines posts goes_on_once 1 0 posts-IsCounted posts-IsQuietFrom root_waits
      (again root_parked yielded polled polled [] ([] ++ reaped posts 1 yielded) first_turns
        first_poll (begin polled ([] ++ reaped posts 1 yielded)))
      (record { threads = refl; valid = root_parked-IsValid }) root_parked-IsAccounted
      (record {
        behaves = λ t u by_then there. root_parked-behaves root_parked t u [] by_then refl there;
        answers =
            λ t u by_then there. root_parked-answers root_parked t u [] by_then refl refl there;
      })

-- Every turn ends the process.
abbrev quits : ℕ → Event
quits _ = asks 5 2048 (process_exits (pos 3))

quits-WellBehaved : (t : State) → WellBehaved 0 1 quits t
unfolding syscall_failed
quits-WellBehaved t p r k j f v at = record {
  ask = process_exits (pos 3);
  asked = refl;
  code = ground arith;
  keeps = tt;
  unmaps = λ address length. refl;
  allowed = tt;
}

abbrev posted : Ring
posted = record empty_ring { cq_tail = 1; cqes = λ _. answer_root }

-- The submit of the root's poll: its entry was read before.
submits :
    submit posts 1 root_parked.enters root_parked.ring (waits_for root_parked)
    ≡ returned (pos 0) posted [] 1
unfolding submit after_enter took syscall_failed slice
submits = refl

root_parked-Answering : Answering posts 1 0 root_parked []
root_parked-Answering = record {
  enough = omega arith;
  posted = λ result ring read n e fine.
      let is : posted ≡ ring = ap ring_of (sym submits ∙ e) in
      subst
        (λ x.
          IsQueue x
          × AreLast (queued x)
          × ((a : Ptr)
              → times a (answers_to (queued x)) + times a []
                ≤ times a (names (root_parked.submitted ++ read))))
        is
        (
          posted_ring-IsQueue,
          rw posted_ring-queued (refl, tt),
          λ a. rw posted_ring-queued (omega (arith, times-names a root_parked.submitted read)),
        );
}

poll-Delivered_example : Delivered posts quits 1 root_parked (child ∷ []) [] answer_root []
unfolding syscall_failed
poll-Delivered_example =
    poll-Delivered posts quits 1 0 posts-IsCounted posts-IsQuietFrom [] answer_root [] root_parked
      (child ∷ []) (root ∷ []) [] root_parked-IsValid root_parked-IsAccounted root_parked-Answering
      refl (pos 0) posted [] 1 submits refl posted_ring-queued
      (λ t u polls there. quits-WellBehaved u)
