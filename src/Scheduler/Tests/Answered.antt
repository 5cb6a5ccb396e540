-- ===== src/Scheduler/Tests/Answered.antt =====
-- The root is parked and the child ready; the kernel answers the root's operation in the first round,
-- and the second one ends the process.
use mathlib.Core.Path.{subst}
use libuc.Prelude.{
  ◌+◌, ◌++◌, ◌≤◌, pos, none, some, List, [], ◌∷◌, ◌≡◌, refl, ◌∙◌, ap, sym, arith, slice,
}
use libuc.System.{syscall_failed}
use libuc.Ring.{Ring, Kernel, Cqe, Submitted, returned, submit, reap, after_enter, took}
use libuc.Ring.Queue.{IsQueue, queued}
use libuc.Ring.Submit.{IsCounted, IsQuietFrom}
use libuc.Machine.{Ptr, yields, State, Outcome, ok}
use libuc.Fiber.{new_fiber, resume}
use libuc.Scheduler.{enqueue, complete, reap_all}
use libuc.Scheduler.Reactor.{turn, turns, poll, submit_batch}
use libuc.Scheduler.Chain.{times}
use libuc.Scheduler.Account.{names, answers_to, AreLast, times-names}
use libuc.Scheduler.Dispatch.{WellBehaved}
use libuc.Scheduler.Poll.{waits_for, Answering}
use libuc.Scheduler.Tests.States.{empty_ring, empty_state, root, root_parked}
use libuc.Scheduler.Tests.Rounds.{goes_on_once, state_of, status_of}

abbrev pub answer_root : Cqe
answer_root = record { user_data = root; res = pos 77; flags = 0 }

abbrev pub posts : Kernel
posts n ring to_submit min_complete = record {
  result = pos to_submit;
  tail = 1;
  cqes = λ _. answer_root;
}

pub posts-IsCounted : IsCounted posts
posts-IsCounted n ring to_submit min_complete = ground arith

pub posts-IsQuietFrom : IsQuietFrom posts 0
posts-IsQuietFrom n ring to_submit min_complete h = refl

abbrev pub yielded : State
yielded = state_of (turn posts goes_on_once 1 root_parked)

abbrev pub polled_state : Outcome (Unit {0}) → State
polled_state (ok a t) = t
polled_state _ = empty_state

abbrev pub polled : State
polled = polled_state (poll posts goes_on_once 1 yielded)

pub first_turn : turn posts goes_on_once 1 root_parked ≡ ok none yielded
unfolding turn new_fiber resume enqueue
first_turn = refl

pub second_turn : status_of (turn posts goes_on_once 1 yielded) ≡ some (pos 3)
unfolding turn new_fiber resume enqueue
second_turn = refl

pub first_turns : turns posts goes_on_once 1 1 root_parked ≡ ok none yielded
unfolding turns turn new_fiber resume enqueue
first_turns = refl

pub first_poll : poll posts goes_on_once 1 yielded ≡ ok tt polled
unfolding poll turn new_fiber resume enqueue reap_all complete submit reap after_enter took
    syscall_failed submit_batch
first_poll = refl

pub third_turn : status_of (turn posts goes_on_once 1 polled) ≡ some (pos 3)
unfolding poll turn new_fiber resume enqueue reap_all complete submit reap after_enter took
    syscall_failed submit_batch
third_turn = refl

pub third_turns : status_of (turns posts goes_on_once 1 polled.ready_count polled) ≡ some (pos 3)
unfolding turns poll turn new_fiber resume enqueue reap_all complete submit reap after_enter took
    syscall_failed submit_batch
third_turns = refl

pub polled_resumes : polled.resumes ≡ 1
unfolding poll turn new_fiber resume enqueue reap_all complete submit reap after_enter took
    syscall_failed submit_batch
polled_resumes = refl

pub yielded_resumes : yielded.resumes ≡ 1
unfolding turn new_fiber resume enqueue
yielded_resumes = refl

abbrev pub ring_of : Submitted → Ring
ring_of (returned result ring read n) = ring
ring_of _ = empty_ring

posted_ring :
    ring_of (submit posts 1 yielded.enters yielded.ring (waits_for yielded))
    ≡ record empty_ring { cq_tail = 1; cqes = λ _. answer_root }
unfolding turn new_fiber resume enqueue submit after_enter took syscall_failed
posted_ring = refl

pub posted_ring-IsQueue : IsQueue (record empty_ring { cq_tail = 1; cqes = λ _. answer_root })
posted_ring-IsQueue = record {
  head = ground arith;
  tail = ground arith;
  order = 2;
  order_small = ground arith;
  entries = refl;
  mask = refl;
  room = ground arith;
}

pub posted_ring-queued :
    queued (record empty_ring { cq_tail = 1; cqes = λ _. answer_root }) ≡ answer_root ∷ []
unfolding slice
posted_ring-queued = refl

yielded_room :
    (yielded.enters ≡ 0) × (yielded.ring.batch_count ≡ 0) × (names yielded.submitted ≡ root ∷ [])
unfolding turn new_fiber resume enqueue
yielded_room = (refl, refl, refl)

pub yielded-Answering :
    (u : State) (answered : List Ptr) → yielded ≡ u → [] ≡ answered → Answering posts 1 0 u answered
yielded-Answering u answered same none_so_far = subst (Answering posts 1 0 u) none_so_far (
    subst (λ x. Answering posts 1 0 x []) same
      (record {
        enough = omega (arith, yielded_room);
        posted = λ result ring read n e fine.
            let is : record empty_ring { cq_tail = 1; cqes = λ _. answer_root } ≡ ring =
              sym posted_ring ∙ ap ring_of e in
            subst
              (λ x.
                IsQueue x
                × AreLast (queued x)
                × ((a : Ptr)
                    → times a (answers_to (queued x)) + times a []
                      ≤ times a (names (yielded.submitted ++ read))))
              is
              (
                posted_ring-IsQueue,
                rw posted_ring-queued (refl, tt),
                λ a. rw posted_ring-queued (
                    omega
                      (arith, times-names a yielded.submitted read, ap (times a) yielded_room.2)),
              );
      }))

pub root_parked-WellBehaved : WellBehaved 0 1 goes_on_once root_parked
unfolding new_fiber syscall_failed
root_parked-WellBehaved p r k j f v at = record {
  ask = yields;
  asked = refl;
  code = ground arith;
  keeps = ground (arith, v.ready.chain);
  unmaps = λ address length. refl;
  allowed = tt;
}
