-- ===== src/Scheduler/Tests/Loop.antt =====
-- Runs of the reactor on small programs.
use libuc.Bits.{ckd, align_down}
use libuc.Scheduler.{become, enqueue, dequeue, handle_join, handle_detach, complete}
use libuc.Prelude.{
  ◌↔◌, List, ℕ, ◌+◌, ℤ, pos, none, some, Option, [], ◌∷◌, ◌≡◌, ◌⊎◌, ◌≤◌, arith, refl, slice,
}
use libuc.Scheduler.Tests.States.{
  empty_ring, empty_state, asks, root, started, script, child, root_fiber, child_fiber, pair,
  root_parked, root_parked-IsValid, root_parked-IsAccounted, completion, obedient,
  obedient-IsCounted, obedient-IsQuietFrom,
}
use libuc.System.{syscall_failed}
use libuc.Ring.{Kernel, append_sqe, keep_remainder, took, after_enter, submit, reap}
use libuc.ThreadLocal.{initialize, create_in, block_create, place_x86_64, block_destroy}
use libuc.Scheduler.Spec.{Abstract}
use libuc.Scheduler.View.{seen}
use libuc.Scheduler.Turn.Contract.{Breaks, Stepped}
use libuc.Scheduler.Trap.{turn-trap_iff}
use libuc.Machine.{
  Context, live, Ptr, joins, process_exits, exited, Fiber, State, Outcome, ok, trap, load, store,
  answer,
}
use libuc.Fiber.{
  after_ask, suspended, Event, zero_context, new_fiber, spawn, destroy, resume, context_make,
  record_address, spawn_on, current,
}
use libuc.Fiber.Resume.{resumed, resumed_fiber}
use libuc.Scheduler.Invariant.{IsValid}
use libuc.Scheduler.Ready.{dequeued}
use libuc.Scheduler.Reactor.{run, turns, poll, submit_batch, park, turn}
use libuc.Scheduler.Drain.{Drained, reap_all-Drained}
use libuc.Scheduler.Turn.{IsSafe, turn-Stepped}
use libuc.Scheduler.Write.{ring-IsValid}
use libuc.Ring.Queue.{IsQueue}
use libuc.Scheduler.Chain.{times}
use libuc.Scheduler.Dispatch.{Turned, start, next, WellBehaved, turns-IsSafe}
use libuc.Scheduler.Finish.{run_end}

abbrev code_of : Outcome ℤ → Option ℤ
code_of (ok code s) = some code
code_of _ = none

abbrev kernel : Kernel
kernel n ring to_submit min_complete = record {
  result = pos to_submit;
  tail = ring.cq_tail + 1;
  cqes = λ _. record { user_data = root; res = pos 77; flags = 0 };
}

-- The run ends with the root's status.
run_status : code_of (run kernel script 10 8 started) ≡ some (pos 9)
unfolding run libuc.Scheduler.Reactor.turn resume new_fiber context_make spawn syscall_failed
    spawn_on block_create place_x86_64 ckd align_down create_in answer record_address enqueue
    destroy block_destroy libuc.Fiber.after_ask libuc.Fiber.asker current libuc.Fiber.resume_enter
    libuc.Fiber.resume_leave libuc.Fiber.suspend libuc.Fiber.suspended load store
    libuc.Memory.memcpy libuc.Memory.memmove libuc.Memory.memset slice after_enter append_sqe
    keep_remainder reap submit took libuc.Scheduler.complete libuc.Scheduler.dequeue
    libuc.Scheduler.enter_join libuc.Scheduler.Reactor.fill_slot libuc.Scheduler.Reactor.handle
    libuc.Scheduler.handle_detach libuc.Scheduler.handle_exit libuc.Scheduler.handle_join
    libuc.Scheduler.handle_spawn libuc.Scheduler.leave_join libuc.Scheduler.Reactor.park poll
    libuc.Scheduler.reap_all libuc.Scheduler.reclaim libuc.Scheduler.Reactor.submit_and_fill
    submit_batch turns initialize
run_status = refl

-- With nothing ready, parked or joining it ends with 0.
run_nothing : code_of (run kernel script 10 1 empty_state) ≡ some (pos 0)
unfolding run
run_nothing = refl

-- The kernel has answered the parked root.
abbrev answered_state : State
answered_state = record root_parked {
  ring = record empty_ring { cq_tail = 1; cqes = λ _. completion };
}

answered_state-IsValid : IsValid answered_state [] (child ∷ []) (root ∷ []) []
answered_state-IsValid =
    ring-IsValid answered_state.ring 0 root_parked.submitted root_parked-IsValid
      (record { room = ground arith; small = ground arith }) refl

answered_state-IsQueue : IsQueue answered_state.ring
answered_state-IsQueue = record {
  head = ground arith;
  tail = ground arith;
  order = 2;
  order_small = ground arith;
  entries = refl;
  mask = refl;
  room = ground arith;
}

reap_all-Drained_example : Drained 2 answered_state (completion ∷ []) (child ∷ []) (root ∷ []) []
unfolding slice
reap_all-Drained_example =
    reap_all-Drained 2 answered_state (completion ∷ []) (child ∷ []) (root ∷ []) [] refl
      answered_state-IsQueue answered_state-IsValid (refl, ground arith, tt) (ground arith)

-- The child's turn: it joins the root, which is parked.
abbrev pub root_waits : Abstract
root_waits = record {
  threads = seen root_parked;
  ready = child ∷ [];
  parked = root ∷ [];
  joining = [];
}

abbrev child_saved : Context
child_saved = (asks 5 10240 (joins root)).saved

abbrev child_joins : ℕ → Event
child_joins _ = asks 5 10240 (joins root)

turn-Stepped_example :
    Stepped obedient 1 []
      (resumed child child_saved (joins root) child_fiber (dequeued root_parked))
      root_waits
      child
      (joins root)
      (turn obedient child_joins 1 root_parked)
unfolding new_fiber syscall_failed dequeued resumed
turn-Stepped_example =
    turn-Stepped obedient child_joins 1 0 obedient-IsCounted obedient-IsQuietFrom root_waits
      child_fiber (joins root) (record { threads = refl; valid = root_parked-IsValid })
      root_parked-IsAccounted refl refl refl (ground arith) refl (λ address length. refl)
      (root_fiber, ground arith)

-- The child joins itself.
abbrev joins_self : ℕ → Event
joins_self _ = asks 5 10240 (joins child)

turn-trap_iff_example :
    (turn obedient joins_self 1 root_parked ≡ trap)
    ↔ Breaks obedient 1
        (resumed child child_saved (joins child) child_fiber (dequeued root_parked))
        child
        (joins child)
unfolding new_fiber syscall_failed dequeued resumed resumed_fiber after_ask suspended
turn-trap_iff_example =
    turn-trap_iff obedient joins_self 1 0 obedient-IsCounted obedient-IsQuietFrom child_fiber
      (joins child) root_parked-IsAccounted root_parked-IsValid refl refl (ground arith) refl
      (λ address length. refl) (resumed_fiber child child_saved (joins child) child_fiber, refl)

-- The child ends the process in its turn.
abbrev child_quits : ℕ → Event
child_quits _ = asks 5 10240 (process_exits (pos 3))

abbrev quit_status : Outcome (Option ℤ) → Option ℤ
quit_status (ok status s) = status
quit_status _ = none

quits : quit_status (turn obedient child_quits 1 root_parked) ≡ some (pos 3)
unfolding turn new_fiber resume
quits = refl

child_quits-WellBehaved : WellBehaved 0 1 child_quits root_parked
unfolding new_fiber syscall_failed
child_quits-WellBehaved p r k j f v at = record {
  ask = process_exits (pos 3);
  asked = refl;
  code = ground arith;
  keeps = tt;
  unmaps = λ address length. refl;
  allowed = tt;
}

only_here :
    (t : State) → Turned obedient child_quits 1 root_parked t → WellBehaved 0 1 child_quits t
only_here t (start s) = child_quits-WellBehaved
only_here t (next s u w e rest) = absurd (ground (arith, e, quits))

turns-IsSafe_example : IsSafe [] [] (turns obedient child_quits 1 1 root_parked)
turns-IsSafe_example =
    turns-IsSafe obedient child_quits 1 0 obedient-IsCounted obedient-IsQuietFrom [] 1 root_parked
      (child ∷ []) [] (root ∷ []) [] root_parked-IsValid root_parked-IsAccounted refl only_here

-- Nothing is left but a record that nobody has joined.
abbrev over_state : State
over_state = pair (record root_fiber { life = exited }) (record child_fiber { life = exited })

over_state-IsValid : IsValid over_state [] [] [] []
unfolding new_fiber
over_state-IsValid = record {
  ready = ground arith;
  parked = refl;
  joining = refl;
  small = ground arith;
  room = ground arith;
  batch = ground arith;
  once = λ a. ground arith;
  known = λ a h. absurd (ground arith);
  runs = λ a h. absurd (ground arith);
  asker = λ a x there h. ground arith;
  somewhere = λ a x there h. ground arith;
  joined = λ a x there h. ground arith;
  one_target = λ a b x y there here h e. ground arith;
  waits_for = λ a h. absurd (ground arith);
  no_null = refl;
  owns = λ a x there. ground arith;
}

abbrev nobody : List Ptr
nobody = []

run_end_example :
    ((nobody ≡ [])
      × (run obedient script 1 1 over_state ≡ ok (pos 0) over_state)
      × ((a : Ptr) (f : Fiber) → over_state.fibers a ≡ some f → f.life ≡ exited))
    ⊎ ((run obedient script 1 1 over_state ≡ trap)
        × ((a : Ptr)
            → 1 ≤ times a nobody
            → (t : Ptr) × (g : Fiber) × (over_state.fibers t ≡ some g)
              × (g.joiner ≡ a)
              × (g.life ≡ live)
              × (times t nobody ≡ 1)))
run_end_example = run_end obedient script 1 0 over_state nobody over_state-IsValid
