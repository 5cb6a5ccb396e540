-- ===== src/Scheduler/Reactor.antt =====
-- src/scheduler/scheduler.c: the parking of an operation, the switch on a request, and the reactor
-- loop.
use libuc.Prelude.{
  ℕ, zero, suc, ◌+◌, ◌%◌, ◌^◌, ℤ, pos, not, ◌||◌, ◌==◌, ◌++◌, Option, none, some, if◌then◌else◌,
  update,
}
use libuc.System.{syscall_failed}
use libuc.Ring.{Sqe, Ring, Kernel, returned, out_of_fuel, append_sqe, submit}
use libuc.Ring.Queue.{pending}
use libuc.Machine.{
  Ptr, Ask, yields, returns, exits, awaits, spawns, joins, detaches, process_exits, Outcome, ok,
  trap, Cmd, and_then, ◌>>=◌, ◌>>◌, traps,
}
use libuc.Fiber.{Event, resume}
use libuc.Scheduler.{
  enqueue, dequeue, handle_exit, handle_spawn, handle_join, handle_detach, reap_all,
}

-- Fuel bounds the io_uring_enter calls of one submit; the events and the kernel are the world.
module _ (enter : Kernel) (events : ℕ → Event) (fuel : ℕ) where
  -- A submit, and the entries that the kernel has read by it.
  unfoldable pub submit_batch : (min_complete : ℕ) → Cmd ℤ
  submit_batch min_complete s = elim (submit enter fuel s.enters s.ring min_complete) [
    | returned result ring read n ↦
        ok result (record s { ring = ring; enters = n; submitted = s.submitted ++ read })
    | out_of_fuel ↦ Outcome.out_of_fuel
  ]

  -- The slot of the batch takes the entry, with the request as its user data.
  unfoldable pub fill_slot : Ptr → Sqe → Option (ℕ × Ring) → Cmd (Unit {0})
  fill_slot p sqe none s = trap
  fill_slot p sqe (some (slot, ring)) s = ok tt (record s {
    ring = record ring { sqes = update ring.sqes slot (record sqe { user_data = p }) };
    parked_count = (s.parked_count + 1) % 2 ^ 32;
  })

  -- The batch is full: it is submitted first.
  unfoldable pub submit_and_fill : Ptr → Sqe → Cmd (Unit {0})
  unfolding submit_batch fill_slot
  submit_and_fill p sqe = do
    result ← submit_batch 0
    if syscall_failed result then traps else λ s. fill_slot p sqe (append_sqe s.ring) s

  -- `park`
  unfoldable pub park : Ptr → Sqe → Cmd (Unit {0})
  unfolding submit_and_fill fill_slot
  park p sqe s =
      if not (sqe.flags == 0) || (s.parked_count == s.ring.cq_entries)
      then trap
      else elim (append_sqe s.ring) [
        | none ↦ submit_and_fill p sqe s
        | some slot ↦ fill_slot p sqe (some slot) s
      ]

  -- The switch on the request's kind. A status stops the reactor.
  unfoldable pub handle : Event → Ptr → Ask → Cmd (Option ℤ)
  unfolding handle_exit handle_spawn handle_join handle_detach
  handle event p yields = do enqueue p; λ s. ok none s
  handle event p (returns status) = do handle_exit event p; λ s. ok none s
  handle event p (exits status) = do handle_exit event p; λ s. ok none s
  handle event p (awaits sqe) = do park p sqe; λ s. ok none s
  handle event p (spawns stack_length entry argument) = do
    handle_spawn event p stack_length entry argument
    λ s. ok none s
  handle event p (joins target) = do handle_join event p target; λ s. ok none s
  handle event p (detaches target) = do handle_detach event p target; λ s. ok none s
  handle event p (process_exits status) = λ s. ok (some status) s

  -- One turn of the dispatch loop.
  unfoldable pub turn : Cmd (Option ℤ)
  unfolding dequeue handle
  turn s =
      let event = events s.resumes in (do p ← dequeue; ask ← resume p event; handle event p ask) s

  -- `for (turns = ready_count; turns != 0; turns--)`
  unfoldable pub turns : (left : ℕ) → Cmd (Option ℤ)
  turns zero s = ok none s
  turns (suc left) s =
      and_then (turn s)
        λ status t. elim status [ none ↦ turns left t | some code ↦ ok (some code) t ]

  -- Behind the dispatch loop: wait for a completion only if nothing is ready.
  unfoldable pub poll : Cmd (Unit {0})
  unfolding submit_batch
  poll s =
      if s.parked_count == 0
      then ok tt s
      else (do
        result ← submit_batch (if s.ready_count == 0 then 1 else 0)
        if syscall_failed result then traps else λ t. reap_all (suc (pending t.ring)) t)
          s

  -- `__libuc_scheduler_run`, on at most `rounds` rounds of the outer loop.
  unfoldable pub run : (rounds : ℕ) → Cmd ℤ
  unfolding turns poll
  run zero s = Outcome.out_of_fuel
  run (suc rounds) s =
      if (s.parked_count + s.ready_count) % 2 ^ 32 == 0
      then (if s.joining_count == 0 then ok (pos 0) s else trap)
      else and_then (turns s.ready_count s) λ status t. elim status [
        | some code ↦ ok code t
        | none ↦ and_then (poll t) λ _ u. run rounds u
      ]
