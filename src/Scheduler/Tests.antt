-- ===== src/Scheduler/Tests.antt =====
-- Requests of the two fibers.
mod States
mod Loop
mod Rounds
mod Answered
mod Whole
mod Refined
use libuc.Prelude.{
  ℕ, zero, suc, ◌+◌, ◌*◌, ℤ, pos, none, some, Option, [], ◌∷◌, ◌≡◌, inl, ◌⊎◌, ◌≤◌, arith, refl,
  ℕ_discrete, length, update, slice,
}
use libuc.Bits.{align_down, ckd}
use libuc.System.{syscall_failed}
use libuc.Ring.{
  zero_sqe, Cqe, Ring, Kernel, append_sqe, keep_remainder, took, after_enter, submit, reap,
}
use libuc.ThreadLocal.{
  ImageLayout, LocalBlock, initialize, create_in, block_create, place_x86_64, block_destroy,
}
use libuc.Machine.{
  Ptr, null, Context, Ask, yields, returns, awaits, spawns, joins, process_exits, exited, Fiber,
  State, Outcome, ok, trap, load, store, answer,
}
use libuc.Fiber.{
  Event, zero_context, new_fiber, spawn, destroy, resume, context_make, record_address, spawn_on,
  current,
}
use libuc.Fiber.Resume.{resumed, resume-ok}
use libuc.Scheduler.Invariant.{CanRun, IsValid}
use libuc.Scheduler.Move.{begin_turn, enqueue-IsValid}
use libuc.Scheduler.Ready.{IsReady, enqueued, dequeued, enqueue-snoc, dequeue-cons}
use libuc.Scheduler.{enqueue, dequeue, handle_join, handle_detach, complete}
use libuc.Scheduler.Reactor.{run, turns, poll, submit_batch, park, turn}
use libuc.Scheduler.Exit.{Unmaps, Ended, exit-Ended}
use libuc.Scheduler.Join.{Joins, join-Joins, join-trap}
use libuc.Scheduler.Detach.{Detaches, detach-Detaches, detach-trap}
use libuc.Scheduler.Await.{Parks, park-Parks, park-trap}
use libuc.Ring.Submit.{IsCounted, IsQuietFrom}
use libuc.Scheduler.Drain.{Drained, reap_all-Drained}
use libuc.Scheduler.Spawn.{MapsFresh, Spawns, handle_spawn-Spawns}
use libuc.Scheduler.Turn.{IsSafe, turn-IsSafe}
use libuc.Scheduler.Write.{ring-IsValid}
use libuc.Ring.Queue.{IsQueue}
use libuc.Scheduler.Chain.{times}
use libuc.Scheduler.Dispatch.{Turned, start, next, WellBehaved, turns-IsSafe}
use libuc.Scheduler.Finish.{run_end}
use libuc.Scheduler.Park.{Completes, complete-Completes, complete-trap}
use libuc.Scheduler.Tests.States.{
  empty_ring, plain_layout, empty_state, running, asks, root_block, root, started, script, child,
  child_block, root_fiber, child_fiber, pair, root_runs, root_runs-IsValid, root_can, child_over,
  child_ends, child_ends-IsValid, root_parked, root_parked-IsValid, works, works-Unmaps, completion,
  obedient, obedient-IsCounted, obedient-IsQuietFrom,
}

exit-Ended_example : Ended works child_ends child child_over [] [] (root ∷ [])
exit-Ended_example =
    exit-Ended works child_ends child child_over refl works-Unmaps child_ends-IsValid (ground arith)

join-Joins_example : Joins works root_runs root root_fiber child child_fiber (child ∷ []) [] []
unfolding new_fiber
join-Joins_example =
    join-Joins works root_runs root root_fiber refl child child_fiber refl root_runs-IsValid
      root_can refl works-Unmaps (ground arith) refl (ground arith)

join-trap_example : handle_join works root root root_runs ≡ trap
join-trap_example = join-trap works root_runs root root_fiber refl root root_fiber refl (inl refl)

detach-Detaches_example : Detaches works root_runs root child child_fiber (child ∷ []) [] []
unfolding new_fiber
detach-Detaches_example =
    detach-Detaches works root_runs root root_fiber refl child child_fiber refl root_runs-IsValid
      root_can refl works-Unmaps refl (ground arith)

complete-Completes_example : Completes completion root_parked root (child ∷ []) (root ∷ []) []
complete-Completes_example =
    complete-Completes completion root root_parked-IsValid refl refl (ground arith)

complete-trap_example : complete (record completion { flags = 2 }) root_parked ≡ trap
complete-trap_example = complete-trap (record completion { flags = 2 }) root_parked (ground arith)

resume-ok_example :
    resume root works root_runs ≡ ok yields (resumed root running yields root_fiber root_runs)
unfolding new_fiber
resume-ok_example =
    resume-ok root_runs root root_fiber works yields refl (ground arith) refl (ground arith) refl

park-Parks_example : Parks obedient script 1 root_runs root zero_sqe (child ∷ []) [] []
unfolding new_fiber
park-Parks_example =
    park-Parks obedient script 1 0 obedient-IsCounted obedient-IsQuietFrom root_runs-IsValid
      (ground arith) (ground arith) root_fiber zero_sqe refl root_can refl (ground arith) refl

-- Fresh mappings for a spawn of the root.
abbrev maps : Event
maps = asks 5 2048 (spawns 1024 11 12)

maps-MapsFresh : MapsFresh maps root_runs 1024
unfolding new_fiber record_address align_down block_create create_in place_x86_64 ckd syscall_failed
maps-MapsFresh = record {
  stack = λ h. ground arith;
  block = λ b after h. (ground arith, λ a f there. ground arith);
}

handle_spawn-Spawns_example : Spawns maps root_runs root root_fiber 1024 11 12 (child ∷ []) [] []
handle_spawn-Spawns_example =
    handle_spawn-Spawns maps root_runs-IsValid root_fiber 1024 11 12 refl root_can maps-MapsFresh
      (ground arith)
