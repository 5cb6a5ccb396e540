-- ===== src/Scheduler.antt =====
-- src/scheduler/scheduler.c: the ready queue, what each request does, and the answer to a
-- completion. The loop that drives them is Reactor.
pub mod Begin
pub mod Reactor
pub mod Spec
pub mod View
pub mod Chain
pub mod Ready
pub mod Park
pub mod Dispatch
pub mod Poll
pub mod Fair
pub mod Deliver
pub mod Simulate
pub mod Rounds
pub mod Refine
pub mod Finish
pub mod Drain
pub mod Turn
pub mod Trap
pub mod Spawn
pub mod Await
pub mod Join
pub mod Detach
pub mod Exit
pub mod Write
pub mod Move
pub mod Invariant
pub mod Account
mod Tests
use Prim.Native.Nat.{bit_and}
use libuc.Prelude.{
  ℕ, zero, suc, ◌+◌, ◌-◌, ◌%◌, ◌^◌, ℤ, pos, Bool, true, false, not, ◌&&◌, ◌||◌, ◌==◌, ltb, List, [],
  ◌++◌, Option, none, some, if◌then◌else◌, update, to_signed,
}
use libuc.System.{syscall_failed}
use libuc.Ring.Create.{Setup, create, zero_ring}
use libuc.Ring.{Sqe, Cqe, Ring, Kernel, Submitted, returned, out_of_fuel, append_sqe, submit, reap}
use libuc.Ring.Queue.{pending}
use libuc.Machine.{
  Ptr, null, Ask, yields, returns, exits, awaits, spawns, joins, detaches, process_exits, Life,
  live, detached, exited, Fiber, State, Outcome, ok, trap, fault, Cmd, and_then, ◌>>=◌, ◌>>◌, traps,
  done, load, store, answer,
}
use libuc.Fiber.{Event, spawn, destroy, resume}

-- `__libuc_scheduler_enqueue`
unfoldable pub enqueue : Ptr → Cmd (Unit {0})
enqueue p s = elim (s.fibers p) [
  | none ↦ fault
  | some _ ↦
      if s.ready_tail == null
      then ok tt (record s {
        ready_count = (s.ready_count + 1) % 2 ^ 32;
        next = update s.next p null;
        ready_head = p;
        ready_tail = p;
      })
      else elim (s.fibers s.ready_tail) [
        | none ↦ fault
        | some _ ↦ ok tt (record s {
          ready_count = (s.ready_count + 1) % 2 ^ 32;
          next = update (update s.next p null) s.ready_tail p;
          ready_tail = p;
        })
      ]
]

-- The head of the ready queue, taken off it.
unfoldable pub dequeue : Cmd Ptr
dequeue s = elim (s.fibers s.ready_head) [
  | none ↦ fault
  | some _ ↦
      let p = s.ready_head in
      ok p (record s {
        ready_head = s.next p;
        ready_count = (s.ready_count + 2 ^ 32 - 1) % 2 ^ 32;
        ready_tail = if s.next p == null then null else s.ready_tail;
        next = update s.next p null;
      })
]

-- IORING_CQE_F_MORE | IORING_CQE_F_NOTIF | IORING_CQE_F_SKIP
abbrev pub streams : ℕ
streams = 42

-- A destroy that fails traps.
unfoldable pub reclaim : Event → Ptr → Cmd (Unit {0})
reclaim event p = do gone ← destroy event p; if gone then done else traps

-- `joining_count--`, and `joining_count++`.
unfoldable pub leave_join : Cmd (Unit {0})
leave_join s = ok tt (record s { joining_count = (s.joining_count + 2 ^ 32 - 1) % 2 ^ 32 })

unfoldable pub enter_join : Cmd (Unit {0})
enter_join s = ok tt (record s { joining_count = (s.joining_count + 1) % 2 ^ 32 })

-- EXIT
unfoldable pub handle_exit : Event → Ptr → Cmd (Unit {0})
unfolding load reclaim leave_join
handle_exit event p = do
  f ← load p
  elim f.life [
    | detached ↦ reclaim event p
    | _ ↦ if f.joiner == null then done else do
      leave_join
      answer f.joiner f.status
      reclaim event p
      j ← load f.joiner
      enqueue j.request.fiber
  ]

-- SPAWN: the spawner goes first.
unfoldable pub handle_spawn : Event → Ptr → (stack_length entry argument : ℕ) → Cmd (Unit {0})
handle_spawn event p stack_length entry argument = do
  spawned ← spawn event stack_length entry argument
  answer p (to_signed 63 spawned)
  enqueue p
  if spawned == null then done else enqueue spawned

-- JOIN
unfoldable pub handle_join : Event → Ptr → (target : Ptr) → Cmd (Unit {0})
unfolding load store reclaim enter_join
handle_join event p target = if target == p then traps else do
  g ← load target
  if not (g.joiner == null) then traps else elim g.life [
    | detached ↦ traps
    | exited ↦ do answer p g.status; reclaim event target; enqueue p
    | live ↦ do store target (record g { joiner = p }); enter_join
  ]

-- DETACH
unfoldable pub handle_detach : Event → Ptr → (target : Ptr) → Cmd (Unit {0})
unfolding load store reclaim
handle_detach event p target = do
  g ← load target
  if not (g.joiner == null) then traps else elim g.life [
    | detached ↦ traps
    | exited ↦ do reclaim event target; enqueue p
    | live ↦ do store target (record g { life = detached }); enqueue p
  ]

-- One completion: its fiber gets the result and is made ready.
unfoldable pub complete : Cqe → Cmd (Unit {0})
unfolding load answer
complete completion = if not (bit_and completion.flags streams == 0) then traps else do
  answer completion.user_data completion.res
  answered ← load completion.user_data
  (λ s. ok tt (record s { parked_count = (s.parked_count + 2 ^ 32 - 1) % 2 ^ 32 }))
  enqueue answered.request.fiber

-- `while (reap)`, at most `left` of them.
unfoldable pub reap_all : (left : ℕ) → Cmd (Unit {0})
reap_all zero s = Outcome.out_of_fuel
reap_all (suc left) s = elim (reap s.ring) [
  | none ↦ ok tt s
  | some (completion, ring) ↦
      and_then (complete completion (record s { ring = ring })) λ _ t. reap_all left t
]

-- `__libuc_scheduler_become`: false if the ring cannot be created. The fibers' memory is as it was.
unfoldable pub become : Setup → State → Bool × State
become kernel s =
    let cleared = record s {
      ready_head = null;
      ready_tail = null;
      ready_count = 0;
      parked_count = 0;
      joining_count = 0;
      ring = zero_ring kernel;
    } in
    elim (create kernel).1 [
      | none ↦ (false, cleared)
      | some ring ↦ (true, record cleared { ring = ring })
    ]
