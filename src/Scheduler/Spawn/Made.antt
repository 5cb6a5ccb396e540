-- ===== src/Scheduler/Spawn/Made.antt =====
-- How a fiber is made, and what keeps it from being made.
use libuc.Prelude.{
  ◌≤◌, true, ℕ, ◌<◌, ◌≡◌, ◌≢◌, refl, arith, pos, inl, inr, none, update, false, leb, Bool-cases,
}
use libuc.System.{syscall_failed, to_address}
use libuc.ThreadLocal.{
  LocalBlock, Tcb, Store, Created, created, failed, failed_unmapping, block_create, place_x86_64,
}
use libuc.ThreadLocal.Block.{block_create-tcbs}
use libuc.Machine.{Ptr, null, Fiber, State, live, ok}
use libuc.Fiber.{Event, new_fiber, record_address, spawn_on, spawn, context_make}
use libuc.Scheduler.Spawn.Fresh.{MapsFresh, with_fiber, IsNew}

-- A record that has not run yet.
pub record Starting (entry argument : ℕ) (g : Fiber) : Type 0 where
  pub entered : g.entry ≡ entry
  pub argument_is : g.argument ≡ argument
  pub lives : g.life ≡ live
  pub unjoined : g.joiner ≡ null
  pub no_status : g.status ≡ pos 0
  pub no_answer : g.request.result ≡ pos 0

-- What keeps a fiber from being made: a stack in which the record leaves no room, or a mapping or a
-- block that cannot be had.
pub data CannotMake (event : Event) (s : State) (stack_length : ℕ) : Type 0 where
  too_short : stack_length ≤ 160 → CannotMake event s stack_length
  no_stack : syscall_failed (event.mmap_stack stack_length) ≡ true → CannotMake event s stack_length
  no_block :
      ((b : LocalBlock) (after : Store)
        → block_create s.layout place_x86_64 event.mmap_block
            (record { bytes = s.bytes; tcbs = s.tcbs })
          ≢ created b after)
      → CannotMake event s stack_length

-- What a fiber is made of: its record at the end of a stack that was mapped, and its block.
pub record IsMade (event : Event) (s : State) (stack_length : ℕ) (q : Ptr) (g : Fiber)
    : Type 0 where
  pub long_enough : 160 < stack_length
  pub mapped : syscall_failed (event.mmap_stack stack_length) ≡ false
  pub stack : g.stack ≡ to_address (event.mmap_stack stack_length)
  pub stack_length_is : g.stack_length ≡ stack_length
  pub record_at : q ≡ record_address (to_address (event.mmap_stack stack_length)) stack_length
  pub after : Store
  pub block :
      block_create s.layout place_x86_64 event.mmap_block
        (record { bytes = s.bytes; tcbs = s.tcbs })
      ≡ created g.block after

-- How `__libuc_fiber_spawn` ends.
pub data Spawned (event : Event) (s : State) (stack_length entry argument : ℕ) : Type 0 where
  nothing :
      CannotMake event s stack_length
      → spawn event stack_length entry argument s ≡ ok null s
      → Spawned event s stack_length entry argument
  made :
      (q : Ptr) (g : Fiber) (bytes : ℕ → ℕ) (tcbs : ℕ → Tcb)
      → spawn event stack_length entry argument s ≡ ok q (with_fiber s q g bytes tcbs)
      → IsNew s q g tcbs
      → Starting entry argument g
      → IsMade event s stack_length q g
      → Spawned event s stack_length entry argument

module _ (event : Event) (s : State) (stack_length entry argument : ℕ)
    (fresh : MapsFresh event s stack_length) where
  new_fiber-IsNew :
      (stack : ℕ) (b : LocalBlock) (after : Store)
      → (s.fibers (record_address stack stack_length) ≡ none)
        × (record_address stack stack_length ≢ null)
      → block_create s.layout place_x86_64 event.mmap_block
          (record { bytes = s.bytes; tcbs = s.tcbs })
        ≡ created b after
      → IsNew s
          (record_address stack stack_length)
          (new_fiber (record_address stack stack_length) stack stack_length entry argument b)
          (update after.tcbs b.thread_pointer (record {
            self = (after.tcbs b.thread_pointer).self;
            fiber = record_address stack stack_length;
          }))
  unfolding new_fiber context_make
  new_fiber-IsNew stack b after (free, real) made_block =
      let (set, apart) = fresh.block b after made_block in
      let one_tcb =
        block_create-tcbs s.layout event.mmap_block (record { bytes = s.bytes; tcbs = s.tcbs })
          made_block in
      record {
        fresh = free;
        real = real;
        can = ground arith;
        alone = refl;
        owns = ground arith;
        others = λ a f there. rw one_tcb (ground (arith, apart a f there));
      }

  module _ (large : leb stack_length 160 ≡ false)
      (mapped : syscall_failed (event.mmap_stack stack_length) ≡ false) where
    on_mapping :
        (c : Created)
        → block_create s.layout place_x86_64 event.mmap_block
            (record { bytes = s.bytes; tcbs = s.tcbs })
          ≡ c
        → Spawned event s stack_length entry argument
    unfolding spawn spawn_on new_fiber
    on_mapping failed e =
        nothing (no_block λ b after is. ground (arith, e, is))
          (rw (large, mapped, spawn, e, spawn_on) refl)
    on_mapping (failed_unmapping address len) e =
        nothing (no_block λ b after is. ground (arith, e, is))
          (rw (large, mapped, spawn, e, spawn_on) refl)
    on_mapping (created b after) e =
        let stack : ℕ = to_address (event.mmap_stack stack_length) in
        let q : Ptr = record_address stack stack_length in
        made q (new_fiber q stack stack_length entry argument b) after.bytes
          (update after.tcbs b.thread_pointer
            (record { self = (after.tcbs b.thread_pointer).self; fiber = q }))
          (rw (large, mapped, spawn, e, spawn_on) refl)
          (new_fiber-IsNew stack b after (fresh.stack mapped) e)
          (record {
            entered = refl;
            argument_is = refl;
            lives = refl;
            unjoined = refl;
            no_status = refl;
            no_answer = refl;
          })
          (record {
            long_enough = ground arith;
            mapped = mapped;
            stack = refl;
            stack_length_is = refl;
            record_at = refl;
            after = after;
            block = e;
          })

  pub spawn-Spawned : Spawned event s stack_length entry argument
  unfolding spawn
  spawn-Spawned = elim (Bool-cases (leb stack_length 160)) [
    | inl small ↦ nothing (too_short (ground arith)) (rw (small, spawn) refl)
    | inr large ↦ elim (Bool-cases (syscall_failed (event.mmap_stack stack_length))) [
      | inl fails ↦ nothing (no_stack fails) (rw (large, fails, spawn) refl)
      | inr mapped ↦ on_mapping large mapped _ refl
    ]
  ]
