-- ===== src/Fiber.antt =====
-- src/fiber/fiber.c and the register file of src/arch/x86_64/fiber_arch.h: a fiber's record at the
-- top of its stack, its creation and release, and a resume up to the request that ends it.
pub mod Resume
use libuc.Prelude.{
  ℕ, ◌+◌, ◌-◌, ◌%◌, ◌^◌, ℤ, pos, Bool, true, false, not, ◌&&◌, ◌==◌, leb, Option, none, some,
  if◌then◌else◌, update,
}
use libuc.Bits.{align_down}
use libuc.System.{syscall_failed, to_address}
use libuc.ThreadLocal.{
  ImageLayout, LocalBlock, Tcb, Store, Created, created, failed, failed_unmapping, place_x86_64,
  block_create, block_destroy,
}
use libuc.Machine.{
  Ptr, null, Context, Ask, yields, returns, exits, awaits, spawns, joins, detaches, process_exits,
  Request, Life, live, detached, exited, Fiber, State, Outcome, ok, trap, fault, Cmd, ◌>>=◌, ◌>>◌,
  traps, done, load, store,
}

-- What the world does in one turn: the request with which the resumed fiber comes back (`none` is
-- the null pointer), the registers it stopped with, the thread register as its code has left it, and
-- what mmap and munmap return.
pub record Event : Type 0 where
  pub request : Option Ask
  pub saved : Context
  pub left_pointer : ℕ
  pub mmap_stack : ℕ → ℤ
  pub mmap_block : ℕ → ℤ
  pub munmap : ℕ → ℕ → ℤ

abbrev pub zero_context : Context
zero_context = record { rbx = 0; rbp = 0; r12 = 0; r13 = 0; r14 = 0; r15 = 0; rsp = 0; rip = 0 }

-- sizeof and alignof of `struct __libuc_fiber` on x86-64.
abbrev pub fiber_size : ℕ
fiber_size = 160

abbrev pub fiber_align : ℕ
fiber_align = 8

-- The addresses of the two functions that a new context names.
abbrev pub fiber_start : ℕ
fiber_start = 0x1000

abbrev pub run_fiber : ℕ
run_fiber = 0x2000

-- `fiber_context_make` of x86-64
unfoldable pub context_make : (stack_top function argument : ℕ) → Context
context_make stack_top function argument = record {
  rbx = 0;
  rbp = 0;
  r12 = function;
  r13 = argument;
  r14 = 0;
  r15 = 0;
  rsp = align_down stack_top 16;
  rip = fiber_start;
}

-- Where the record of a fiber with this stack stands.
unfoldable pub record_address : (stack stack_length : ℕ) → Ptr
record_address stack stack_length =
    align_down ((stack + stack_length) % 2 ^ 64 - fiber_size) fiber_align

-- The record, as spawn first writes it and as it leaves it.
unfoldable pub new_fiber : (p : Ptr) (stack stack_length entry argument : ℕ) → LocalBlock → Fiber
new_fiber p stack stack_length entry argument block = record {
  context = context_make p run_fiber p;
  entry = entry;
  argument = argument;
  stack = stack;
  stack_length = stack_length;
  block = block;
  return_to = 0;
  joiner = null;
  status = pos 0;
  life = live;
  request = record { ask = yields; result = pos 0; fiber = null };
}

-- The stack is mapped; a failing block gives the mapping, and the record in it, back.
unfoldable pub spawn_on : Event → (stack stack_length entry argument : ℕ) → Cmd Ptr
spawn_on event stack stack_length entry argument s =
    let p = record_address stack stack_length in
    elim (block_create s.layout place_x86_64 event.mmap_block
      (record { bytes = s.bytes; tcbs = s.tcbs })) [
        | created block st ↦ ok p (record s {
          fibers = update s.fibers p (some (new_fiber p stack stack_length entry argument block));
          next = update s.next p null;
          bytes = st.bytes;
          tcbs =
              update st.tcbs block.thread_pointer
                (record { self = (st.tcbs block.thread_pointer).self; fiber = p });
        })
        | failed ↦ ok null s
        | failed_unmapping _ _ ↦ ok null s
      ]

-- `__libuc_fiber_spawn`
unfoldable pub spawn : Event → (stack_length entry argument : ℕ) → Cmd Ptr
spawn event stack_length entry argument s =
    if leb stack_length fiber_size
    then ok null s
    else if syscall_failed (event.mmap_stack stack_length)
    then ok null s
    else spawn_on event (to_address (event.mmap_stack stack_length)) stack_length entry argument s

-- `__libuc_fiber_destroy`: the record goes with its stack.
unfoldable pub destroy : Event → Ptr → Cmd Bool
unfolding load
destroy event p = do
  f ← load p
  let block_destroyed = block_destroy event.munmap f.block
  let stack_released = not (syscall_failed (event.munmap f.stack f.stack_length))
  λ s.
      ok (block_destroyed && stack_released)
        (record s { fibers = update s.fibers p (if stack_released then none else some f) })

-- `__libuc_fiber_current`
unfoldable pub current : State → Ptr
current s = if s.thread_pointer == 0 then null else (s.tcbs s.thread_pointer).fiber

-- The fiber that the request's function finds: its own, by the pointer that its entry was given or
-- by the thread register.
unfoldable pub asker : Ptr → Ask → State → Ptr
unfolding current
asker p (returns status) s = p
asker p (process_exits status) s = p
asker p _ s = current s

-- What each function of fiber.c leaves in the record before its switch: the registers, and the
-- status of an exit.
unfoldable pub suspended : Context → Ask → Fiber → Fiber
suspended saved (returns status) f = record f { context = saved; status = status }
suspended saved (exits status) f = record f { context = saved; status = status }
suspended saved _ f = record f { context = saved }

-- The functions of fiber.c that ask: the switch saves the registers in the asker's record and puts
-- the request there.
unfoldable pub suspend : Ptr → Context → Ask → Cmd (Unit {0})
unfolding load store asker suspended
suspend p saved ask s =
    (do
      let q = asker p ask s
      f ← load q
      store q (record (suspended saved ask f) {
        request = record { ask = ask; result = pos 0; fiber = null };
      }))
      s

-- The frame of the pending resume.
abbrev pub here : ℕ
here = 1

-- `thread_local_install`
abbrev pub install : ℕ → Cmd (Unit {0})
install thread_pointer s = ok tt (record s { thread_pointer = thread_pointer })

-- The first half of `__libuc_fiber_resume`, up to the switch; a poisoned context faults there.
unfoldable pub resume_enter : Ptr → Cmd (Unit {0})
unfolding load store
resume_enter p = do
  f ← load p
  store p (record f { return_to = here })
  install f.block.thread_pointer
  λ s. if f.context.rip == 0 then fault else ok tt s

-- The life of a fiber that has come back with this request, and its registers.
unfoldable pub after_ask : Ask → Fiber → Fiber
after_ask (returns status) f = record f {
  context = zero_context;
  life = elim f.life [ live ↦ exited | detached ↦ detached | exited ↦ exited ];
}
after_ask (exits status) f = record f {
  context = zero_context;
  life = elim f.life [ live ↦ exited | detached ↦ detached | exited ↦ exited ];
}
after_ask _ f = f

-- The second half, behind the switch.
unfoldable pub resume_leave : Ptr → (caller_thread_pointer : ℕ) → Ask → Cmd (Unit {0})
unfolding load store after_ask
resume_leave p caller_thread_pointer ask = do
  install caller_thread_pointer
  f ← load p
  store p (record (after_ask ask f) {
    return_to = 0;
    request = record { ask = f.request.ask; result = f.request.result; fiber = p };
  })

-- `__libuc_fiber_resume`
unfoldable pub resume : Ptr → Event → Cmd Ask
unfolding resume_enter suspend resume_leave
resume p event s =
    let caller_thread_pointer = s.thread_pointer in
    (resume_enter p >> elim event.request [
      | none ↦ traps
      | some ask ↦ do
        install event.left_pointer
        suspend p event.saved ask
        resume_leave p caller_thread_pointer ask
        λ t. ok ask t
    ])
      (record s { resumes = s.resumes + 1 })
