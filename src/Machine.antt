-- ===== src/Machine.antt =====
-- The state that the scheduler and the fibers share: `struct __libuc_scheduler` of
-- src/scheduler/scheduler.h, and the memory that its pointers lead to, the fiber records of
-- src/fiber/fiber.h. Commands on it can trap, as the code does on a broken contract, or fault, by an
-- access to a record that is not mapped.
use libuc.Prelude.{ℕ, ℤ, List, Option, none, some, update}
use libuc.Ring.{Sqe, Ring}
use libuc.ThreadLocal.{ImageLayout, LocalBlock, Tcb}

-- A pointer to a fiber record, and to the request on the frame of a suspended fiber: a fiber has
-- one, so it stands in the record here. 0 is the null pointer.
abbrev pub Ptr : Type 0
Ptr = ℕ

abbrev pub null : Ptr
null = 0

-- `struct fiber_context` of x86-64.
pub record Context : Type 0 where
  pub rbx : ℕ
  pub rbp : ℕ
  pub r12 : ℕ
  pub r13 : ℕ
  pub r14 : ℕ
  pub r15 : ℕ
  pub rsp : ℕ
  pub rip : ℕ

-- A request's kind with what rides in its union. `returns` is the EXIT of an entry that returns,
-- `exits` the one of `__libuc_fiber_exit`.
pub data Ask : Type 0 where
  yields : Ask
  returns : (status : ℤ) → Ask
  exits : (status : ℤ) → Ask
  awaits : Sqe → Ask
  spawns : (stack_length entry argument : ℕ) → Ask
  joins : (target : Ptr) → Ask
  detaches : (target : Ptr) → Ask
  process_exits : (status : ℤ) → Ask

-- `struct __libuc_fiber_request`
pub record Request : Type 0 where
  pub ask : Ask
  pub result : ℤ
  pub fiber : Ptr

-- `enum __libuc_fiber_life`
pub data Life : Type 0 where
  live detached exited : Life

-- `struct __libuc_fiber`, less `ready_next`. `joiner` points at the request of the joining fiber.
pub record Fiber : Type 0 where
  pub context : Context
  pub entry : ℕ
  pub argument : ℕ
  pub stack : ℕ
  pub stack_length : ℕ
  pub block : LocalBlock
  pub return_to : ℕ
  pub joiner : Ptr
  pub status : ℤ
  pub life : Life
  pub request : Request

-- The fiber records by address, their `ready_next` links apart, the thread-local store, the thread
-- register, the scheduler, and what has happened: how often a fiber was resumed, how often the
-- kernel was entered, and what it has read from the submission slots, in order.
pub record State : Type 0 where
  pub fibers : Ptr → Option Fiber
  pub next : Ptr → Ptr
  pub layout : Option ImageLayout
  pub bytes : ℕ → ℕ
  pub tcbs : ℕ → Tcb
  pub thread_pointer : ℕ
  pub ring : Ring
  pub ready_head : Ptr
  pub ready_tail : Ptr
  pub ready_count : ℕ
  pub parked_count : ℕ
  pub joining_count : ℕ
  pub resumes : ℕ
  pub enters : ℕ
  pub submitted : List Sqe

pub data Outcome (A : Type 0) : Type 0 where
  ok : A → State → Outcome A
  trap : Outcome A
  fault : Outcome A
  out_of_fuel : Outcome A

abbrev pub Cmd : Type 0 → Type 0
Cmd A = State → Outcome A

module _ {A B : Type 0} where
  abbrev pub and_then : Outcome A → (A → Cmd B) → Outcome B
  and_then (ok a s) k = k a s
  and_then trap k = trap
  and_then fault k = fault
  and_then out_of_fuel k = out_of_fuel

  infixl 5 ◌>>=◌ ◌>>◌
  abbrev pub ◌>>=◌ : Cmd A → (A → Cmd B) → Cmd B
  m >>= k = λ s. and_then (m s) k

  abbrev pub ◌>>◌ : Cmd A → Cmd B → Cmd B
  m >> n = m >>= λ _. n

abbrev pub traps : {A : Type 0} → Cmd A
traps s = trap

abbrev pub done : Cmd (Unit {0})
done s = ok tt s

-- `*p`
unfoldable pub load : Ptr → Cmd Fiber
load p s = elim (s.fibers p) [ none ↦ fault | some f ↦ ok f s ]

-- `*p = f`
unfoldable pub store : Ptr → Fiber → Cmd (Unit {0})
store p f s = elim (s.fibers p) [
  | none ↦ fault
  | some _ ↦ ok tt (record s { fibers = update s.fibers p (some f) })
]

-- `p->request.result = result`, through a pointer to the request.
unfoldable pub answer : Ptr → ℤ → Cmd (Unit {0})
unfolding load store
answer p result = do
  f ← load p
  store p (record f {
    request = record { ask = f.request.ask; result = result; fiber = f.request.fiber };
  })
