-- ===== src/Threads.antt =====
-- src/threads/thrd.c: each function asks the scheduler for something and turns its answer into a
-- result, and the parts of src/fiber/fiber.c between them that read the answer.
pub mod Answers
mod Tests
use libuc.Prelude.{
  ℕ, ◌*◌, ◌==◌, ℤ, pos, Bool, Option, none, some, if◌then◌else◌, to_unsigned, to_signed,
}
use libuc.Machine.{Ptr, null, Ask, yields, exits, spawns, joins, detaches}

-- What a thread function asks for, and what it makes of the answer.
pub record Exchange (R : Type 0) : Type 0 where
  pub ask : Ask
  pub finish : (result : ℤ) → R

abbrev pub thread_stack_length : ℕ
thread_stack_length = 256 * 1024

-- thrd_success and thrd_nomem.
abbrev pub thrd_success : ℕ
thrd_success = 0

abbrev pub thrd_nomem : ℕ
thrd_nomem = 3

-- `__libuc_fiber_start`: the answer is the new fiber's record.
unfoldable pub start : (stack_length entry argument : ℕ) → Exchange Ptr
start stack_length entry argument = record {
  ask = spawns stack_length entry argument;
  finish = λ result. to_unsigned 64 result;
}

-- The status, and what is stored through `thr`.
unfoldable pub thrd_create : (func arg : ℕ) → Exchange (ℕ × Option Ptr)
thrd_create func arg = record {
  ask = (start thread_stack_length func arg).ask;
  finish = λ result.
      let thread = (start thread_stack_length func arg).finish result in
      if thread == null then (thrd_nomem, none) else (thrd_success, some thread);
}

-- The status, and what is stored through `res`, unless it is null.
unfoldable pub thrd_join : (thr : Ptr) → (res : ℕ) → Exchange (ℕ × Option ℤ)
thrd_join thr res = record {
  ask = joins thr;
  finish = λ status.
      (thrd_success, if res == 0 then none else some (to_signed 31 (to_unsigned 32 status)));
}

unfoldable pub thrd_detach : (thr : Ptr) → Exchange ℕ
thrd_detach thr = record { ask = detaches thr; finish = λ result. thrd_success }

unfoldable pub thrd_equal : (lhs rhs : Ptr) → ℕ
thrd_equal lhs rhs = if lhs == rhs then 1 else 0

-- The two that return nothing.
unfoldable pub thrd_yield : Ask
thrd_yield = yields

unfoldable pub thrd_exit : (res : ℤ) → Ask
thrd_exit res = exits res
