-- ===== src/Fiber/Resume.antt =====
-- A resume: whose request comes back, and what it leaves in the record.
use mathlib.Core.Path.{fun_ext}
use libuc.Prelude.{ℕ, ℤ, ◌+◌, ◌≡◌, ◌≢◌, refl, ap, arith, pos, Option, some, update}
use libuc.Machine.{
  Ptr, null, Context, Ask, returns, exits, process_exits, Fiber, State, ok, Life, live, detached,
  exited,
}
use libuc.Fiber.{
  Event, zero_context, here, asker, suspended, suspend, resume_enter, after_ask, resume_leave,
  resume,
}

-- The fiber's code has its own thread-local block installed when it asks, unless the request finds
-- the record by pointer.
abbrev pub KeepsBlock : Fiber → Event → Ask → Type 0
KeepsBlock f event (returns status) = Unit
KeepsBlock f event (process_exits status) = Unit
KeepsBlock f event _ = event.left_pointer ≡ f.block.thread_pointer

-- The block's TCB names the fiber.
abbrev pub Owns : State → Ptr → Fiber → Type 0
Owns s p f = (f.block.thread_pointer ≢ 0) × ((s.tcbs f.block.thread_pointer).fiber ≡ p)

-- The record behind a resume: an exit leaves no registers to go on with, its status, and a life that
-- ends unless the fiber is detached; any other request leaves the saved registers alone.
abbrev pub life_after : Life → Life
life_after live = exited
life_after detached = detached
life_after exited = exited

abbrev pub after_exit : Ptr → Ask → ℤ → Fiber → Fiber
after_exit p ask status f = record f {
  context = zero_context;
  return_to = 0;
  status = status;
  life = life_after f.life;
  request = record { ask = ask; result = pos 0; fiber = p };
}

unfoldable pub resumed_fiber : Ptr → Context → Ask → Fiber → Fiber
resumed_fiber p saved (returns status) f = after_exit p (returns status) status f
resumed_fiber p saved (exits status) f = after_exit p (exits status) status f
resumed_fiber p saved ask f = record f {
  context = saved;
  return_to = 0;
  request = record { ask = ask; result = pos 0; fiber = p };
}

unfoldable pub resumed : Ptr → Context → Ask → Fiber → State → State
resumed p saved ask f s = record s {
  fibers = update s.fibers p (some (resumed_fiber p saved ask f));
  resumes = s.resumes + 1;
}

overwritten :
    (fibers : Ptr → Option Fiber) (p : Ptr) (f g h : Fiber)
    → update (update (update fibers p (some f)) p (some g)) p (some h) ≡ update fibers p (some h)
overwritten fibers p f g h = fun_ext λ q. ground arith

module _ (s : State) (p : Ptr) (f : Fiber) (at : s.fibers p ≡ some f) where
  resume_enter-ok :
      f.context.rip ≢ 0
      → resume_enter p s
        ≡ ok tt (record s {
          fibers = update s.fibers p (some (record f { return_to = here }));
          thread_pointer = f.block.thread_pointer;
        })
  unfolding resume_enter
  resume_enter-ok runs = ground arith

  suspend-ok :
      (saved : Context) (ask : Ask)
      → asker p ask s ≡ p
      → suspend p saved ask s
        ≡ ok tt (record s {
          fibers = update s.fibers p (
              some (record (suspended saved ask f) {
                request = record { ask = ask; result = pos 0; fiber = null };
              }));
        })
  unfolding suspend
  suspend-ok saved ask self = rw self (ground arith)

  resume_leave-ok :
      (caller : ℕ) (ask : Ask)
      → resume_leave p caller ask s
        ≡ ok tt (record s {
          fibers = update s.fibers p (
              some (record (after_ask ask f) {
                return_to = 0;
                request = record { ask = f.request.ask; result = f.request.result; fiber = p };
              }));
          thread_pointer = caller;
        })
  unfolding resume_leave
  resume_leave-ok caller ask = ground arith

asker_self :
    (s : State) (p : Ptr) (f : Fiber) (event : Event) (ask : Ask)
    → Owns s p f
    → KeepsBlock f event ask
    → asker p ask (record s { thread_pointer = event.left_pointer }) ≡ p
unfolding asker
asker_self s p f event (returns status) owns keeps = refl
asker_self s p f event (process_exits status) owns keeps = refl
asker_self s p f event _ owns keeps = ground (arith, owns)

same_life :
    (l : Life) → elim l [ live ↦ exited | detached ↦ detached | exited ↦ exited ] ≡ life_after l
same_life live = refl
same_life detached = refl
same_life exited = refl

abbrev after : Ptr → Ask → ℤ → Fiber → Life → Fiber
after p ask status f life = record (after_exit p ask status f) { life = life }

-- The three writes to the record come to one.
same_fiber :
    (p : Ptr) (saved : Context) (ask : Ask) (f : Fiber)
    → record (after_ask ask (record (suspended saved ask (record f { return_to = here })) {
      request = record { ask = ask; result = pos 0; fiber = null };
    })) { return_to = 0; request = record { ask = ask; result = pos 0; fiber = p } }
      ≡ resumed_fiber p saved ask f
unfolding after_ask suspended resumed_fiber
same_fiber p saved (returns status) f = ap (after p (returns status) status f) (same_life f.life)
same_fiber p saved (exits status) f = ap (after p (exits status) status f) (same_life f.life)
same_fiber p saved _ f = refl

-- A resume of a mapped fiber whose saved address is not 0, whose block's TCB names it, and whose
-- code keeps its block installed unless it returns or ends the process, comes back with the
-- request that it asks; it leaves the thread register as it was and writes nothing but the fiber's
-- record, which holds the saved registers, or none behind an exit, the request stamped with the
-- fiber, and the life and status of an exit.
pub resume-ok :
    (s : State) (p : Ptr) (f : Fiber) (event : Event) (ask : Ask)
    → s.fibers p ≡ some f
    → f.context.rip ≢ 0
    → event.request ≡ some ask
    → Owns s p f
    → KeepsBlock f event ask
    → resume p event s ≡ ok ask (resumed p event.saved ask f s)
unfolding resume resumed
resume-ok s p f event ask at runs asked owns keeps =
    let s1 : State = record s { resumes = s.resumes + 1 } in
    let f2 : Fiber = record f { return_to = here } in
    let s2 : State = record s1 {
      fibers = update s.fibers p (some f2);
      thread_pointer = event.left_pointer;
    } in
    let f3 : Fiber = record (suspended event.saved ask f2) {
      request = record { ask = ask; result = pos 0; fiber = null };
    } in
    let s3 : State = record s2 { fibers = update s2.fibers p (some f3) } in
    rw (
      resume_enter-ok s1 p f at runs,
      asked,
      suspend-ok s2 p f2 (ground arith) event.saved ask (asker_self s2 p f event ask owns keeps),
      resume_leave-ok s3 p f3 (ground arith) s.thread_pointer ask,
      same_fiber p event.saved ask f,
      overwritten s.fibers p f2 f3 (resumed_fiber p event.saved ask f),
    )
