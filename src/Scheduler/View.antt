-- ===== src/Scheduler/View.antt =====
-- A state of the reactor as a state of the abstract scheduler.
use mathlib.Core.Path.{fun_ext}
use libuc.Prelude.{ℕ, ◌≡◌, ◌∙◌, ap, arith, [], Option, some, none, update}
use libuc.Machine.{Ptr, Context, Ask, returns, exits, Fiber, State}
use libuc.Fiber.{after_ask, suspended}
use libuc.Fiber.Resume.{resumed_fiber}
use libuc.Scheduler.Invariant.{IsValid}
use libuc.Scheduler.Spec.{Thread, Abstract, asking, new_thread}
use libuc.Scheduler.Spawn.{Starting}

abbrev pub thread : Fiber → Thread
thread f = record { life = f.life; joiner = f.joiner; status = f.status; answer = f.request.result }

abbrev pub view : Option Fiber → Option Thread
view none = none
view (some f) = some (thread f)

abbrev pub seen : State → Ptr → Option Thread
seen s a = view (s.fibers a)

pub view-update :
    (fibers : Ptr → Option Fiber) (p : Ptr) (x : Option Fiber)
    → (λ a. view (update fibers p x a)) ≡ update (λ a. view (fibers a)) p (view x)
view-update fibers p x = fun_ext λ a. ground arith

-- A write to one record, and to two.
pub seen-update :
    (s t : State) (p : Ptr) (x : Option Fiber)
    → t.fibers ≡ update s.fibers p x
    → seen t ≡ update (seen s) p (view x)
seen-update s t p x e = ap (λ fibers a. view (fibers a)) e ∙ view-update s.fibers p x

pub seen-update_twice :
    (s t : State) (p q : Ptr) (x y : Option Fiber)
    → t.fibers ≡ update (update s.fibers p x) q y
    → seen t ≡ update (update (seen s) p (view x)) q (view y)
seen-update_twice s t p q x y e =
    ap (λ fibers a. view (fibers a)) e
    ∙ view-update (update s.fibers p x) q y
    ∙ ap (λ threads. update threads q (view y)) (view-update s.fibers p x)

-- What a resume does to a thread.
pub thread-resumed_fiber :
    (p : Ptr) (saved : Context) (ask : Ask) (f : Fiber)
    → thread (resumed_fiber p saved ask f) ≡ asking ask (thread f)
unfolding resumed_fiber after_ask suspended
thread-resumed_fiber p saved (returns status) f = ground arith
thread-resumed_fiber p saved (exits status) f = ground arith
thread-resumed_fiber p saved _ f = ground arith

-- A record that has not run yet is a new thread.
pub thread-Starting :
    {entry argument : ℕ} {g : Fiber} → Starting entry argument g → thread g ≡ new_thread
thread-Starting new = ground (arith, new.lives, new.unjoined, new.no_status, new.no_answer)

-- The state stands for this abstract one.
pub record Shows (s : State) (a : Abstract) : Type 0 where
  pub threads : seen s ≡ a.threads
  pub valid : IsValid s [] a.ready a.parked a.joining
