-- ===== src/Scheduler/Spec.antt =====
-- The scheduler as its clients know it: threads by name, the queue of those that are ready, those
-- that wait for the kernel, those that wait for another; and what each request may do to them. No
-- ring, no link, no count, no stack and no register is left.
pub mod Order
pub mod Reach
use libuc.Prelude.{
  ℕ, ◌+◌, ◌≤◌, ◌≡◌, ◌≢◌, ℤ, pos, List, [], ◌∷◌, ◌++◌, Option, some, none, update, to_signed,
}
use libuc.Machine.{
  Ptr, null, Ask, yields, returns, exits, awaits, spawns, joins, detaches, process_exits, Life,
  live, detached, exited,
}
use libuc.Scheduler.Chain.{times, drop_one}

-- Who joins a thread, and the answer to its last request.
pub record Thread : Type 0 where
  pub life : Life
  pub joiner : Ptr
  pub status : ℤ
  pub answer : ℤ

pub record Abstract : Type 0 where
  pub threads : Ptr → Option Thread
  pub ready : List Ptr
  pub parked : List Ptr
  pub joining : List Ptr

abbrev pub new_thread : Thread
new_thread = record { life = live; joiner = null; status = pos 0; answer = pos 0 }

abbrev pub given : ℤ → Thread → Thread
given answer t = record t { answer = answer }

-- A thread that makes a request has no answer yet; one that ends has its status, and stays for its
-- joiner unless it is detached.
abbrev pub asking : Ask → Thread → Thread
asking (returns status) t = record {
  life = elim t.life [ live ↦ exited | detached ↦ detached | exited ↦ exited ];
  joiner = t.joiner;
  status = status;
  answer = pos 0;
}
asking (exits status) t = record {
  life = elim t.life [ live ↦ exited | detached ↦ detached | exited ↦ exited ];
  joiner = t.joiner;
  status = status;
  answer = pos 0;
}
asking _ t = given (pos 0) t

abbrev pub Ends : Ask → Type 0
Ends (returns status) = Unit
Ends (exits status) = Unit
Ends _ = ⊥

-- What the request of a running thread may lead to.
module _ (threads : Ptr → Option Thread) (p : Ptr) (t : Thread) (r k j : List Ptr) where
  pub data Does : Ask → Abstract → Type 0 where
    goes_behind :
        Does yields (record { threads = threads; ready = r ++ p ∷ []; parked = k; joining = j })
    parks :
        (sqe : _)
        → Does (awaits sqe) (record { threads = threads; ready = r; parked = p ∷ k; joining = j })
    gets_none :
        (stack_length entry argument : ℕ)
        → Does (spawns stack_length entry argument) (record {
          threads = update threads p (some (given (pos 0) t));
          ready = r ++ p ∷ [];
          parked = k;
          joining = j;
        })
    gets_child :
        (stack_length entry argument : ℕ) (q : Ptr)
        → threads q ≡ none
        → q ≢ null
        → Does (spawns stack_length entry argument) (record {
          threads = update (update threads q (some new_thread)) p (some (given (to_signed 63 q) t));
          ready = (r ++ p ∷ []) ++ q ∷ [];
          parked = k;
          joining = j;
        })
    waits :
        (target : Ptr) (g : Thread)
        → target ≢ p
        → threads target ≡ some g
        → g.joiner ≡ null
        → g.life ≡ live
        → Does (joins target) (record {
          threads = update threads target (some (record g { joiner = p }));
          ready = r;
          parked = k;
          joining = p ∷ j;
        })
    takes :
        (target : Ptr) (g : Thread)
        → target ≢ p
        → threads target ≡ some g
        → g.joiner ≡ null
        → g.life ≡ exited
        → Does (joins target) (record {
          threads = update (update threads p (some (given g.status t))) target none;
          ready = r ++ p ∷ [];
          parked = k;
          joining = j;
        })
    releases :
        (target : Ptr) (g : Thread)
        → threads target ≡ some g
        → g.joiner ≡ null
        → g.life ≡ exited
        → Does (detaches target) (record {
          threads = update threads target none;
          ready = r ++ p ∷ [];
          parked = k;
          joining = j;
        })
    lets_go :
        (target : Ptr) (g : Thread)
        → threads target ≡ some g
        → g.joiner ≡ null
        → g.life ≡ live
        → Does (detaches target) (record {
          threads = update threads target (some (record g { life = detached }));
          ready = r ++ p ∷ [];
          parked = k;
          joining = j;
        })
    stays :
        (ask : Ask)
        → Ends ask
        → t.joiner ≡ null
        → t.life ≡ exited
        → Does ask (record { threads = threads; ready = r; parked = k; joining = j })
    vanishes :
        (ask : Ask)
        → Ends ask
        → t.life ≡ detached
        → Does ask (record { threads = update threads p none; ready = r; parked = k; joining = j })
    wakes :
        (ask : Ask) (g : Thread)
        → Ends ask
        → t.life ≡ exited
        → t.joiner ≢ null
        → t.joiner ≢ p
        → 1 ≤ times t.joiner j
        → threads t.joiner ≡ some g
        → Does ask (record {
          threads = update (update threads t.joiner (some (given t.status g))) p none;
          ready = r ++ t.joiner ∷ [];
          parked = k;
          joining = drop_one t.joiner j;
        })

-- The turn of the thread in front.
pub data Turns (a : Abstract) (p : Ptr) (ask : Ask) (b : Abstract) : Type 0 where
  turns :
      (t : Thread) (r : List Ptr)
      → a.ready ≡ p ∷ r
      → a.threads p ≡ some t
      → Does (update a.threads p (some (asking ask t))) p (asking ask t) r a.parked a.joining ask b
      → Turns a p ask b
