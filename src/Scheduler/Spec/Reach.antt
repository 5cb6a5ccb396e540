-- ===== src/Scheduler/Spec/Reach.antt =====
-- The runs of the abstract scheduler: turns, and answers from the kernel.
use libuc.Prelude.{◌≤◌, ◌≡◌, ℤ, [], ◌∷◌, ◌++◌, some, update}
use libuc.Machine.{Ptr, Ask}
use libuc.Scheduler.Chain.{times, drop_one}
use libuc.Scheduler.Spec.{Thread, Abstract, Turns, given}

-- A parked thread gets an answer, and goes behind the ready ones.
abbrev pub answering : Abstract → (w : Ptr) → Thread → ℤ → Abstract
answering a w x answer = record {
  threads = update a.threads w (some (given answer x));
  ready = a.ready ++ w ∷ [];
  parked = drop_one w a.parked;
  joining = a.joining;
}

pub data Reaches : Abstract → Abstract → Type 0 where
  here : (a : Abstract) → Reaches a a
  by_turn : (a b c : Abstract) (p : Ptr) (ask : Ask) → Turns a p ask b → Reaches b c → Reaches a c
  by_answer :
      (a c : Abstract) (w : Ptr) (x : Thread) (answer : ℤ)
      → 1 ≤ times w a.parked
      → a.threads w ≡ some x
      → Reaches (answering a w x answer) c
      → Reaches a c

pub Reaches-trans : {a b c : Abstract} → Reaches a b → Reaches b c → Reaches a c
Reaches-trans (here a) rest = rest
Reaches-trans (by_turn a b c p ask step more) rest =
    by_turn a b _ p ask step (Reaches-trans more rest)
Reaches-trans (by_answer a c w x answer waits at more) rest =
    by_answer a _ w x answer waits at (Reaches-trans more rest)
