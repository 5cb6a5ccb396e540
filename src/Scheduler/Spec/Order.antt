-- ===== src/Scheduler/Spec/Order.antt =====
-- The order of the ready threads, and the answers that they wait with.
use mathlib.Core.List.{append_assoc, append-nil}
use libuc.Prelude.{
  ◌≡◌, ◌≢◌, ◌∙◌, refl, sym, ap, arith, ℤ, List, [], ◌∷◌, ◌++◌, Option, some, ℕ_discrete,
}
use libuc.Machine.{Ptr, Ask, detached, exited}
use libuc.Scheduler.Chain.{times}
use libuc.Scheduler.Spec.{
  Thread, Abstract, Does, goes_behind, parks, gets_none, gets_child, waits, takes, releases,
  lets_go, stays, vanishes, wakes, Turns, turns,
}

module _ {threads : Ptr → Option Thread} {p : Ptr} {t : Thread} {r k j : List Ptr} where
  -- Those that are ready stay in front, in order.
  Does-ready :
      {ask : Ask} {b : Abstract}
      → Does threads p t r k j ask b
      → (more : List Ptr) × (b.ready ≡ r ++ more)
  Does-ready goes_behind = (p ∷ [], refl)
  Does-ready (parks sqe) = ([], sym (append-nil r))
  Does-ready (gets_none n e a) = (p ∷ [], refl)
  Does-ready (gets_child n e a q free real) = (p ∷ q ∷ [], append_assoc r (p ∷ []) (q ∷ []))
  Does-ready (waits target g ne there alone lives) = ([], sym (append-nil r))
  Does-ready (takes target g ne there alone over) = (p ∷ [], refl)
  Does-ready (releases target g there alone over) = (p ∷ [], refl)
  Does-ready (lets_go target g there alone lives) = (p ∷ [], refl)
  Does-ready (stays ask ends alone over) = ([], sym (append-nil r))
  Does-ready (vanishes ask ends gone) = ([], sym (append-nil r))
  Does-ready (wakes ask g ends over busy other waiting there) = (t.joiner ∷ [], refl)

same_tail : {p q : Ptr} {r l : List Ptr} → p ∷ r ≡ q ∷ l → r ≡ l
same_tail e = cc

pub Turns-ready :
    (a b : Abstract) (p : Ptr) (r : List Ptr) (ask : Ask)
    → a.ready ≡ p ∷ r
    → Turns a p ask b
    → (more : List Ptr) × (b.ready ≡ r ++ more)
Turns-ready a b p r ask front (turns t l front' at does) =
    let (more, is) = Does-ready does in
    (more, is ∙ ap (λ x. x ++ more) (same_tail (sym front' ∙ front)))

-- The thread is there with this answer, and has not ended.
abbrev pub Awaits : (Ptr → Option Thread) → Ptr → ℤ → Type 0
Awaits threads w answer =
    (x : Thread) × (threads w ≡ some x) × (x.life ≢ exited) × (x.answer ≡ answer)

module _ {threads : Ptr → Option Thread} {p : Ptr} {t : Thread} {r k j : List Ptr} where
  -- The request of another thread leaves the answer of one that does not join.
  Does-Awaits :
      {ask : Ask} {b : Abstract} (w : Ptr) (answer : ℤ)
      → Does threads p t r k j ask b
      → w ≢ p
      → times w j ≡ 0
      → Awaits threads w answer
      → Awaits b.threads w answer
  Does-Awaits w answer goes_behind ne out h = h
  Does-Awaits w answer (parks sqe) ne out h = h
  Does-Awaits w answer (gets_none n e a) ne out (x, at, lives, is) = (x, ground arith, lives, is)
  Does-Awaits w answer (gets_child n e a q free real) ne out (x, at, lives, is) =
      (x, ground arith, lives, is)
  Does-Awaits w answer (waits target g other there alone running) ne out (x, at, lives, is) =
      elim (ℕ_discrete w target) [
        | yes e ↦ (record g { joiner = p }, ground arith, ground arith, ground arith)
        | no apart ↦ (x, ground arith, lives, is)
      ]
  Does-Awaits w answer (takes target g other there alone over) ne out (x, at, lives, is) =
      (x, ground arith, lives, is)
  Does-Awaits w answer (releases target g there alone over) ne out (x, at, lives, is) =
      (x, ground arith, lives, is)
  Does-Awaits w answer (lets_go target g there alone running) ne out (x, at, lives, is) =
      elim (ℕ_discrete w target) [
        | yes e ↦ (record g { life = detached }, ground arith, ground arith, ground arith)
        | no apart ↦ (x, ground arith, lives, is)
      ]
  Does-Awaits w answer (stays ask ends alone over) ne out h = h
  Does-Awaits w answer (vanishes ask ends gone) ne out (x, at, lives, is) =
      (x, ground arith, lives, is)
  Does-Awaits w answer (wakes ask g ends over busy other waiting there) ne out (x, at, lives, is) =
      let apart : w ≢ t.joiner = ground arith in (x, ground arith, lives, is)

pub Turns-Awaits :
    (a b : Abstract) (p w : Ptr) (ask : Ask) (answer : ℤ)
    → Turns a p ask b
    → w ≢ p
    → times w a.joining ≡ 0
    → Awaits a.threads w answer
    → Awaits b.threads w answer
Turns-Awaits a b p w ask answer (turns t r front at does) ne out (x, there, lives, is) =
    Does-Awaits w answer does ne out (x, ground arith, lives, is)
