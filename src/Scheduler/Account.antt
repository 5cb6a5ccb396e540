-- ===== src/Scheduler/Account.antt =====
-- Which fibers wait for the kernel: those whose entries it has read or will read, less those whose
-- completions have been reaped.
use Prim.Native.Nat.{bit_and}
use libuc.Prelude.{◌+◌, ◌≤◌, ◌≡◌, refl, ap, ◌∙◌, arith, List, [], ◌∷◌, ◌++◌}
use libuc.Ring.{Sqe, Cqe}
use libuc.Ring.Batch.{batch}
use libuc.Machine.{Ptr, State}
use libuc.Scheduler.{streams}
use libuc.Scheduler.Chain.{times, times-append, drop_one, times-drop_one}
use libuc.Scheduler.Invariant.{SameLog}

-- The fibers that entries name, in order, and those that completions answer.
abbrev pub names : List Sqe → List Ptr
names [] = []
names (sqe ∷ sqes) = sqe.user_data ∷ names sqes

abbrev pub answers_to : List Cqe → List Ptr
answers_to [] = []
answers_to (c ∷ cs) = c.user_data ∷ answers_to cs

-- The others of a list.
abbrev pub others : List Cqe → List Ptr → List Ptr
others [] k = k
others (c ∷ cs) k = others cs (drop_one c.user_data k)

-- Each completion is the last of an operation of a fiber that is parked, one for each.
abbrev pub Answers : List Cqe → List Ptr → Type 0
Answers [] k = Unit
Answers (c ∷ cs) k =
    (bit_and c.flags streams ≡ 0) × (1 ≤ times c.user_data k) × Answers cs (drop_one c.user_data k)

-- Each completion is the last of its operation.
abbrev pub AreLast : List Cqe → Type 0
AreLast [] = Unit
AreLast (c ∷ cs) = (bit_and c.flags streams ≡ 0) × AreLast cs

-- All entries so far, what the kernel has read and then the batch.
abbrev pub log : State → List Sqe
log s = s.submitted ++ batch s.ring

-- The parked fibers and those answered so far are the ones that the entries name.
pub record IsAccounted (answered : List Ptr) (s : State) (parked : List Ptr) : Type 0 where
  pub adds_up : (a : Ptr) → times a parked + times a answered ≡ times a (names (log s))

names-append : (xs ys : List Sqe) → names (xs ++ ys) ≡ names xs ++ names ys
names-append [] ys = refl
names-append (x ∷ xs) ys = ap (λ l. x.user_data ∷ l) (names-append xs ys)

pub times-names :
    (a : Ptr) (xs ys : List Sqe)
    → times a (names (xs ++ ys)) ≡ times a (names xs) + times a (names ys)
times-names a xs ys = ap (times a) (names-append xs ys) ∙ times-append a (names xs) (names ys)

pub SameLog-IsAccounted :
    {s t : State} {answered k : List Ptr}
    → SameLog s t
    → IsAccounted answered s k
    → IsAccounted answered t k
SameLog-IsAccounted (ring, read) h = record { adds_up = λ a. rw (ring, read) (h.adds_up a) }

-- An entry at the end of the log, and its fiber parked.
pub parked-IsAccounted :
    {s t : State} {answered k : List Ptr} (sqe : Sqe)
    → log t ≡ log s ++ sqe ∷ []
    → IsAccounted answered s k
    → IsAccounted answered t (sqe.user_data ∷ k)
parked-IsAccounted {s} {t} {answered} {k} sqe grows h = record {
  adds_up = λ a. rw grows (omega (arith, h.adds_up a, times-names a (log s) (sqe ∷ [])));
}

-- Completions of parked fibers, no more for each than it waits for.
pub AreLast-Answers :
    (cs : List Cqe) (k : List Ptr)
    → AreLast cs
    → ((a : Ptr) → times a (answers_to cs) ≤ times a k)
    → Answers cs k
AreLast-Answers [] k lasts few = tt
AreLast-Answers (c ∷ cs) k (last, lasts) few =
    let waits : 1 ≤ times c.user_data k = ground (arith, few c.user_data) in
    (
      last,
      waits,
      AreLast-Answers cs (drop_one c.user_data k) lasts
          (λ a. ground (arith, few a, times-drop_one a c.user_data k waits)),
    )

pub times-others :
    (a : Ptr) (cs : List Cqe) (k : List Ptr)
    → Answers cs k
    → times a (others cs k) + times a (answers_to cs) ≡ times a k
times-others a [] k h = omega arith
times-others a (c ∷ cs) k (last, waits, rest) =
    ground
      (arith, times-others a cs (drop_one c.user_data k) rest, times-drop_one a c.user_data k waits)
