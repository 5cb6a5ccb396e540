-- ===== src/Scheduler/Chain.antt =====
-- The ready queue as linked records: a chain of `ready_next` links from the head.
use libuc.Prelude.{
  ℕ, ◌+◌, ◌≤◌, ◌≡◌, ◌≢◌, refl, arith, List, [], ◌∷◌, ◌++◌, ◌==◌, if◌then◌else◌, update, length,
}
use libuc.Machine.{Ptr, null}

-- How often a pointer stands in a list.
abbrev pub times : Ptr → List Ptr → ℕ
times a [] = 0
times a (x ∷ xs) = (if a == x then 1 else 0) + times a xs

pub times-append : (a : Ptr) (xs ys : List Ptr) → times a (xs ++ ys) ≡ times a xs + times a ys
times-append a [] ys = omega arith
times-append a (x ∷ xs) ys = omega (arith, times-append a xs ys)

-- The last pointer of a list, or `d` of an empty one.
abbrev pub last_from : Ptr → List Ptr → Ptr
last_from d [] = d
last_from d (x ∷ xs) = last_from x xs

pub last_from-append : (d : Ptr) (xs : List Ptr) (p : Ptr) → last_from d (xs ++ p ∷ []) ≡ p
last_from-append d [] p = refl
last_from-append d (x ∷ xs) p = last_from-append x xs p

pub times-last : (x : Ptr) (xs : List Ptr) → 1 ≤ times (last_from x xs) (x ∷ xs)
times-last x [] = ground arith
times-last x (y ∷ ys) = omega (arith, times-last y ys)

-- From `p` the links lead through the pointers of the list to null.
abbrev pub Chain : (Ptr → Ptr) → Ptr → List Ptr → Type 0
Chain next p [] = p ≡ null
Chain next p (x ∷ xs) = (p ≡ x) × (x ≢ null) × Chain next (next x) xs

-- A link of another record does not matter.
pub Chain-update :
    (next : Ptr → Ptr) (p a q : Ptr) (xs : List Ptr)
    → times a xs ≡ 0
    → Chain next p xs
    → Chain (update next a q) p xs
Chain-update next p a q [] out c = c
Chain-update next p a q (x ∷ xs) out (e, ne, c) = (
  e,
  ne,
  rw (other next a q x (ground arith)) (Chain-update next (next x) a q xs (ground arith) c),
)
  where
    other : (next : Ptr → Ptr) (a q x : Ptr) → x ≢ a → update next a q x ≡ next x
    other next a q x h = ground arith

-- Writing the last link extends the chain.
pub Chain-snoc :
    (next : Ptr → Ptr) (p x : Ptr) (xs : List Ptr) (q : Ptr)
    → Chain next p (x ∷ xs)
    → times (last_from x xs) (x ∷ xs) ≤ 1
    → q ≢ null
    → next q ≡ null
    → times q (x ∷ xs) ≡ 0
    → Chain (update next (last_from x xs) q) p (x ∷ xs ++ q ∷ [])
Chain-snoc next p x [] q (e, ne, end) once live ends out = (e, ne, ground arith)
Chain-snoc next p x (y ∷ ys) q (e, ne, c) once live ends out =
    let behind : update next (last_from y ys) q x ≡ next x = ground (arith, times-last y ys) in
    (e, ne, rw behind (Chain-snoc next (next x) y ys q c (omega arith) live ends (omega arith)))

-- A list less the first place of a pointer.
unfoldable pub drop_one : Ptr → List Ptr → List Ptr
drop_one t [] = []
drop_one t (x ∷ xs) = if t == x then xs else x ∷ drop_one t xs

pub times-drop_one :
    (a t : Ptr) (xs : List Ptr)
    → 1 ≤ times t xs
    → times a (drop_one t xs) + (if a == t then 1 else 0) ≡ times a xs
unfolding drop_one
times-drop_one a t [] h = absurd (omega arith)
times-drop_one a t (x ∷ xs) h = ground (arith, times-drop_one a t xs)

pub length-drop_one :
    (t : Ptr) (xs : List Ptr) → 1 ≤ times t xs → length (drop_one t xs) + 1 ≡ length xs
unfolding drop_one
length-drop_one t [] h = absurd (omega arith)
length-drop_one t (x ∷ xs) h = ground (arith, length-drop_one t xs)
