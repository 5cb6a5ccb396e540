-- ===== src/Auxv/Search.antt =====
-- The search against a list of pairs.
use libuc.Prelude.{
  ℕ, zero, suc, ◌+◌, ◌<◌, ◌≡◌, ◌≢◌, refl, arith, ℤ, List, [], ◌∷◌, length, ◌==◌, Option, none, some,
  if◌then◌else◌,
}
use libuc.Auxv.{at_null, enoent, auxv_get, getauxval}

-- The words from an entry on are these pairs and an AT_NULL.
abbrev pub Encodes : (words : ℕ → ℕ) → (entry : ℕ) → List (ℕ × ℕ) → Type 0
Encodes words entry [] = words entry ≡ at_null
Encodes words entry (pair ∷ pairs) =
    (words entry ≡ pair.0)
    × (pair.0 ≢ at_null)
    × (words (entry + 1) ≡ pair.1)
    × Encodes words (entry + 2) pairs

-- The value of the first pair with this type.
abbrev pub lookup : List (ℕ × ℕ) → (type : ℕ) → Option ℕ
lookup [] type = none
lookup (pair ∷ pairs) type = if pair.0 == type then some pair.1 else lookup pairs type

-- On words that hold a list of pairs and then AT_NULL, with fuel for each pair and the terminator,
-- the search finds the value of the first pair with the type, or none.
pub auxv_get-lookup :
    (words : ℕ → ℕ) (type entry : ℕ) (pairs : List (ℕ × ℕ)) (fuel : ℕ)
    → Encodes words entry pairs
    → length pairs < fuel
    → auxv_get words type fuel entry ≡ some (lookup pairs type)
unfolding auxv_get
auxv_get-lookup words type entry pairs zero e enough = absurd (omega arith)
auxv_get-lookup words type entry [] (suc fuel) e enough = ground arith
auxv_get-lookup words type entry ((t, v) ∷ pairs) (suc fuel) (is_type, live, is_value, rest)
      enough =
    ground (arith, auxv_get-lookup words type (entry + 2) pairs fuel rest (omega arith))

-- On such words, getauxval returns that value and leaves errno, or returns 0 and sets errno to
-- ENOENT if there is none.
pub getauxval-lookup :
    (errno : ℤ) (words : ℕ → ℕ) (type entry : ℕ) (pairs : List (ℕ × ℕ)) (fuel : ℕ)
    → Encodes words entry pairs
    → length pairs < fuel
    → getauxval errno words type fuel entry
      ≡ some (elim (lookup pairs type) as (λ o. ℤ × ℕ) [
        | none ↦ (enoent, 0)
        | some value ↦ (errno, value)
      ])
unfolding getauxval
getauxval-lookup errno words type entry pairs fuel e enough =
    by_result (lookup pairs type) (auxv_get-lookup words type entry pairs fuel e enough)
  where
    by_result :
        (o : Option ℕ)
        → auxv_get words type fuel entry ≡ some o
        → getauxval errno words type fuel entry
          ≡ some (elim o as (λ o. ℤ × ℕ) [ none ↦ (enoent, 0) | some value ↦ (errno, value) ])
    by_result none found = rw (getauxval, found) refl
    by_result (some value) found = rw (getauxval, found) refl
