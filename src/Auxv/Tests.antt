-- ===== src/Auxv/Tests.antt =====
-- A vector of two pairs.
use libuc.Prelude.{ℕ, ◌≡◌, ◌==◌, refl, arith, ℤ, pos, List, [], ◌∷◌, none, some, if◌then◌else◌}
use libuc.Auxv.{getauxval, enoent}
use libuc.Auxv.Search.{Encodes, lookup, getauxval-lookup}

abbrev pairs : List (ℕ × ℕ)
pairs = (3, 64) ∷ (5, 2) ∷ []

abbrev words : ℕ → ℕ
words i = if i == 0 then 3 else if i == 1 then 64 else if i == 2 then 5 else if i == 3 then 2 else 0

words-Encodes : Encodes words 0 pairs
words-Encodes = (refl, ground arith, refl, (refl, ground arith, refl, refl))

getauxval-lookup_example :
    getauxval (pos 0) words 9 3 0
    ≡ some
        (elim (lookup pairs 9) as (λ o. ℤ × ℕ) [ none ↦ (enoent, 0) | some value ↦ (pos 0, value) ])
getauxval-lookup_example = getauxval-lookup (pos 0) words 9 0 pairs 3 words-Encodes (ground arith)
