-- ===== src/Auxv.antt =====
-- src/sys/auxv: the search of the auxiliary vector, an array of pairs of words that ends with
-- AT_NULL.
pub mod Search
mod Tests
use libuc.Prelude.{ℕ, zero, suc, ◌+◌, ◌==◌, ℤ, pos, Option, none, some, if◌then◌else◌}

-- AT_NULL
abbrev pub at_null : ℕ
at_null = 0

-- ENOENT
abbrev pub enoent : ℤ
enoent = pos 2

-- `__libuc_auxv_get` from an entry on: `some none` is its false, and `none` is out of fuel, which
-- bounds the entries it reads.
unfoldable pub auxv_get : (words : ℕ → ℕ) → (type : ℕ) → (fuel entry : ℕ) → Option (Option ℕ)
auxv_get words type zero entry = none
auxv_get words type (suc fuel) entry =
    let rest = auxv_get words type fuel (entry + 2) in
    if words entry == at_null
    then some none
    else if words entry == type
    then some (some (words (entry + 1)))
    else rest

-- errno and what `getauxval` returns.
unfoldable pub getauxval : (errno : ℤ) → (words : ℕ → ℕ) → (type fuel entry : ℕ) → Option (ℤ × ℕ)
getauxval errno words type fuel entry = elim (auxv_get words type fuel entry) [
  | none ↦ none
  | some none ↦ some (enoent, 0)
  | some (some value) ↦ some (errno, value)
]
