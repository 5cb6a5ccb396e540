-- ===== src/Start/Walk.antt =====
-- The walk over an initial stack that is laid out as the kernel does.
use libuc.Prelude.{
  ℕ, zero, suc, ◌+◌, ◌-◌, ◌^◌, ◌<◌, ◌≤◌, ◌≡◌, ◌≢◌, ◌↔◌, ◌⊎◌, inl, inr, refl, arith, false, ltb,
  List, [], ◌∷◌, length, none, some, Option-cases,
}
use libuc.Auxv.{auxv_get}
use libuc.Auxv.Search.{Encodes, lookup, auxv_get-lookup}
use libuc.Start.{environment_end, find_auxv}

-- The words from here on are these pointers and a null.
abbrev pub EndsNull : (words : ℕ → ℕ) → (word : ℕ) → List ℕ → Type 0
EndsNull words word [] = words word ≡ 0
EndsNull words word (p ∷ pointers) = (words word ≡ p) × (p ≢ 0) × EndsNull words (word + 1) pointers

-- The initial stack: argc, as many arguments and a null, the environment and a null, and the pairs
-- of the auxiliary vector.
pub record InitialStack (words : ℕ → ℕ) (argv envp : List ℕ) (pairs : List (ℕ × ℕ)) : Type 0 where
  pub count : words 0 ≡ length argv
  pub fits : length argv < 2 ^ 31
  pub arguments : EndsNull words 1 argv
  pub environment : EndsNull words (length argv + 2) envp
  pub vector : Encodes words (length argv + length envp + 3) pairs

EndsNull-null :
    (words : ℕ → ℕ) (word : ℕ) (pointers : List ℕ)
    → EndsNull words word pointers
    → words (word + length pointers) ≡ 0
EndsNull-null words word [] e = let here : word + 0 ≡ word = omega arith in rw here e
EndsNull-null words word (p ∷ pointers) (is, real, rest) =
    let next : word + suc (length pointers) ≡ word + 1 + length pointers = omega arith in
    rw next (EndsNull-null words (word + 1) pointers rest)

environment_end-EndsNull :
    (words : ℕ → ℕ) (fuel word : ℕ) (pointers : List ℕ)
    → EndsNull words word pointers
    → length pointers < fuel
    → environment_end words fuel word ≡ some (word + length pointers)
unfolding environment_end
environment_end-EndsNull words zero word pointers e enough = absurd (omega arith)
environment_end-EndsNull words (suc fuel) word [] e enough = ground arith
environment_end-EndsNull words (suc fuel) word (p ∷ pointers) (is, real, rest) enough =
    ground (arith, environment_end-EndsNull words fuel (word + 1) pointers rest (omega arith))

-- On an initial stack, with fuel for each environment string and its null, and then for each pair and
-- the terminator, the walk finds the auxiliary vector, and each search from where it ends gives the value
-- of the first pair with the type, or none.
pub find_auxv-auxv_get :
    (words : ℕ → ℕ) (argv envp : List ℕ) (pairs : List (ℕ × ℕ)) (fuel search_fuel : ℕ)
    → InitialStack words argv envp pairs
    → length envp < fuel
    → length pairs < search_fuel
    → (start : ℕ) × (find_auxv words fuel ≡ some (some start))
      × ((type : ℕ) → auxv_get words type search_fuel start ≡ some (lookup pairs type))
unfolding find_auxv
find_auxv-auxv_get words argv envp pairs fuel search_fuel stack enough enough_pairs =
    let null_behind : words (1 + length argv) ≡ 0 = EndsNull-null words 1 argv stack.arguments in
    let first : 1 + length argv + 1 ≡ length argv + 2 = omega arith in
    let start : length argv + 2 + length envp + 1 ≡ length argv + length envp + 3 = omega arith in
    let small : ltb (2 ^ 31 - 1) (length argv) ≡ false = ground (arith, stack.fits) in
    let found =
      environment_end-EndsNull words fuel (length argv + 2) envp stack.environment enough in
    (
      length argv + length envp + 3,
      rw (stack.count, small, null_behind, first, found, start) refl,
      λ type.
          auxv_get-lookup words type (length argv + length envp + 3) pairs search_fuel stack.vector
            enough_pairs,
    )

-- The walk exits with 127 just if argc is above INT_MAX or the word behind the arguments is not null,
-- whatever the fuel.
pub find_auxv-exit_iff :
    (words : ℕ → ℕ) (fuel : ℕ)
    → (find_auxv words fuel ≡ some none) ↔ ((2 ^ 31 ≤ words 0) ⊎ (words (1 + words 0) ≢ 0))
unfolding find_auxv
find_auxv-exit_iff words fuel = elim (Option-cases (environment_end words fuel (1 + words 0 + 1))) [
  | inl e ↦ rw e (ground arith)
  | inr (end, e) ↦ rw e (ground arith)
]
