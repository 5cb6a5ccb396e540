-- ===== src/Start/Tests/Root.antt =====
-- A program with two constructors, which count their calls, and a main that returns the count.
use libuc.Prelude.{
  ℕ, ◌+◌, ◌*◌, ◌≡◌, ◌==◌, refl, arith, ℤ, pos, [], ◌∷◌, Option, none, some, if◌then◌else◌,
}
use libuc.Machine.{process_exits}
use libuc.Start.Walk.{EndsNull}
use libuc.Start.Root.{root_arguments, went_on, never_back, run_constructors, root_entry}
use libuc.Start.Root.Order.{Roots, root_entry-Roots}
use libuc.Start.Tests.{words, words-InitialStack}

abbrev constructors : ℕ → ℕ
constructors i = if i == 4 then 70 else if i == 5 then 72 else 99

-- The function at 99 does not come back.
abbrev call : ℕ → ℕ → Option ℕ
call f p = if f == 99 then none else some (p * 100 + f)

abbrev main : ℤ → ℕ → ℕ → ℕ → Option (ℤ × ℕ)
main argument_count argv envp p = some (argument_count, p + argv + envp)

root_entry_run :
    root_entry call main constructors 3 4 6 (root_arguments words 1024) 1
    ≡ went_on ((1024, process_exits (pos 1)), 17076)
unfolding root_entry run_constructors root_arguments
root_entry_run = refl

leaving_run : root_entry call main constructors 4 4 7 (root_arguments words 1024) 1 ≡ never_back
unfolding root_entry run_constructors root_arguments
leaving_run = refl

root_entry-Roots_example :
    ((root_arguments words 1024).argument_count ≡ pos 1)
    × EndsNull words (root_arguments words 1024).argv (80 ∷ [])
    × EndsNull words (root_arguments words 1024).envp (90 ∷ [])
    × ((root_arguments words 1024).fiber ≡ 1024)
    × Roots call main constructors 3 4 6 (70 ∷ 72 ∷ []) (root_arguments words 1024) 1
root_entry-Roots_example =
    root_entry-Roots call main constructors words (80 ∷ []) (90 ∷ []) ((3, 64) ∷ []) 1024
      words-InitialStack (70 ∷ 72 ∷ []) 3 4 6 1 (refl, (refl, tt)) refl (ground arith)
