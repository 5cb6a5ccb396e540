-- ===== src/Start/Root.antt =====
-- src/start.c: what the root fiber runs, the constructors of the program and then its main.
pub mod Order
use libuc.Prelude.{ℕ, zero, suc, ◌+◌, ◌==◌, ℤ, to_signed, Option, none, some, if◌then◌else◌}
use libuc.Machine.{Ptr, Ask, process_exits}

-- `struct root_arguments`; the pointers are indexes of words of the initial stack.
pub record RootArguments : Type 0 where
  pub argv : ℕ
  pub envp : ℕ
  pub fiber : Ptr
  pub argument_count : ℤ

-- What `__libuc_start` makes of the stack and of the root.
unfoldable pub root_arguments : (words : ℕ → ℕ) → (root : Ptr) → RootArguments
root_arguments words root = record {
  argv = 1;
  envp = 1 + words 0 + 1;
  fiber = root;
  argument_count = to_signed 31 (words 0);
}

-- What becomes of code that calls the program: it goes on with a value, or a call never comes back.
pub data Ran (A : Type 0) : Type 0 where
  went_on : A → Ran A
  never_back : Ran A
  out_of_words : Ran A

-- The program's own code takes its state `P` from a call to its return, if it returns.
module _ {P : Type 0} (call : (function : ℕ) → P → Option P)
    (main : (argument_count : ℤ) → (argv envp : ℕ) → P → Option (ℤ × P)) where
  -- The loop over the constructors, whose addresses are the words from `init` to `end`; fuel bounds them.
  unfoldable pub run_constructors : (array : ℕ → ℕ) → (fuel init end : ℕ) → P → Ran P
  run_constructors array zero init end p = out_of_words
  run_constructors array (suc fuel) init end p =
      if init == end then went_on p else elim (call (array init) p) [
        | none ↦ never_back
        | some q ↦ run_constructors array fuel (init + 1) end q
      ]

  -- The request for the end of the process, by the fiber in the arguments.
  unfoldable pub root_entry :
      (array : ℕ → ℕ) → (fuel start end : ℕ) → RootArguments → P → Ran ((Ptr × Ask) × P)
  root_entry array fuel start end arguments p = elim (run_constructors array fuel start end p) [
    | out_of_words ↦ out_of_words
    | never_back ↦ never_back
    | went_on q ↦ elim (main arguments.argument_count arguments.argv arguments.envp q) [
      | none ↦ never_back
      | some (status, r) ↦ went_on ((arguments.fiber, process_exits status), r)
    ]
  ]
