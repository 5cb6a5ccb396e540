-- ===== src/Start/Root/Order.antt =====
-- In which order the root fiber calls the program, and with what.
use libuc.Prelude.{
  ℕ, zero, suc, ◌+◌, ◌<◌, ◌≡◌, ◌==◌, false, refl, ap, arith, ℤ, pos, to_signed, List, [], ◌∷◌, ◌++◌,
  length, Option, none, some, Option-cases, inl, inr,
}
use libuc.Machine.{Ptr, process_exits}
use libuc.Start.Walk.{EndsNull, InitialStack}
use libuc.Start.Root.{
  RootArguments, root_arguments, went_on, never_back, run_constructors, root_entry,
}

-- The words from here on are these.
abbrev pub Holds : (array : ℕ → ℕ) → (word : ℕ) → List ℕ → Type 0
Holds array word [] = Unit
Holds array word (f ∷ functions) = (array word ≡ f) × Holds array (word + 1) functions

module _ {P : Type 0} (call : (function : ℕ) → P → Option P) where
  -- Each of these functions was called, in this order, and came back.
  pub data Called : List ℕ → P → P → Type 0 where
    none_left : {p : P} → Called [] p p
    then_rest :
        {f : ℕ} {functions : List ℕ} {p q r : P}
        → call f p ≡ some q
        → Called functions q r
        → Called (f ∷ functions) p r

  -- The first function that did not come back; those before it did.
  pub record Stopped (functions : List ℕ) (p : P) : Type 0 where
    pub before : List ℕ
    pub stopper : ℕ
    pub after : List ℕ
    pub state : P
    pub in_order : functions ≡ before ++ stopper ∷ after
    pub called : Called before p state
    pub stops : call stopper state ≡ none

  rest-Stopped :
      {f : ℕ} {functions : List ℕ} {p q : P}
      → call f p ≡ some q
      → Stopped functions q
      → Stopped (f ∷ functions) p
  rest-Stopped {f} e s = record {
    before = f ∷ s.before;
    stopper = s.stopper;
    after = s.after;
    state = s.state;
    in_order = ap (λ rest. f ∷ rest) s.in_order;
    called = then_rest e s.called;
    stops = s.stops;
  }

-- What a fiber does with constructors and a main.
module _ {P : Type 0} (call : (function : ℕ) → P → Option P)
    (main : (argument_count : ℤ) → (argv envp : ℕ) → P → Option (ℤ × P)) (array : ℕ → ℕ) where
  data Constructs (fuel init end : ℕ) (functions : List ℕ) (p : P) : Type 0 where
    leaves :
        Stopped call functions p
        → run_constructors call main array fuel init end p ≡ never_back
        → Constructs fuel init end functions p
    constructs :
        (q : P)
        → Called call functions p q
        → run_constructors call main array fuel init end p ≡ went_on q
        → Constructs fuel init end functions p

  module _ (f fuel init end : ℕ) (functions : List ℕ) (p : P) (is : array init ≡ f)
      (more : (init == end) ≡ false) where
    first_leaves : call f p ≡ none → Constructs (suc fuel) init end (f ∷ functions) p
    unfolding run_constructors
    first_leaves e =
        leaves
          (record {
            before = [];
            stopper = f;
            after = functions;
            state = p;
            in_order = refl;
            called = none_left;
            stops = e;
          })
          (rw (more, is, e) refl)

    first_returns :
        (q : P)
        → call f p ≡ some q
        → Constructs fuel (init + 1) end functions q
        → Constructs (suc fuel) init end (f ∷ functions) p
    unfolding run_constructors
    first_returns q e (leaves stopped rest) =
        leaves (rest-Stopped call e stopped) (rw (more, is, e) rest)
    first_returns q e (constructs r called rest) =
        constructs r (then_rest e called) (rw (more, is, e) rest)

  run_constructors-Constructs :
      (functions : List ℕ) (fuel init end : ℕ) (p : P)
      → Holds array init functions
      → end ≡ init + length functions
      → length functions < fuel
      → Constructs fuel init end functions p
  unfolding run_constructors
  run_constructors-Constructs functions zero init end p h e enough = absurd (omega arith)
  run_constructors-Constructs [] (suc fuel) init end p h e enough =
      constructs p none_left (ground arith)
  run_constructors-Constructs (f ∷ functions) (suc fuel) init end p (is, h) e enough =
      let more : (init == end) ≡ false = ground arith in
      elim (Option-cases (call f p)) [
        | inl left ↦ first_leaves f fuel init end functions p is more left
        | inr (q, back) ↦ first_returns f fuel init end functions p is more q back (
            run_constructors-Constructs functions fuel (init + 1) end q h (omega arith)
              (omega arith))
      ]

  -- How the root fiber ends: in a constructor, in main, or with the end of the process.
  pub data Roots (fuel start end : ℕ) (functions : List ℕ) (arguments : RootArguments) (p : P)
      : Type 0 where
    constructor_leaves :
        Stopped call functions p
        → root_entry call main array fuel start end arguments p ≡ never_back
        → Roots fuel start end functions arguments p
    main_leaves :
        (q : P)
        → Called call functions p q
        → main arguments.argument_count arguments.argv arguments.envp q ≡ none
        → root_entry call main array fuel start end arguments p ≡ never_back
        → Roots fuel start end functions arguments p
    process_ends :
        (q r : P) (status : ℤ)
        → Called call functions p q
        → main arguments.argument_count arguments.argv arguments.envp q ≡ some (status, r)
        → root_entry call main array fuel start end arguments p
          ≡ went_on ((arguments.fiber, process_exits status), r)
        → Roots fuel start end functions arguments p

  Constructs-Roots :
      (fuel start end : ℕ) (functions : List ℕ) (arguments : RootArguments) (p : P)
      → Constructs fuel start end functions p
      → Roots fuel start end functions arguments p
  unfolding root_entry
  Constructs-Roots fuel start end functions arguments p (leaves stopped e) =
      constructor_leaves stopped (rw (root_entry, e) refl)
  Constructs-Roots fuel start end functions arguments p (constructs q called e) =
      elim (Option-cases (main arguments.argument_count arguments.argv arguments.envp q)) [
        | inl none_back ↦ main_leaves q called none_back (rw (root_entry, e, none_back) refl)
        | inr ((status, r), back) ↦
            process_ends q r status called back (rw (root_entry, e, back) refl)
      ]

  -- On an initial stack, and with fuel for each constructor and the end, the arguments of the root have
  -- the count of the program's arguments, and point to them and to the environment, each with its null.
  -- The root fiber calls the constructors in the order of the array, as long as they come back, then main
  -- with these arguments; if main comes back, the fiber of the arguments asks for the end of the
  -- process with main's status.
  pub root_entry-Roots :
      (words : ℕ → ℕ) (argv envp : List ℕ) (pairs : List (ℕ × ℕ)) (root : Ptr)
      → InitialStack words argv envp pairs
      → (functions : List ℕ) (fuel start end : ℕ) (p : P) → Holds array start functions
      → end ≡ start + length functions
      → length functions < fuel
      → (root_arguments words root).argument_count ≡ pos (length argv)
        × EndsNull words (root_arguments words root).argv argv
        × EndsNull words (root_arguments words root).envp envp
        × ((root_arguments words root).fiber ≡ root)
        × Roots fuel start end functions (root_arguments words root) p
  unfolding root_arguments
  root_entry-Roots words argv envp pairs root stack functions fuel start end p h e enough =
      let count : to_signed 31 (words 0) ≡ pos (length argv) =
        ground (arith, stack.count, stack.fits) in
      let environment : 1 + words 0 + 1 ≡ length argv + 2 = omega (arith, stack.count) in
      (
        count,
        stack.arguments,
        rw environment stack.environment,
        refl,
        Constructs-Roots fuel start end functions (root_arguments words root) p
            (run_constructors-Constructs functions fuel start end p h e enough),
      )
