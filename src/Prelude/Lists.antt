-- ===== src/Prelude/Lists.antt =====
-- Lists measured by native numbers, and arrays as functions of the index.
use Prim.Native.Nat.{ℕ, zero, suc, ◌+◌, ◌-◌, ◌≤◌, ◌<◌}
use mathlib.Core.Path.{◌≡◌, refl, ap, ap₂, sym, ◌∙◌}
use mathlib.Core.List.{List, [], ◌∷◌, ◌++◌}
use native.Mathlib.Omega.{arith}
use libuc.Prelude.Tests.{◌==◌, if◌then◌else◌}

module _ {ℓ} {A : Type ℓ} where
  abbrev pub length : List A → ℕ
  length [] = 0
  length (x ∷ xs) = suc (length xs)

  pub length-append : (xs ys : List A) → length (xs ++ ys) ≡ length xs + length ys
  length-append [] ys = omega arith
  length-append (x ∷ xs) ys = omega (arith, length-append xs ys)

  -- A write to one cell of an array.
  abbrev pub update : (ℕ → A) → ℕ → A → ℕ → A
  update f i a j = if j == i then a else f j

  -- The cells `f i`, ..., `f (i + n - 1)`.
  unfoldable pub slice : (ℕ → A) → ℕ → ℕ → List A
  slice f i zero = []
  slice f i (suc n) = f i ∷ slice f (i + 1) n

module _ {ℓ} {A : Type ℓ} where
  pub length-slice : (f : ℕ → A) (i n : ℕ) → length (slice f i n) ≡ n
  unfolding slice
  length-slice f i zero = refl
  length-slice f i (suc n) = ap suc (length-slice f (i + 1) n)

  -- Two arrays that agree on the cells of a slice have the same slice there.
  pub slice_ext :
      (f g : ℕ → A) (i j n : ℕ)
      → ((k : ℕ) → k < n → f (i + k) ≡ g (j + k))
      → slice f i n ≡ slice g j n
  unfolding slice
  slice_ext f g i j zero h = refl
  slice_ext f g i j (suc n) h =
      let at_i : f i ≡ f (i + 0) = ap f (omega arith) in
      let at_j : g (j + 0) ≡ g j = ap g (omega arith) in
      ap₂ ◌∷◌ (at_i ∙ h 0 (omega arith) ∙ at_j) (
        slice_ext f g (i + 1) (j + 1) n λ k lt.
          let next_i : i + 1 + k ≡ i + (k + 1) = omega arith in
          let next_j : j + (k + 1) ≡ j + 1 + k = omega arith in
          ap f next_i ∙ h (k + 1) (omega arith) ∙ ap g next_j)

  -- A slice moved to the start of another array.
  pub slice_shift :
      (f g : ℕ → A) (i n : ℕ) → ((k : ℕ) → k < n → g k ≡ f (i + k)) → slice g 0 n ≡ slice f i n
  slice_shift f g i n same =
      slice_ext g f 0 i n λ k lt. let start : 0 + k ≡ k = omega arith in ap g start ∙ same k lt

  pub slice-append :
      (f : ℕ → A) (i m n k : ℕ) → i + m ≡ k → slice f i m ++ slice f k n ≡ slice f i (m + n)
  unfolding slice
  slice-append f i zero n k e =
      let start : k ≡ i = omega arith in
      let size : n ≡ 0 + n = omega arith in ap (λ j. slice f j n) start ∙ ap (slice f i) size
  slice-append f i (suc m) n k e =
      let size : suc (m + n) ≡ suc m + n = omega arith in
      ap (λ l. f i ∷ l) (slice-append f (i + 1) m n k (omega arith)) ∙ ap (slice f i) size

module _ {A : Type 0} where
  -- Writing the cell behind a slice extends it.
  pub slice-update :
      (f : ℕ → A) (n : ℕ) (v : A) → slice (update f n v) 0 (n + 1) ≡ slice f 0 n ++ v ∷ []
  unfolding slice
  slice-update f n v =
      let cell : update f n v n ≡ v = ground arith in
      sym (slice-append (update f n v) 0 n 1 n (omega arith))
      ∙ ap₂ ◌++◌ (slice_ext (update f n v) f 0 0 n (λ k lt. ground arith)) (ap (λ c. c ∷ []) cell)

  -- A slice in two parts, the second moved to another array.
  pub slice-split :
      (f g : ℕ → A) (m n : ℕ)
      → m ≤ n
      → ((k : ℕ) → k < n - m → g k ≡ f (m + k))
      → slice f 0 m ++ slice g 0 (n - m) ≡ slice f 0 n
  slice-split f g m n le same =
      let size : m + (n - m) ≡ n = omega arith in
      ap (λ l. slice f 0 m ++ l) (slice_shift f g m (n - m) same)
      ∙ slice-append f 0 m (n - m) m (omega arith)
      ∙ ap (slice f 0) size
