-- ===== src/Arch/Words.antt =====
-- Memory as 64-bit words at their byte addresses: how the addresses of two words compare.
use libuc.Prelude.{
  ℕ, ◌+◌, ◌≤◌, ◌≡◌, arith, ◌==◌, ◌⊎◌, update, List, [], ◌∷◌, length, ◌*◌, refl, ◌∙◌,
}

-- Two objects of a size that do not overlap.
abbrev pub Apart : ℕ → ℕ → ℕ → Type 0
Apart size a b = (a + size ≤ b) ⊎ (b + size ≤ a)

-- A word that is not in the object.
abbrev pub Outside : ℕ → ℕ → ℕ → Type 0
Outside size a w = (w + 8 ≤ a) ⊎ (a + size ≤ w)

-- Two words of one object.
pub same_object : (a i j : ℕ) → ((a + j) == (a + i)) ≡ (j == i)
same_object a i j = ground arith

-- Words stored one behind the other, from an offset.
abbrev pub store_words : (ℕ → ℕ) → (a i : ℕ) → List ℕ → ℕ → ℕ
store_words f a i [] = f
store_words f a i (v ∷ rest) = store_words (update f (a + i) v) a (i + 8) rest

pub store_words-Outside :
    (size a w : ℕ)
    → Outside size a w
    → (f : ℕ → ℕ) (i : ℕ) (words : List ℕ) → i + 8 * length words ≤ size
    → store_words f a i words w ≡ f w
store_words-Outside size a w out f i [] fits = refl
store_words-Outside size a w out f i (v ∷ rest) fits =
    let first : update f (a + i) v w ≡ f w = ground arith in
    store_words-Outside size a w out (update f (a + i) v) (i + 8) rest (omega arith) ∙ first
