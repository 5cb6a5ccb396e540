-- ===== src/Arch/Aarch64/Transfer.antt =====
-- What a switch saves and loads, and the way back.
use libuc.Prelude.{ℕ, ◌+◌, ◌≤◌, ◌≡◌, refl, ap, ◌∙◌, arith, List, [], ◌∷◌}
use libuc.Arch.Words.{Apart, Outside, same_object, store_words, store_words-Outside}
use libuc.Arch.Aarch64.{Cpu, Context, execute, switch_code, context_at}

-- The registers that a call preserves.
abbrev pub preserved : Cpu → Context
preserved c = record {
  x19 = c.x 19;
  x20 = c.x 20;
  x21 = c.x 21;
  x22 = c.x 22;
  x23 = c.x 23;
  x24 = c.x 24;
  x25 = c.x 25;
  x26 = c.x 26;
  x27 = c.x 27;
  x28 = c.x 28;
  fp = c.x 29;
  lr = c.x 30;
  stack = c.sp;
  d8 = c.d 8;
  d9 = c.d 9;
  d10 = c.d 10;
  d11 = c.d 11;
  d12 = c.d 12;
  d13 = c.d 13;
  d14 = c.d 14;
  d15 = c.d 15;
}

-- What a switch does: the code goes on at the return address that it has loaded.
pub record Switched (c : Cpu) (after : Cpu) : Type 0 where
  pub saved : context_at after.memory (c.x 0) ≡ preserved c
  pub loaded : preserved after ≡ context_at c.memory (c.x 1)
  pub goes_on : after.pc ≡ after.x 30
  pub token : after.x 0 ≡ c.x 2
  pub untouched : (w : ℕ) → Outside 168 (c.x 0) w → after.memory w ≡ c.memory w

words : Context → List ℕ
words r =
    r.x19 ∷ r.x20 ∷ r.x21 ∷ r.x22 ∷ r.x23 ∷ r.x24 ∷ r.x25 ∷ r.x26 ∷ r.x27 ∷ r.x28 ∷ r.fp ∷ r.lr
    ∷ r.stack ∷ r.d8 ∷ r.d9 ∷ r.d10 ∷ r.d11 ∷ r.d12 ∷ r.d13 ∷ r.d14 ∷ r.d15 ∷ []

context_at-store_words :
    (f : ℕ → ℕ) (a : ℕ) (r : Context) → context_at (store_words f a 0 (words r)) a ≡ r
unfolding words
context_at-store_words f a r = simp (same_object)

context_at_ext :
    (f g : ℕ → ℕ) (a : ℕ)
    → ((k : ℕ) → k + 8 ≤ 168 → f (a + k) ≡ g (a + k))
    → context_at f a ≡ context_at g a
context_at_ext f g a same = rw (
  same 0 (omega arith),
  same 8 (omega arith),
  same 16 (omega arith),
  same 24 (omega arith),
  same 32 (omega arith),
  same 40 (omega arith),
  same 48 (omega arith),
  same 56 (omega arith),
  same 64 (omega arith),
  same 72 (omega arith),
  same 80 (omega arith),
  same 88 (omega arith),
  same 96 (omega arith),
  same 104 (omega arith),
  same 112 (omega arith),
  same 120 (omega arith),
  same 128 (omega arith),
  same 136 (omega arith),
  same 144 (omega arith),
  same 152 (omega arith),
  same 160 (omega arith),
)

module _ (c : Cpu) (apart : Apart 168 (c.x 0) (c.x 1)) where
  memory-switch_code :
      (execute switch_code c).memory ≡ store_words c.memory (c.x 0) 0 (words (preserved c))
  unfolding switch_code words
  memory-switch_code = refl

  -- A switch between contexts that do not overlap saves the registers that a call preserves, the
  -- return address and the stack pointer among them, and goes on with those of the other context, at
  -- its return address, with the token as its result; it writes nothing else.
  pub switch_code-Switched : Switched c (execute switch_code c)
  unfolding switch_code words
  switch_code-Switched =
      let kept : (w : ℕ) → Outside 168 (c.x 0) w → (execute switch_code c).memory w ≡ c.memory w =
        λ w out.
          ap (λ f. f w) memory-switch_code
          ∙ store_words-Outside 168 (c.x 0) w out c.memory 0 (words (preserved c)) (ground arith) in
      record {
        saved =
            ap (λ f. context_at f (c.x 0)) memory-switch_code
            ∙ context_at-store_words c.memory (c.x 0) (preserved c);
        loaded =
            context_at_ext (execute switch_code c).memory c.memory (c.x 1)
              (λ k inside. kept (c.x 1 + k) (ground arith));
        goes_on = refl;
        token = refl;
        untouched = kept;
      }

-- A switch away that saves to a context, and a later one, from anywhere, that restores it while its
-- memory is as it was left: the first call returns the second one's token at its return address, with
-- the registers and the stack pointer that a call preserves, and every word of memory outside the
-- second one's context is as the other side left it.
pub switch_code-return :
    (c d : Cpu)
    → Apart 168 (c.x 0) (c.x 1)
    → Apart 168 (d.x 0) (c.x 0)
    → d.x 1 ≡ c.x 0
    → ((k : ℕ) → k + 8 ≤ 168 → d.memory (c.x 0 + k) ≡ (execute switch_code c).memory (c.x 0 + k))
    → (preserved (execute switch_code d) ≡ preserved c)
      × ((execute switch_code d).pc ≡ c.x 30)
      × ((execute switch_code d).x 0 ≡ d.x 2)
      × ((w : ℕ) → Outside 168 (d.x 0) w → (execute switch_code d).memory w ≡ d.memory w)
switch_code-return c d apart back_apart back kept =
    let away = switch_code-Switched c apart in
    let again = switch_code-Switched d (rw back back_apart) in
    let same : preserved (execute switch_code d) ≡ preserved c =
      again.loaded
      ∙ ap (context_at d.memory) back
      ∙ context_at_ext d.memory (execute switch_code c).memory (c.x 0) kept
      ∙ away.saved in
    (same, again.goes_on ∙ ap (λ r. r.lr) same, again.token, again.untouched)
