-- ===== src/Arch/X86/Transfer.antt =====
-- What a switch saves and loads, and the way back.
use libuc.Prelude.{ℕ, ◌+◌, ◌%◌, ◌^◌, ◌≤◌, ◌≡◌, refl, ap, ◌∙◌, arith, update}
use libuc.Arch.Words.{Apart, Outside, same_object}
use libuc.Machine.{Context}
use libuc.Arch.X86.{Cpu, execute, fiber_switch, context_at}

-- The registers that a call preserves, as it returns: the return address is off the stack.
abbrev pub preserved : Cpu → Context
preserved c = record {
  rbx = c.rbx_value;
  rbp = c.rbp_value;
  r12 = c.r12_value;
  r13 = c.r13_value;
  r14 = c.r14_value;
  r15 = c.r15_value;
  rsp = (c.rsp_value + 8) % 2 ^ 64;
  rip = c.memory c.rsp_value;
}

-- The registers that run on.
abbrev pub running : Cpu → Context
running c = record {
  rbx = c.rbx_value;
  rbp = c.rbp_value;
  r12 = c.r12_value;
  r13 = c.r13_value;
  r14 = c.r14_value;
  r15 = c.r15_value;
  rsp = c.rsp_value;
  rip = c.rip_value;
}

-- What a switch does.
pub record Switched (c : Cpu) (after : Cpu) : Type 0 where
  pub saved : context_at after.memory c.rdi_value ≡ preserved c
  pub loaded : running after ≡ context_at c.memory c.rsi_value
  pub token : after.rax_value ≡ c.rdx_value
  pub untouched : (w : ℕ) → Outside 64 c.rdi_value w → after.memory w ≡ c.memory w

-- The stores of a switch, in its order, the first six and all.
abbrev six_saved : (ℕ → ℕ) → ℕ → Context → ℕ → ℕ
six_saved f a x =
    update
      (update
        (update (update (update (update f (a + 0) x.rbx) (a + 8) x.rbp) (a + 16) x.r12) (a + 24)
          x.r13)
        (a + 32) x.r14)
      (a + 40) x.r15

abbrev all_saved : (ℕ → ℕ) → ℕ → Context → ℕ → ℕ
all_saved f a x = update (update (six_saved f a x) (a + 56) x.rip) (a + 48) x.rsp

six_saved-Outside :
    (f : ℕ → ℕ) (a : ℕ) (x : Context) (w : ℕ) → Outside 64 a w → six_saved f a x w ≡ f w
six_saved-Outside f a x w out = ground arith

all_saved-Outside :
    (f : ℕ → ℕ) (a : ℕ) (x : Context) (w : ℕ) → Outside 64 a w → all_saved f a x w ≡ f w
all_saved-Outside f a x w out =
    let first = six_saved-Outside f a x w out in
    let behind : all_saved f a x w ≡ six_saved f a x w = ground arith in behind ∙ first

context_at-all_saved : (f : ℕ → ℕ) (a : ℕ) (x : Context) → context_at (all_saved f a x) a ≡ x
context_at-all_saved f a x = simp (same_object)

context_at_ext :
    (f g : ℕ → ℕ) (a : ℕ)
    → ((k : ℕ) → k + 8 ≤ 64 → f (a + k) ≡ g (a + k))
    → context_at f a ≡ context_at g a
context_at_ext f g a same = rw (
  same 0 (omega arith),
  same 8 (omega arith),
  same 16 (omega arith),
  same 24 (omega arith),
  same 32 (omega arith),
  same 40 (omega arith),
  same 48 (omega arith),
  same 56 (omega arith),
)

module _ (c : Cpu) (apart : Apart 64 c.rdi_value c.rsi_value)
    (stack : Outside 64 c.rdi_value c.rsp_value) where
  all_saved-switch : (execute fiber_switch c).memory ≡ all_saved c.memory c.rdi_value (preserved c)
  unfolding fiber_switch
  all_saved-switch =
      let return_at : c.rsp_value + 0 ≡ c.rsp_value = omega arith in
      let return_word : six_saved c.memory c.rdi_value (preserved c) (c.rsp_value + 0)
          ≡ c.memory c.rsp_value =
        ap (six_saved c.memory c.rdi_value (preserved c)) return_at
        ∙ six_saved-Outside c.memory c.rdi_value (preserved c) c.rsp_value stack in
      ap (λ v. all_saved c.memory c.rdi_value (record (preserved c) { rip = v })) return_word

  -- A switch between contexts that do not overlap saves the registers that a call preserves, the
  -- stack pointer behind the return address and the return address, and goes on with those of the
  -- other context, with the token as its result; it writes nothing else.
  pub fiber_switch-Switched : Switched c (execute fiber_switch c)
  unfolding fiber_switch
  fiber_switch-Switched =
      let stored = all_saved-switch in
      let kept : (w : ℕ)
          → Outside 64 c.rdi_value w
          → (execute fiber_switch c).memory w ≡ c.memory w =
        λ w out.
          ap (λ f. f w) stored ∙ all_saved-Outside c.memory c.rdi_value (preserved c) w out in
      record {
        saved =
            ap (λ f. context_at f c.rdi_value) stored
            ∙ context_at-all_saved c.memory c.rdi_value (preserved c);
        loaded =
            context_at_ext (execute fiber_switch c).memory c.memory c.rsi_value
              (λ k inside. kept (c.rsi_value + k) (ground arith));
        token = refl;
        untouched = kept;
      }

-- A switch away that saves to a context, and a later one, from anywhere, that restores it while its
-- memory is as it was left: the first call returns the second one's token, with the registers that
-- a call preserves and the stack pointer behind its return address, and every word of memory
-- outside the second one's context is as the other side left it.
pub fiber_switch-return :
    (c d : Cpu)
    → Apart 64 c.rdi_value c.rsi_value
    → Outside 64 c.rdi_value c.rsp_value
    → Apart 64 d.rdi_value c.rdi_value
    → Outside 64 d.rdi_value d.rsp_value
    → d.rsi_value ≡ c.rdi_value
    → ((k : ℕ)
        → k + 8 ≤ 64
        → d.memory (c.rdi_value + k) ≡ (execute fiber_switch c).memory (c.rdi_value + k))
    → (running (execute fiber_switch d) ≡ preserved c)
      × ((execute fiber_switch d).rax_value ≡ d.rdx_value)
      × ((w : ℕ) → Outside 64 d.rdi_value w → (execute fiber_switch d).memory w ≡ d.memory w)
fiber_switch-return c d apart stack back_apart back_stack back kept =
    let away = fiber_switch-Switched c apart stack in
    let again = fiber_switch-Switched d (rw back back_apart) back_stack in
    (
      again.loaded
          ∙ ap (context_at d.memory) back
          ∙ context_at_ext d.memory (execute fiber_switch c).memory c.rdi_value kept
          ∙ away.saved,
      again.token,
      again.untouched,
    )
