-- ===== src/Arch/X86/Entry.antt =====
-- A fresh context's first steps, and the process entry.
use libuc.Prelude.{ℕ, ◌+◌, ◌-◌, ◌%◌, ◌^◌, ◌≤◌, ◌<◌, ◌≡◌, refl, ap, ◌∙◌, arith, update}
use libuc.Bits.{align_down}
use libuc.Bits.Align.{align_down_bounds}
use libuc.Fiber.{context_make, fiber_start}
use libuc.Arch.Words.{Apart, Outside}
use libuc.Arch.X86.{
  Cpu, execute, fiber_switch, fiber_start_code, start_code, exit_code, exit_group, context_at,
}
use libuc.Arch.X86.Transfer.{fiber_switch-Switched, running}

-- A push on an aligned stack that is not empty.
pushed_top :
    (stack_top : ℕ)
    → 32 ≤ stack_top
    → stack_top < 2 ^ 64
    → ((align_down stack_top 16 + 2 ^ 64 - 8) % 2 ^ 64 % 16 ≡ 8)
      × ((align_down stack_top 16 + 2 ^ 64 - 8) % 2 ^ 64 < stack_top)
pushed_top stack_top low high =
    let bounds = align_down_bounds 4 stack_top (omega arith) high in
    (omega (arith, bounds), omega (arith, bounds))

update_at : (f : ℕ → ℕ) (a v : ℕ) → update f a v a ≡ v
update_at f a v = ground arith

update_above : (f : ℕ → ℕ) (a v b k : ℕ) → a < b → update f a v (b + k) ≡ f (b + k)
update_above f a v b k lt = ground arith

-- What a called function finds.
pub record Called (c : Cpu) (function : ℕ) (argument : ℕ) (behind : ℕ) : Type 0 where
  pub runs : c.rip_value ≡ function
  pub with_argument : c.rdi_value ≡ argument
  pub no_frame : c.rbp_value ≡ 0
  pub parity : c.rsp_value % 16 ≡ 8
  pub return_address : c.memory c.rsp_value ≡ behind

-- A switch to a context that `fiber_context_make` has built, and the code of fiber_start behind it,
-- run the function with its argument, in no frame, with the parity of the stack that a called function
-- finds, its return address 0.
pub fiber_start_code-Called :
    (c : Cpu) (stack_top function argument : ℕ)
    → Apart 64 c.rdi_value c.rsi_value
    → Outside 64 c.rdi_value c.rsp_value
    → 32 ≤ stack_top
    → stack_top < 2 ^ 64
    → context_at c.memory c.rsi_value ≡ context_make stack_top function argument
    → ((execute fiber_switch c).rip_value ≡ fiber_start)
      × Called (execute fiber_start_code (execute fiber_switch c)) function argument 0
unfolding fiber_start_code context_make
fiber_start_code-Called c stack_top function argument apart stack low high made =
    let switched = fiber_switch-Switched c apart stack in
    let now : running (execute fiber_switch c) ≡ context_make stack_top function argument =
      switched.loaded ∙ made in
    let top : (execute fiber_switch c).rsp_value ≡ align_down stack_top 16 = ap (λ x. x.rsp) now in
    (
      ap (λ x. x.rip) now,
      record {
        runs = ap (λ x. x.r12) now;
        with_argument = ap (λ x. x.r13) now;
        no_frame = refl;
        parity = rw top (pushed_top stack_top low high).0;
        return_address =
            update_at (execute fiber_switch c).memory
              (((execute fiber_switch c).rsp_value + 2 ^ 64 - 8) % 2 ^ 64) 0;
      },
    )

-- The process entry calls `__libuc_start` with the initial stack as its argument, in no frame, with
-- the parity of the stack that a called function finds and the words of the initial stack as the
-- kernel left them; behind the call the system call is exit_group with the low 32 bits of the result.
pub start_code-Called :
    (c : Cpu) (libuc_start behind : ℕ)
    → 32 ≤ c.rsp_value
    → c.rsp_value < 2 ^ 64
    → Called (execute (start_code libuc_start behind) c) libuc_start c.rsp_value behind
      × ((k : ℕ)
          → (execute (start_code libuc_start behind) c).memory (c.rsp_value + k)
            ≡ c.memory (c.rsp_value + k))
      × ((d : Cpu)
          → ((execute exit_code d).rax_value ≡ exit_group)
            × ((execute exit_code d).rdi_value ≡ d.rax_value % 2 ^ 32))
unfolding start_code exit_code
start_code-Called c libuc_start behind low high =
    let push = pushed_top c.rsp_value low high in
    (
      record {
        runs = refl;
        with_argument = refl;
        no_frame = refl;
        parity = push.0;
        return_address =
            update_at c.memory ((align_down c.rsp_value 16 + 2 ^ 64 - 8) % 2 ^ 64) behind;
      },
      λ k.
          update_above c.memory ((align_down c.rsp_value 16 + 2 ^ 64 - 8) % 2 ^ 64) behind
            c.rsp_value k push.1,
      λ d. (refl, refl),
    )
