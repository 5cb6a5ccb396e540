-- ===== src/Arch/Aarch64/Entry.antt =====
-- A fresh context's first steps, and the process entry.
use libuc.Prelude.{ℕ, ◌+◌, ◌%◌, ◌^◌, ◌≤◌, ◌<◌, ◌≡◌, refl, ap, ◌∙◌, arith}
use libuc.Bits.{align_down}
use libuc.Bits.Align.{align_down_bounds}
use libuc.Arch.Words.{Apart}
use libuc.Arch.Aarch64.{
  Cpu, execute, switch_code, fresh_code, entry_code, leave_code, exit_group, context_at,
  make_context,
}
use libuc.Arch.Aarch64.Transfer.{preserved, switch_code-Switched}

-- What a called function finds.
pub record Called (c : Cpu) (function : ℕ) (argument : ℕ) (behind : ℕ) (stack_top : ℕ)
    : Type 0 where
  pub runs : c.pc ≡ function
  pub with_argument : c.x 0 ≡ argument
  pub no_frame : c.x 29 ≡ 0
  pub parity : c.sp % 16 ≡ 0
  pub near : (c.sp ≤ stack_top) × (stack_top < c.sp + 16)
  pub return_address : c.x 30 ≡ behind

-- A switch to a context that `fiber_context_make` has built goes to fiber_start, whose code runs the
-- function with its argument, in no frame, on an aligned stack below the top, with the return
-- address 0 and memory as the switch left it.
pub fresh_code-Called :
    (c : Cpu) (fiber_start stack_top function argument : ℕ)
    → Apart 168 (c.x 0) (c.x 1)
    → stack_top < 2 ^ 64
    → context_at c.memory (c.x 1) ≡ make_context fiber_start stack_top function argument
    → ((execute switch_code c).pc ≡ fiber_start)
      × Called (execute fresh_code (execute switch_code c)) function argument 0 stack_top
unfolding fresh_code make_context
fresh_code-Called c fiber_start stack_top function argument apart high made =
    let switched = switch_code-Switched c apart in
    let now : preserved (execute switch_code c)
        ≡ make_context fiber_start stack_top function argument =
      switched.loaded ∙ made in
    let top : (execute switch_code c).sp ≡ align_down stack_top 16 = ap (λ r. r.stack) now in
    let bounds = align_down_bounds 4 stack_top (omega arith) high in
    (
      switched.goes_on ∙ ap (λ r. r.lr) now,
      record {
        runs = ap (λ r. r.x19) now;
        with_argument = ap (λ r. r.x20) now;
        no_frame = refl;
        parity = rw top bounds.0;
        near = rw top (bounds.1, bounds.2);
        return_address = refl;
      },
    )

-- The process entry calls `__libuc_start` with the initial stack as its argument, in no frame, on an
-- aligned stack that leaves the initial one as it is; behind the call the system call is exit_group with
-- the result as its argument.
pub entry_code-Called :
    (c : Cpu) (libuc_start behind : ℕ)
    → c.sp < 2 ^ 64
    → Called (execute (entry_code libuc_start behind) c) libuc_start c.sp behind c.sp
      × ((execute (entry_code libuc_start behind) c).memory ≡ c.memory)
      × ((d : Cpu)
          → ((execute leave_code d).x 8 ≡ exit_group) × ((execute leave_code d).x 0 ≡ d.x 0))
unfolding entry_code leave_code
entry_code-Called c libuc_start behind high =
    let bounds = align_down_bounds 4 c.sp (omega arith) high in
    (
      record {
        runs = refl;
        with_argument = refl;
        no_frame = refl;
        parity = bounds.0;
        near = (bounds.1, bounds.2);
        return_address = refl;
      },
      refl,
      λ d. (refl, refl),
    )
