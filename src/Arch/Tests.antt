-- ===== src/Arch/Tests.antt =====
-- Runs of the assembly on small machines.
use libuc.Prelude.{ℕ, ◌+◌, ◌%◌, ◌^◌, ◌≡◌, refl, arith, inl, inr, update}
use libuc.Bits.{align_down}
use libuc.Fiber.{context_make, fiber_start}
use libuc.Arch.Words.{Outside}
use libuc.Arch.X86.{
  Cpu, execute, fiber_switch, fiber_start_code, start_code, exit_code, exit_group, context_at,
}
use libuc.Arch.X86.Transfer.{preserved, running, fiber_switch-return}
use libuc.Arch.X86.Entry.{Called, fiber_start_code-Called, start_code-Called}

-- A fresh context at 0x2000, for the function 5 with the argument 6 on a stack that ends at 0x9018.
abbrev fresh : ℕ → ℕ
fresh =
    update (update (update (update (λ _. 0) 0x2010 5) 0x2018 6) 0x2030 0x9010) 0x2038 fiber_start

-- A call of the switch from 0x1000 to it.
abbrev away : Cpu
away = record {
  rax_value = 1;
  rbx_value = 2;
  rbp_value = 3;
  rdi_value = 0x1000;
  rsi_value = 0x2000;
  rdx_value = 0;
  rsp_value = 0x8000;
  r12_value = 4;
  r13_value = 5;
  r14_value = 6;
  r15_value = 7;
  rip_value = 0x100;
  memory = update fresh 0x8000 0x4444;
}

-- The call of the switch back.
abbrev back : Cpu
back = record (execute fiber_switch away) {
  rdi_value = 0x2000;
  rsi_value = 0x1000;
  rdx_value = 9;
  rsp_value = 0x9000;
}

fiber_switch-return_example :
    (running (execute fiber_switch back) ≡ preserved away)
    × ((execute fiber_switch back).rax_value ≡ 9)
    × ((w : ℕ) → Outside 64 0x2000 w → (execute fiber_switch back).memory w ≡ back.memory w)
fiber_switch-return_example =
    fiber_switch-return away back (inl (ground arith)) (inr (ground arith)) (inr (ground arith))
      (inr (ground arith)) refl (λ _ _. refl)

fresh_made : context_at away.memory 0x2000 ≡ context_make 0x9018 5 6
unfolding context_make align_down
fresh_made = refl

fiber_start_code-Called_example :
    ((execute fiber_switch away).rip_value ≡ fiber_start)
    × Called (execute fiber_start_code (execute fiber_switch away)) 5 6 0
fiber_start_code-Called_example =
    fiber_start_code-Called away 0x9018 5 6 (inl (ground arith)) (inr (ground arith)) (ground arith)
      (ground arith) fresh_made

start_code-Called_example :
    Called (execute (start_code 0x700 0x800) away) 0x700 0x8000 0x800
    × ((k : ℕ)
        → (execute (start_code 0x700 0x800) away).memory (0x8000 + k) ≡ away.memory (0x8000 + k))
    × ((d : Cpu)
        → ((execute exit_code d).rax_value ≡ exit_group)
          × ((execute exit_code d).rdi_value ≡ d.rax_value % 2 ^ 32))
start_code-Called_example = start_code-Called away 0x700 0x800 (ground arith) (ground arith)
