-- ===== src/Arch/Aarch64/Tests.antt =====
-- Runs of the assembly on small machines.
use libuc.Prelude.{ℕ, ◌≡◌, refl, arith, inl, inr, update}
use libuc.Bits.{align_down}
use libuc.Arch.Words.{Outside}
use libuc.Arch.Aarch64.{Cpu, execute, switch_code, context_at, make_context}
use libuc.Arch.Aarch64.Transfer.{preserved, switch_code-return}

-- A fresh context at 0x2000, for the function 5 with the argument 6 on a stack that ends at 0x9018.
abbrev fresh : ℕ → ℕ
fresh = update (update (update (update (λ _. 0) 0x2000 5) 0x2008 6) 0x2058 0x300) 0x2060 0x9010

-- A call of the switch from 0x1000 to it; each register holds its number.
abbrev away : Cpu
away = record {
  x = update (update (λ n. n) 0 0x1000) 1 0x2000;
  d = λ n. n;
  sp = 0x8000;
  pc = 0x100;
  memory = fresh;
}

-- The call of the switch back.
abbrev back : Cpu
back = record (execute switch_code away) {
  x = update (update (update (λ n. n) 0 0x2000) 1 0x1000) 2 9;
}

switch_code-return_example :
    (preserved (execute switch_code back) ≡ preserved away)
    × ((execute switch_code back).pc ≡ 30)
    × ((execute switch_code back).x 0 ≡ 9)
    × ((w : ℕ) → Outside 168 0x2000 w → (execute switch_code back).memory w ≡ back.memory w)
switch_code-return_example =
    switch_code-return away back (inl (ground arith)) (inr (ground arith)) refl (λ _ _. refl)

fresh_made : context_at away.memory 0x2000 ≡ make_context 0x300 0x9018 5 6
unfolding make_context align_down
fresh_made = refl
