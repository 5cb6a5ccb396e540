-- ===== src/Arch/Aarch64.antt =====
-- src/arch/aarch64: the switch between two contexts, the making and the entry of a fresh one, and the
-- process entry, as lists of instructions. The memory is one of 64-bit words at their byte addresses;
-- objects do not wrap round the address space.
pub mod Transfer
pub mod Entry
mod Tests
use libuc.Prelude.{ℕ, ◌+◌, ◌^◌, ◌%◌, ◌==◌, List, [], ◌∷◌, if◌then◌else◌, update}
use libuc.Bits.{align_down}

-- The registers x0 to x30 and d0 to d31 by their numbers, the stack pointer, the program counter and
-- the memory.
pub record Cpu : Type 0 where
  pub x : ℕ → ℕ
  pub d : ℕ → ℕ
  pub sp : ℕ
  pub pc : ℕ
  pub memory : ℕ → ℕ

-- The instructions that the code uses, with their operands in its order. `branch_link` names the
-- address behind it.
pub data Instr : Type 0 where
  stp : (first second base offset : ℕ) → Instr
  stp_d : (first second base offset : ℕ) → Instr
  str : (source base offset : ℕ) → Instr
  ldp : (first second base offset : ℕ) → Instr
  ldp_d : (first second base offset : ℕ) → Instr
  ldr : (destination base offset : ℕ) → Instr
  mov : (destination source : ℕ) → Instr
  mov_from_sp : (destination : ℕ) → Instr
  mov_to_sp : (source : ℕ) → Instr
  mov_zero : (destination : ℕ) → Instr
  set : (destination value : ℕ) → Instr
  and_sp : (source : ℕ) → Instr
  branch : (target : ℕ) → Instr
  branch_link : (target behind : ℕ) → Instr
  ret : Instr

abbrev pub step : Cpu → Instr → Cpu
step c (stp first second base offset) = record c {
  memory =
      update (update c.memory (c.x base + offset) (c.x first)) (c.x base + (offset + 8))
        (c.x second);
}
step c (stp_d first second base offset) = record c {
  memory =
      update (update c.memory (c.x base + offset) (c.d first)) (c.x base + (offset + 8))
        (c.d second);
}
step c (str source base offset) = record c {
  memory = update c.memory (c.x base + offset) (c.x source);
}
step c (ldp first second base offset) = record c {
  x =
      update (update c.x first (c.memory (c.x base + offset))) second
        (c.memory (c.x base + (offset + 8)));
}
step c (ldp_d first second base offset) = record c {
  d =
      update (update c.d first (c.memory (c.x base + offset))) second
        (c.memory (c.x base + (offset + 8)));
}
step c (ldr destination base offset) = record c {
  x = update c.x destination (c.memory (c.x base + offset));
}
step c (mov destination source) = record c { x = update c.x destination (c.x source) }
step c (mov_from_sp destination) = record c { x = update c.x destination c.sp }
step c (mov_to_sp source) = record c { sp = c.x source }
step c (mov_zero destination) = record c { x = update c.x destination 0 }
step c (set destination value) = record c { x = update c.x destination value }
step c (and_sp source) = record c { sp = align_down (c.x source) 16 }
step c (branch target) = record c { pc = c.x target }
step c (branch_link target behind) = record c { x = update c.x 30 behind; pc = target }
step c ret = record c { pc = c.x 30 }

abbrev pub execute : List Instr → Cpu → Cpu
execute [] c = c
execute (i ∷ rest) c = execute rest (step c i)

-- `fiber_switch`; the offsets are those of `struct fiber_context`.
unfoldable pub switch_code : List Instr
switch_code =
    stp 19 20 0 0
    ∷ stp 21 22 0 16
    ∷ stp 23 24 0 32
    ∷ stp 25 26 0 48
    ∷ stp 27 28 0 64
    ∷ stp 29 30 0 80
    ∷ mov_from_sp 3
    ∷ str 3 0 96
    ∷ stp_d 8 9 0 104
    ∷ stp_d 10 11 0 120
    ∷ stp_d 12 13 0 136
    ∷ stp_d 14 15 0 152
    ∷ ldp 19 20 1 0
    ∷ ldp 21 22 1 16
    ∷ ldp 23 24 1 32
    ∷ ldp 25 26 1 48
    ∷ ldp 27 28 1 64
    ∷ ldp 29 30 1 80
    ∷ ldr 3 1 96
    ∷ mov_to_sp 3
    ∷ ldp_d 8 9 1 104
    ∷ ldp_d 10 11 1 120
    ∷ ldp_d 12 13 1 136
    ∷ ldp_d 14 15 1 152
    ∷ mov 0 2
    ∷ ret
    ∷ []

-- `fiber_start`
unfoldable pub fresh_code : List Instr
fresh_code = mov_zero 29 ∷ mov_zero 30 ∷ mov 0 20 ∷ branch 19 ∷ []

-- `_start` up to its call of `__libuc_start`, and behind it, up to the system call.
unfoldable pub entry_code : (libuc_start behind : ℕ) → List Instr
entry_code libuc_start behind =
    mov_zero 29 ∷ mov_zero 30 ∷ mov_from_sp 0 ∷ and_sp 0 ∷ branch_link libuc_start behind ∷ []

-- __NR_exit_group
abbrev pub exit_group : ℕ
exit_group = 94

unfoldable pub leave_code : List Instr
leave_code = set 8 exit_group ∷ []

-- `struct fiber_context`
pub record Context : Type 0 where
  pub x19 : ℕ
  pub x20 : ℕ
  pub x21 : ℕ
  pub x22 : ℕ
  pub x23 : ℕ
  pub x24 : ℕ
  pub x25 : ℕ
  pub x26 : ℕ
  pub x27 : ℕ
  pub x28 : ℕ
  pub fp : ℕ
  pub lr : ℕ
  pub stack : ℕ
  pub d8 : ℕ
  pub d9 : ℕ
  pub d10 : ℕ
  pub d11 : ℕ
  pub d12 : ℕ
  pub d13 : ℕ
  pub d14 : ℕ
  pub d15 : ℕ

-- A `struct fiber_context` in memory.
abbrev pub context_at : (ℕ → ℕ) → ℕ → Context
context_at memory a = record {
  x19 = memory (a + 0);
  x20 = memory (a + 8);
  x21 = memory (a + 16);
  x22 = memory (a + 24);
  x23 = memory (a + 32);
  x24 = memory (a + 40);
  x25 = memory (a + 48);
  x26 = memory (a + 56);
  x27 = memory (a + 64);
  x28 = memory (a + 72);
  fp = memory (a + 80);
  lr = memory (a + 88);
  stack = memory (a + 96);
  d8 = memory (a + 104);
  d9 = memory (a + 112);
  d10 = memory (a + 120);
  d11 = memory (a + 128);
  d12 = memory (a + 136);
  d13 = memory (a + 144);
  d14 = memory (a + 152);
  d15 = memory (a + 160);
}

-- `fiber_context_make`
unfoldable pub make_context : (fiber_start stack_top function argument : ℕ) → Context
make_context fiber_start stack_top function argument = record {
  x19 = function;
  x20 = argument;
  x21 = 0;
  x22 = 0;
  x23 = 0;
  x24 = 0;
  x25 = 0;
  x26 = 0;
  x27 = 0;
  x28 = 0;
  fp = 0;
  lr = fiber_start;
  stack = align_down stack_top 16;
  d8 = 0;
  d9 = 0;
  d10 = 0;
  d11 = 0;
  d12 = 0;
  d13 = 0;
  d14 = 0;
  d15 = 0;
}
