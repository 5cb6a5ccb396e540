-- ===== src/Arch/X86.antt =====
-- src/arch/x86_64: the switch between two contexts, the entry of a fresh one, and the process entry,
-- as lists of instructions. The memory is one of 64-bit words at their byte addresses; objects do
-- not wrap round the address space.
pub mod Transfer
pub mod Entry
use libuc.Prelude.{ℕ, ◌+◌, ◌-◌, ◌%◌, ◌^◌, ◌==◌, List, [], ◌∷◌, if◌then◌else◌, update}
use libuc.Bits.{align_down}
use libuc.Machine.{Context}

pub data Reg : Type 0 where
  rax rbx rbp rdi rsi rdx rsp r12 r13 r14 r15 : Reg

pub record Cpu : Type 0 where
  pub rax_value : ℕ
  pub rbx_value : ℕ
  pub rbp_value : ℕ
  pub rdi_value : ℕ
  pub rsi_value : ℕ
  pub rdx_value : ℕ
  pub rsp_value : ℕ
  pub r12_value : ℕ
  pub r13_value : ℕ
  pub r14_value : ℕ
  pub r15_value : ℕ
  pub rip_value : ℕ
  pub memory : ℕ → ℕ

abbrev pub get : Cpu → Reg → ℕ
get c rax = c.rax_value
get c rbx = c.rbx_value
get c rbp = c.rbp_value
get c rdi = c.rdi_value
get c rsi = c.rsi_value
get c rdx = c.rdx_value
get c rsp = c.rsp_value
get c r12 = c.r12_value
get c r13 = c.r13_value
get c r14 = c.r14_value
get c r15 = c.r15_value

abbrev pub put : Cpu → Reg → ℕ → Cpu
put c rax v = record c { rax_value = v }
put c rbx v = record c { rbx_value = v }
put c rbp v = record c { rbp_value = v }
put c rdi v = record c { rdi_value = v }
put c rsi v = record c { rsi_value = v }
put c rdx v = record c { rdx_value = v }
put c rsp v = record c { rsp_value = v }
put c r12 v = record c { r12_value = v }
put c r13 v = record c { r13_value = v }
put c r14 v = record c { r14_value = v }
put c r15 v = record c { r15_value = v }

-- The instructions that the code uses, in the order of their operands there. `call` names the
-- address behind it, which it pushes.
pub data Instr : Type 0 where
  store : (source : Reg) → (offset : ℕ) → (base : Reg) → Instr
  load : (offset : ℕ) → (base destination : Reg) → Instr
  lea : (offset : ℕ) → (base destination : Reg) → Instr
  move : (source destination : Reg) → Instr
  move_low : (source destination : Reg) → Instr
  set : (value : ℕ) → (destination : Reg) → Instr
  clear : (destination : Reg) → Instr
  push : (value : ℕ) → Instr
  align : (destination : Reg) → Instr
  jump : (target : Reg) → Instr
  jump_at : (offset : ℕ) → (base : Reg) → Instr
  call : (target behind : ℕ) → Instr

-- A push.
abbrev pub pushed : Cpu → ℕ → Cpu
pushed c v =
    let top = (c.rsp_value + 2 ^ 64 - 8) % 2 ^ 64 in
    record c { rsp_value = top; memory = update c.memory top v }

abbrev pub step : Cpu → Instr → Cpu
step c (store source offset base) = record c {
  memory = update c.memory (get c base + offset) (get c source);
}
step c (load offset base destination) = put c destination (c.memory (get c base + offset))
step c (lea offset base destination) = put c destination ((get c base + offset) % 2 ^ 64)
step c (move source destination) = put c destination (get c source)
step c (move_low source destination) = put c destination (get c source % 2 ^ 32)
step c (set value destination) = put c destination value
step c (clear destination) = put c destination 0
step c (push value) = pushed c value
step c (align destination) = put c destination (align_down (get c destination) 16)
step c (jump target) = record c { rip_value = get c target }
step c (jump_at offset base) = record c { rip_value = c.memory (get c base + offset) }
step c (call target behind) = record (pushed c behind) { rip_value = target }

abbrev pub execute : List Instr → Cpu → Cpu
execute [] c = c
execute (i ∷ rest) c = execute rest (step c i)

-- `fiber_switch`; the offsets are those of `struct fiber_context`.
unfoldable pub fiber_switch : List Instr
fiber_switch =
    store rbx 0 rdi
    ∷ store rbp 8 rdi
    ∷ store r12 16 rdi
    ∷ store r13 24 rdi
    ∷ store r14 32 rdi
    ∷ store r15 40 rdi
    ∷ load 0 rsp rax
    ∷ store rax 56 rdi
    ∷ lea 8 rsp rax
    ∷ store rax 48 rdi
    ∷ load 0 rsi rbx
    ∷ load 8 rsi rbp
    ∷ load 16 rsi r12
    ∷ load 24 rsi r13
    ∷ load 32 rsi r14
    ∷ load 40 rsi r15
    ∷ load 48 rsi rsp
    ∷ move rdx rax
    ∷ jump_at 56 rsi
    ∷ []

-- `fiber_start`
unfoldable pub fiber_start_code : List Instr
fiber_start_code = clear rbp ∷ push 0 ∷ move r13 rdi ∷ jump r12 ∷ []

-- `_start` up to its call of `__libuc_start`, and behind it, up to the system call.
unfoldable pub start_code : (libuc_start behind : ℕ) → List Instr
start_code libuc_start behind = clear rbp ∷ move rsp rdi ∷ align rsp ∷ call libuc_start behind ∷ []

-- __NR_exit_group
abbrev pub exit_group : ℕ
exit_group = 231

unfoldable pub exit_code : List Instr
exit_code = move_low rax rdi ∷ set exit_group rax ∷ []

-- A `struct fiber_context` in memory.
abbrev pub context_at : (ℕ → ℕ) → ℕ → Context
context_at memory a = record {
  rbx = memory (a + 0);
  rbp = memory (a + 8);
  r12 = memory (a + 16);
  r13 = memory (a + 24);
  r14 = memory (a + 32);
  r15 = memory (a + 40);
  rsp = memory (a + 48);
  rip = memory (a + 56);
}
