-- ===== src/System/Wrappers.antt =====
-- src/syscall.h and both src/arch/*/syscall_arch.h: the registers of a system call, and the wrappers
-- that the library uses. A `long` is a signed integer; the kernel is a function of the registers that
-- it reads.
use libuc.Prelude.{ℕ, ◌^◌, ◌<◌, ◌≡◌, refl, ap, arith, ℤ, pos, List, [], ◌∷◌, to_signed, to_unsigned}

-- The two architectures.
pub data Arch : Type 0 where
  x86_64 aarch64 : Arch

-- The registers of x86-64 that a system call reads.
pub record X86Registers : Type 0 where
  pub rax : ℕ
  pub rdi : ℕ
  pub rsi : ℕ
  pub rdx : ℕ
  pub r10 : ℕ
  pub r8 : ℕ
  pub r9 : ℕ

-- Those of aarch64.
pub record AarchRegisters : Type 0 where
  pub x8 : ℕ
  pub x0 : ℕ
  pub x1 : ℕ
  pub x2 : ℕ
  pub x3 : ℕ
  pub x4 : ℕ
  pub x5 : ℕ

-- A `long` in a register, and back.
abbrev pub register : ℤ → ℕ
register = to_unsigned 64

abbrev pub long : ℕ → ℤ
long = to_signed 63

-- `__libuc_syscall2` of x86-64; the other registers are what they were.
unfoldable pub syscall2_x86 : (X86Registers → ℕ) → X86Registers → (number a0 a1 : ℤ) → ℤ
syscall2_x86 kernel before number a0 a1 =
    long (kernel (record before { rax = register number; rdi = register a0; rsi = register a1 }))

-- `__libuc_syscall6` of x86-64
unfoldable pub syscall6_x86 : (X86Registers → ℕ) → (number a0 a1 a2 a3 a4 a5 : ℤ) → ℤ
syscall6_x86 kernel number a0 a1 a2 a3 a4 a5 = long (
    kernel (record {
      rax = register number;
      rdi = register a0;
      rsi = register a1;
      rdx = register a2;
      r10 = register a3;
      r8 = register a4;
      r9 = register a5;
    }))

-- `__libuc_syscall2` of aarch64
unfoldable pub syscall2_aarch64 : (AarchRegisters → ℕ) → AarchRegisters → (number a0 a1 : ℤ) → ℤ
syscall2_aarch64 kernel before number a0 a1 =
    long (kernel (record before { x8 = register number; x0 = register a0; x1 = register a1 }))

-- `__libuc_syscall6` of aarch64
unfoldable pub syscall6_aarch64 : (AarchRegisters → ℕ) → (number a0 a1 a2 a3 a4 a5 : ℤ) → ℤ
syscall6_aarch64 kernel number a0 a1 a2 a3 a4 a5 = long (
    kernel (record {
      x8 = register number;
      x0 = register a0;
      x1 = register a1;
      x2 = register a2;
      x3 = register a3;
      x4 = register a4;
      x5 = register a5;
    }))

-- What a kernel does on the number and the arguments that its calling convention reads: the number in
-- rax or x8, the arguments in rdi, rsi, rdx, r10, r8, r9 or in x0 to x5.
abbrev pub Service : Type 0
Service = (number : ℕ) → List ℕ → ℕ

abbrev pub of_x86 : Service → X86Registers → ℕ
of_x86 serve r = serve r.rax (r.rdi ∷ r.rsi ∷ r.rdx ∷ r.r10 ∷ r.r8 ∷ r.r9 ∷ [])

abbrev pub of_aarch64 : Service → AarchRegisters → ℕ
of_aarch64 serve r = serve r.x8 (r.x0 ∷ r.x1 ∷ r.x2 ∷ r.x3 ∷ r.x4 ∷ r.x5 ∷ [])

-- The system call of an architecture, of six arguments, on such a kernel.
unfoldable pub syscall6 : Arch → Service → (number a0 a1 a2 a3 a4 a5 : ℤ) → ℤ
syscall6 x86_64 serve = syscall6_x86 (of_x86 serve)
syscall6 aarch64 serve = syscall6_aarch64 (of_aarch64 serve)

-- The system call of two arguments; the other registers are what they were.
unfoldable pub syscall2 : Arch → Service → X86Registers → AarchRegisters → (number a0 a1 : ℤ) → ℤ
syscall2 x86_64 serve x86 arm = syscall2_x86 (of_x86 serve) x86
syscall2 aarch64 serve x86 arm = syscall2_aarch64 (of_aarch64 serve) arm

-- The numbers of the calls.
abbrev pub nr_mmap : Arch → ℕ
nr_mmap x86_64 = 9
nr_mmap aarch64 = 222

abbrev pub nr_munmap : Arch → ℕ
nr_munmap x86_64 = 11
nr_munmap aarch64 = 215

abbrev pub nr_io_uring_setup : ℕ
nr_io_uring_setup = 425

abbrev pub nr_io_uring_enter : ℕ
nr_io_uring_enter = 426

-- `__libuc_sys_mmap`
unfoldable pub sys_mmap :
    Arch → Service → (address length : ℕ) → (protection flags descriptor : ℤ) → (offset : ℕ) → ℤ
sys_mmap arch serve address length protection flags descriptor offset =
    syscall6 arch serve (pos (nr_mmap arch)) (long address) (long length) protection flags
      descriptor (long offset)

-- `__libuc_sys_io_uring_enter`
unfoldable pub sys_io_uring_enter :
    Arch
    → Service
    → (descriptor : ℤ) → (to_submit min_complete flags argument argument_size : ℕ) → ℤ
sys_io_uring_enter arch serve descriptor to_submit min_complete flags argument argument_size =
    syscall6 arch serve (pos nr_io_uring_enter) descriptor (pos to_submit) (pos min_complete)
      (pos flags) (long argument) (long argument_size)

-- `__libuc_sys_munmap`
unfoldable pub sys_munmap :
    Arch → Service → X86Registers → AarchRegisters → (address length : ℕ) → ℤ
sys_munmap arch serve x86 arm address length =
    syscall2 arch serve x86 arm (pos (nr_munmap arch)) (long address) (long length)

-- `__libuc_sys_io_uring_setup`
unfoldable pub sys_io_uring_setup :
    Arch → Service → X86Registers → AarchRegisters → (entries params : ℕ) → ℤ
sys_io_uring_setup arch serve x86 arm entries params =
    syscall2 arch serve x86 arm (pos nr_io_uring_setup) (pos entries) (long params)

-- An `unsigned int` widens.
narrow : (a : ℕ) → a < 2 ^ 32 → register (pos a) ≡ a
narrow a small = omega arith

-- A word that travels as a `long` arrives.
register-long : (a : ℕ) → a < 2 ^ 64 → register (long a) ≡ a
register-long a small = ground arith

-- On both architectures an mmap reaches a kernel that reads by its calling convention with the six
-- arguments as they were, the three of 64 bits whatever their top bit, and returns the kernel's result
-- as a `long`.
pub sys_mmap-serve :
    (arch : Arch) (serve : Service) (address length : ℕ) (protection flags descriptor : ℤ)
    (offset : ℕ)
    → address < 2 ^ 64
    → length < 2 ^ 64
    → offset < 2 ^ 64
    → sys_mmap arch serve address length protection flags descriptor offset
      ≡ long (
          serve (nr_mmap arch) (
            address
            ∷ length
            ∷ register protection
            ∷ register flags
            ∷ register descriptor
            ∷ offset
            ∷ []))
unfolding sys_mmap syscall6 syscall6_x86 syscall6_aarch64
sys_mmap-serve x86_64 serve address length protection flags descriptor offset a l o =
    rw (register-long address a, register-long length l, register-long offset o) refl
sys_mmap-serve aarch64 serve address length protection flags descriptor offset a l o =
    rw (register-long address a, register-long length l, register-long offset o) refl

-- The same for an io_uring_enter, whose counts are of 32 bits.
pub sys_io_uring_enter-serve :
    (arch : Arch) (serve : Service) (descriptor : ℤ)
    (to_submit min_complete flags argument argument_size : ℕ)
    → to_submit < 2 ^ 32
    → min_complete < 2 ^ 32
    → flags < 2 ^ 32
    → argument < 2 ^ 64
    → argument_size < 2 ^ 64
    → sys_io_uring_enter arch serve descriptor to_submit min_complete flags argument argument_size
      ≡ long (
          serve nr_io_uring_enter (
            register descriptor ∷ to_submit ∷ min_complete ∷ flags ∷ argument ∷ argument_size ∷ []))
unfolding sys_io_uring_enter syscall6 syscall6_x86 syscall6_aarch64
sys_io_uring_enter-serve x86_64 serve descriptor to_submit min_complete flags argument argument_size
      s m f a l =
    rw
      (
        narrow to_submit s,
        narrow min_complete m,
        narrow flags f,
        register-long argument a,
        register-long argument_size l,
      )
      refl
sys_io_uring_enter-serve aarch64 serve descriptor to_submit min_complete flags argument
      argument_size s m f a l =
    rw
      (
        narrow to_submit s,
        narrow min_complete m,
        narrow flags f,
        register-long argument a,
        register-long argument_size l,
      )
      refl

-- The two calls of two arguments reach a service that reads no more of them, whatever the other
-- registers hold.
pub sys_two-serve :
    (arch : Arch) (serve : Service) (served : (number a0 a1 : ℕ) → ℕ) (x86 : X86Registers)
    (arm : AarchRegisters)
    → ((number a0 a1 : ℕ) (rest : List ℕ) → serve number (a0 ∷ a1 ∷ rest) ≡ served number a0 a1)
    → (first second : ℕ) → first < 2 ^ 64
    → second < 2 ^ 64
    → (sys_munmap arch serve x86 arm first second ≡ long (served (nr_munmap arch) first second))
      × (first < 2 ^ 32
          → sys_io_uring_setup arch serve x86 arm first second
            ≡ long (served nr_io_uring_setup first second))
unfolding sys_munmap sys_io_uring_setup syscall2 syscall2_x86 syscall2_aarch64
sys_two-serve x86_64 serve served x86 arm two first second f s = (
  rw (register-long first f, register-long second s) (ap long (two _ _ _ _)),
  λ small. rw (narrow first small, register-long second s) (ap long (two _ _ _ _)),
)
sys_two-serve aarch64 serve served x86 arm two first second f s = (
  rw (register-long first f, register-long second s) (ap long (two _ _ _ _)),
  λ small. rw (narrow first small, register-long second s) (ap long (two _ _ _ _)),
)
