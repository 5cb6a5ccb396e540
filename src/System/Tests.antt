-- ===== src/System/Tests.antt =====
-- A mapping on aarch64.
use libuc.Prelude.{ℕ, ◌≡◌, arith, pos, negsuc, List, ◌∷◌}
use libuc.System.Wrappers.{aarch64, long, register, sys_mmap, sys_mmap-serve}

-- A kernel that gives back its third argument.
abbrev third_of : List ℕ → ℕ
third_of (a ∷ b ∷ c ∷ rest) = c
third_of _ = 0

sys_mmap-serve_example :
    sys_mmap aarch64 (λ number arguments. third_of arguments) 0 4096 (pos 3) (pos 34) (negsuc 0) 0
    ≡ long (register (pos 3))
sys_mmap-serve_example =
    sys_mmap-serve aarch64 (λ number arguments. third_of arguments) 0 4096 (pos 3) (pos 34)
      (negsuc 0) 0 (ground arith) (ground arith) (ground arith)
