-- ===== src/Memory/Tests.antt =====
-- Runs of the copy loops.
use libuc.Prelude.{ℕ, ◌≡◌, refl, arith, pos, negsuc, ◌==◌, ◌%◌, some, if◌then◌else◌}
use libuc.Memory.{memmove, memset}
use libuc.Memory.Compare.{
  memcmp, skip_blocks, reduce_or_xor, compare_words, compare_tail, scalar, load_le, bswap,
}
use libuc.Memory.Compare.Words.{compare_bytes}
use libuc.Memory.Compare.Lexicographic.{memcmp-compare_bytes}
use libuc.Memory.Copy.{moved, memmove-moved}

-- Each cell holds its address.
abbrev addresses : ℕ → ℕ
addresses a = a

memmove-moved_example : memmove addresses 2 0 3 4 ≡ moved addresses 2 0 3 4
memmove-moved_example = memmove-moved addresses 2 0 3 4

-- The byte that a fill with -2 leaves.
memset_run : memset addresses 4 (negsuc 1) 3 5 ≡ 254
unfolding memset
memset_run = refl

-- Strings that first differ in a byte of the third word: 65 bytes alike but for the one at 18.
abbrev text : ℕ → ℕ
text a = if a == 218 then 1 else a % 100 % 7

memcmp-compare_bytes_example : memcmp text 66 100 200 65 ≡ some (compare_bytes text 100 200 65)
memcmp-compare_bytes_example =
    memcmp-compare_bytes text (λ a. ground arith) 66 100 200 65 (ground arith)

memcmp_run : memcmp text 66 100 200 65 ≡ some (pos 1)
unfolding memcmp skip_blocks reduce_or_xor compare_words compare_tail scalar load_le bswap
memcmp_run = refl
