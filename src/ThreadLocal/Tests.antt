-- ===== src/ThreadLocal/Tests.antt =====
-- Blocks and layouts of a small executable.
use libuc.Prelude.{
  ℕ, ◌+◌, ◌*◌, ◌%◌, ◌^◌, ◌<◌, ◌≤◌, ◌≡◌, refl, arith, ℤ, pos, Option, none, some, ◌==◌,
  if◌then◌else◌, update, true, false,
}
use libuc.Bits.{align_down, ckd, popcount}
use libuc.System.{syscall_failed}
use libuc.ThreadLocal.{
  ImageLayout, Header, Placement, LocalBlock, Store, created, place_x86_64, place_aarch64,
  initialize, create_in, block_create, install_available, thread_local_layout, read_layout,
  layout_of, scan, at_phdr, at_phnum, header_size,
}
use libuc.ThreadLocal.Place.{place_aarch64-PlacedAbove}
use libuc.ThreadLocal.Block.{IsLocalBlock, block_create-IsLocalBlock}
use libuc.ThreadLocal.Layout.{IsLayout, Declares, read_layout_lem}

abbrev image_layout : ImageLayout
image_layout = record { image = 100; image_size = 3; block_size = 10; alignment = 4 }

abbrev blank : Store
blank = record { bytes = λ a. a; tcbs = λ _. record { self = 0; fiber = 7 } }

abbrev mmap : ℕ → ℤ
mmap length = pos 4096

abbrev placed : Placement
placed = record { length = 32; block_offset = 4; tp_offset = 16 }

placed_run : place_x86_64 10 (2 ^ 2) ≡ some placed
unfolding place_x86_64 ckd align_down
placed_run = refl

abbrev placed_above : Placement
placed_above = record { length = 42; block_offset = 32; tp_offset = 0 }

placed_above_run : place_aarch64 10 (2 ^ 5) ≡ some placed_above
unfolding place_aarch64 ckd align_down
placed_above_run = refl

place_aarch64-PlacedAbove_example :
    (placed_above.tp_offset ≡ 0)
    × (placed_above.block_offset % 2 ^ 5 ≡ 0)
    × (16 ≤ placed_above.block_offset)
    × (placed_above.block_offset < 16 + 2 ^ 5)
    × (placed_above.length ≡ placed_above.block_offset + 10)
    × (placed_above.length < 2 ^ 64)
place_aarch64-PlacedAbove_example = place_aarch64-PlacedAbove 5 (ground arith) 10 placed_above_run

abbrev block : LocalBlock
block = record { mapping = 4096; mapping_length = 39; block = 4100; thread_pointer = 4112 }

abbrev behind : Store
behind = record {
  bytes = initialize image_layout 4100 blank.bytes;
  tcbs = update blank.tcbs 4112 (record { self = 4112; fiber = 0 });
}

created_run : block_create (some image_layout) place_x86_64 mmap blank ≡ created block behind
unfolding block_create create_in place_x86_64 ckd align_down syscall_failed
created_run = refl

block_create-IsLocalBlock_example : IsLocalBlock image_layout blank block behind
block_create-IsLocalBlock_example =
    block_create-IsLocalBlock 2 image_layout mmap blank (ground arith) refl created_run

-- An executable with two headers, the second the thread-local segment.
abbrev auxv : ℕ → Option ℕ
auxv type =
    if type == 3 then some 64 else if type == 4 then some 56 else if type == 5 then some 2 else none

abbrev segment : Header
segment = record { p_type = 7; p_vaddr = 100; p_filesz = 3; p_memsz = 10; p_align = 4 }

abbrev headers : ℕ → ℕ → Header
headers address i = record segment { p_type = if i == 1 then 7 else 1 }

read_run : read_layout auxv headers ≡ some image_layout
unfolding read_layout layout_of scan ckd popcount
read_run = refl

-- A later call returns what the first kept, whatever the vector says by then.
layout_run :
    thread_local_layout (some image_layout) (λ _. none) headers
    ≡ (some image_layout, some image_layout)
unfolding thread_local_layout
layout_run = refl

read_layout_lem_example :
    IsLayout image_layout
    × ((address : ℕ) × (count : ℕ) × (auxv at_phdr ≡ some address)
        × (auxv at_phnum ≡ some count)
        × (address + count * header_size < 2 ^ 64)
        × Declares (headers address) count image_layout)
read_layout_lem_example = read_layout_lem auxv headers (λ address i. ground arith) read_run

-- Without the capability word the thread register is not written.
install_run : (install_available (λ _. none) ≡ false) × (install_available (λ _. some 3) ≡ true)
unfolding install_available
install_run = (refl, refl)
