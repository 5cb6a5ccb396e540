-- ===== src/ThreadLocal.antt =====
-- src/thread_local: the executable's thread-local image, the placement of a block in a mapping, on
-- both architectures, and the creation of a block.
pub mod Place
pub mod Block
pub mod Layout
mod Tests
use Prim.Native.Nat.{bit_and}
use libuc.Prelude.{
  ℕ, zero, suc, ◌+◌, ◌-◌, ◌*◌, ◌%◌, ◌^◌, ℤ, pos, Bool, true, false, not, ◌==◌, ltb, leb, ◌&&◌,
  Option, none, some, if◌then◌else◌, update,
}
use libuc.Prelude.Fallible.{◌>>=◌, ◌>>◌, guard}
use libuc.Bits.{align_down, popcount, ckd}
use libuc.Memory.{memcpy, memset}
use libuc.System.{syscall_failed, to_address}

-- `struct __libuc_thread_local_layout`; a null pointer is 0.
pub record ImageLayout : Type 0 where
  pub image : ℕ
  pub image_size : ℕ
  pub block_size : ℕ
  pub alignment : ℕ

-- The fields of an Elf64_Phdr that count here.
pub record Header : Type 0 where
  pub p_type : ℕ
  pub p_vaddr : ℕ
  pub p_filesz : ℕ
  pub p_memsz : ℕ
  pub p_align : ℕ

-- PT_TLS, sizeof and alignof of Elf64_Phdr.
abbrev pub pt_tls : ℕ
pt_tls = 7

abbrev pub header_size : ℕ
header_size = 56

abbrev pub header_align : ℕ
header_align = 8

-- AT_PHDR, AT_PHENT and AT_PHNUM.
abbrev pub at_phdr : ℕ
at_phdr = 3

abbrev pub at_phent : ℕ
at_phent = 4

abbrev pub at_phnum : ℕ
at_phnum = 5

-- The scan of the headers, `k` of them left: the one PT_TLS segment, `some none` if there is none,
-- and `none` at a second one.
unfoldable pub scan : (ℕ → Header) → (index k : ℕ) → Option Header → Option (Option Header)
scan headers index zero segment = some segment
scan headers index (suc k) segment =
    let skip = scan headers (index + 1) k segment in
    let take = scan headers (index + 1) k (some (headers index)) in
    if not ((headers index).p_type == pt_tls)
    then skip
    else elim segment [ some earlier ↦ none | none ↦ take ]

-- What the layout takes from the segment.
unfoldable pub layout_of : Option Header → Option ImageLayout
layout_of none = some (record { image = 0; image_size = 0; block_size = 0; alignment = 1 })
layout_of (some segment) = do
  guard (not (ltb segment.p_memsz segment.p_filesz))
  _ ← ckd (segment.p_vaddr + segment.p_memsz)
  let alignment = if segment.p_align == 0 then 1 else segment.p_align
  guard (popcount 64 alignment == 1)
  some (record {
    image = if segment.p_filesz == 0 then 0 else segment.p_vaddr;
    image_size = segment.p_filesz;
    block_size = segment.p_memsz;
    alignment = alignment;
  })

-- `__libuc_thread_local_layout` on its first call. `auxv` looks an entry of the auxiliary vector up,
-- and `headers` is the table at an address.
unfoldable pub read_layout : (ℕ → Option ℕ) → ((address : ℕ) → ℕ → Header) → Option ImageLayout
read_layout auxv headers = do
  address ← auxv at_phdr
  entry_size ← auxv at_phent
  entry_count ← auxv at_phnum
  guard (
      not (address == 0)
      && (address % header_align == 0)
      && (entry_size == header_size)
      && not (entry_count == 0))
  table_size ← ckd (entry_count * header_size)
  _ ← ckd (address + table_size)
  segment ← scan (headers address) 0 entry_count none
  layout_of segment

-- A later call returns the layout that the first successful one kept: the result, and what is kept.
unfoldable pub thread_local_layout :
    Option ImageLayout
    → (ℕ → Option ℕ)
    → ((address : ℕ) → ℕ → Header)
    → Option ImageLayout × Option ImageLayout
thread_local_layout (some layout) auxv headers = (some layout, some layout)
thread_local_layout none auxv headers = (read_layout auxv headers, read_layout auxv headers)

-- `struct thread_local_placement`
pub record Placement : Type 0 where
  pub length : ℕ
  pub block_offset : ℕ
  pub tp_offset : ℕ

abbrev pub tcb_size : ℕ
tcb_size = 16

-- alignof(void *), also the alignment of the TCB.
abbrev pub pointer_align : ℕ
pointer_align = 8

-- `thread_local_place` of x86-64: the block ends at the thread pointer.
unfoldable pub place_x86_64 : (block_size alignment : ℕ) → Option Placement
place_x86_64 block_size alignment = do
  raised ← ckd (block_size + (alignment - 1))
  let distance = align_down raised alignment
  tcb_raised ← ckd (distance + (pointer_align - 1))
  let tp_offset = align_down tcb_raised pointer_align
  length ← ckd (tp_offset + tcb_size)
  some (record { length = length; block_offset = tp_offset - distance; tp_offset = tp_offset })

-- `thread_local_place` of aarch64: the block begins behind the TCB.
unfoldable pub place_aarch64 : (block_size alignment : ℕ) → Option Placement
place_aarch64 block_size alignment = do
  raised ← ckd (tcb_size + (alignment - 1))
  let block_offset = align_down raised alignment
  length ← ckd (block_offset + block_size)
  some (record { length = length; block_offset = block_offset; tp_offset = 0 })

-- `struct __libuc_thread_local_block`
pub record LocalBlock : Type 0 where
  pub mapping : ℕ
  pub mapping_length : ℕ
  pub block : ℕ
  pub thread_pointer : ℕ

-- `struct __libuc_thread_local_tcb`
pub record Tcb : Type 0 where
  pub self : ℕ
  pub fiber : ℕ

-- The bytes, and the control blocks at their thread pointers.
pub record Store : Type 0 where
  pub bytes : ℕ → ℕ
  pub tcbs : ℕ → Tcb

-- The block's bytes: zeros, and the image over their beginning.
unfoldable pub initialize : ImageLayout → (block : ℕ) → (ℕ → ℕ) → ℕ → ℕ
initialize layout block bytes =
    if layout.block_size == 0
    then bytes
    else let cleared = memset bytes block (pos 0) layout.block_size in
      if layout.image_size == 0
      then cleared
      else memcpy cleared block layout.image layout.image_size

-- `__libuc_thread_local_block_create`, given the layout, the architecture's placement and what mmap
-- returns for a length. It also names the mapping that it gives back on failure.
pub data Created : Type 0 where
  created : LocalBlock → Store → Created
  failed : Created
  failed_unmapping : (address length : ℕ) → Created

-- The mapping exists; its address is rounded up to the base.
unfoldable pub create_in :
    ImageLayout → Placement → (base_alignment mapping_length raw_address : ℕ) → Store → Created
create_in layout placement base_alignment mapping_length raw_address store =
    elim (ckd (raw_address + (base_alignment - 1))) [
      | none ↦ failed_unmapping raw_address mapping_length
      | some rounded_address ↦
          let base = align_down rounded_address base_alignment in
          let thread_pointer = base + placement.tp_offset in
          let block = base + placement.block_offset in
          created
            (record {
              mapping = raw_address;
              mapping_length = mapping_length;
              block = block;
              thread_pointer = thread_pointer;
            })
            (record {
              bytes = initialize layout block store.bytes;
              tcbs = update store.tcbs thread_pointer (record { self = thread_pointer; fiber = 0 });
            })
    ]

unfoldable pub block_create :
    Option ImageLayout → (ℕ → ℕ → Option Placement) → (mmap : ℕ → ℤ) → Store → Created
block_create none place mmap store = failed
block_create (some layout) place mmap store = elim (place layout.block_size layout.alignment) [
  | none ↦ failed
  | some placement ↦
      let base_alignment =
        if ltb layout.alignment pointer_align then pointer_align else layout.alignment in
      elim (ckd (placement.length + (base_alignment - 1))) [
        | none ↦ failed
        | some mapping_length ↦
            if syscall_failed (mmap mapping_length)
            then failed
            else create_in layout placement base_alignment mapping_length
                (to_address (mmap mapping_length)) store
      ]
]

-- `__libuc_thread_local_block_destroy`, given what munmap returns.
unfoldable pub block_destroy : (munmap : ℕ → ℕ → ℤ) → LocalBlock → Bool
block_destroy munmap block = not (syscall_failed (munmap block.mapping block.mapping_length))

-- HWCAP2_FSGSBASE
abbrev pub hwcap2_fsgsbase : ℕ
hwcap2_fsgsbase = 2

-- AT_HWCAP2
abbrev pub at_hwcap2 : ℕ
at_hwcap2 = 26

-- `__libuc_thread_local_install_available` of x86-64: a missing entry reads as no capability.
unfoldable pub install_available : (ℕ → Option ℕ) → Bool
install_available auxv = elim (auxv at_hwcap2) [
  | none ↦ not (bit_and 0 hwcap2_fsgsbase == 0)
  | some hwcap2 ↦ not (bit_and hwcap2 hwcap2_fsgsbase == 0)
]
