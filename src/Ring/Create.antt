-- ===== src/Ring/Create.antt =====
-- __libuc_ring_create of src/ring/ring.c: the checks on what the kernel reports and the two mappings.
pub mod Balance
use libuc.Prelude.{
  ℕ, ◌+◌, ◌-◌, ◌*◌, ◌%◌, ◌^◌, ℤ, pos, Bool, true, false, not, ◌||◌, ◌==◌, Option, none, some, List,
  [], ◌∷◌, if◌then◌else◌, to_unsigned,
}
use Prim.Native.Nat.{bit_and}
use libuc.Bits.{ckd}
use libuc.System.{syscall_failed, to_address}
use libuc.Ring.{Sqe, Cqe, Ring}

-- What io_uring_setup fills in, of `struct io_uring_params`.
pub record Params : Type 0 where
  pub sq_entries : ℕ
  pub cq_entries : ℕ
  pub features : ℕ
  pub head_offset : ℕ
  pub tail_offset : ℕ
  pub mask_offset : ℕ
  pub cqes_offset : ℕ

-- The kernel: what io_uring_setup returns and reports for a number of entries, what mmap returns for
-- a length and an offset, and what its mappings hold: words of 32 bits, and the two arrays.
pub record Setup : Type 0 where
  pub result : ℤ
  pub params : Params
  pub mmap : (length offset : ℕ) → ℤ
  pub word : (address : ℕ) → ℕ
  pub cqes : (address : ℕ) → ℕ → Cqe
  pub sqes : (address : ℕ) → ℕ → Sqe

-- IORING_FEAT_SINGLE_MMAP, IORING_OFF_SQ_RING, IORING_OFF_SQES, and the sizes of an entry and of a
-- completion.
abbrev pub single_mmap : ℕ
single_mmap = 1

abbrev pub off_sq_ring : ℕ
off_sq_ring = 0

abbrev pub off_sqes : ℕ
off_sqes = 0x10000000

abbrev pub sqe_size : ℕ
sqe_size = 64

abbrev pub cqe_size : ℕ
cqe_size = 16

-- What the code asks of the kernel's memory, in order.
pub data Call : Type 0 where
  mapped : (address length : ℕ) → Call
  unmapped : (address length : ℕ) → Call

-- The calls, and the ring or `none` for false.
abbrev pub Created : Type 0
Created = List Call × Option Ring

-- Both arrays are mapped.
unfoldable pub check_mask :
    Setup → (ring_length sqes_length ring_mapping sqes_mapping : ℕ) → Created
check_mask kernel ring_length sqes_length ring_mapping sqes_mapping =
    let params = kernel.params in
    let cq_mask = kernel.word (ring_mapping + params.mask_offset) in
    if not (cq_mask == (params.cq_entries + 2 ^ 32 - 1) % 2 ^ 32)
    then (
      mapped ring_mapping ring_length
          ∷ mapped sqes_mapping sqes_length
          ∷ unmapped ring_mapping ring_length
          ∷ unmapped sqes_mapping sqes_length
          ∷ [],
      none,
    )
    else (
      mapped ring_mapping ring_length ∷ mapped sqes_mapping sqes_length ∷ [],
      some (record {
        ring_mapping = ring_mapping;
        ring_mapping_length = ring_length;
        sqes_mapping = sqes_mapping;
        sqes_mapping_length = sqes_length;
        sqes = kernel.sqes sqes_mapping;
        cq_head = kernel.word (ring_mapping + params.head_offset);
        cq_tail = kernel.word (ring_mapping + params.tail_offset);
        cqes = kernel.cqes (ring_mapping + params.cqes_offset);
        descriptor = kernel.result;
        sq_entries = params.sq_entries;
        cq_entries = params.cq_entries;
        cq_mask = cq_mask;
        batch_count = 0;
      }),
    )

unfoldable pub map_rings : Setup → (ring_length sqes_length : ℕ) → Created
map_rings kernel ring_length sqes_length =
    let ring_mapping = kernel.mmap ring_length off_sq_ring in
    let sqes_mapping = kernel.mmap sqes_length off_sqes in
    if syscall_failed ring_mapping
    then ([], none)
    else if syscall_failed sqes_mapping
    then (
      mapped (to_address ring_mapping) ring_length
          ∷ unmapped (to_address ring_mapping) ring_length
          ∷ [],
      none,
    )
    else check_mask kernel ring_length sqes_length (to_address ring_mapping)
        (to_address sqes_mapping)

-- The lengths of the two mappings; `none` if one overflows.
unfoldable pub ring_lengths : Params → Option (ℕ × ℕ)
ring_lengths params = elim (ckd (params.cq_entries * cqe_size)) [
  | none ↦ none
  | some cqes_length ↦ elim (ckd (params.cqes_offset + cqes_length)) [
    | none ↦ none
    | some ring_length ↦ elim (ckd (params.sq_entries * sqe_size)) [
      | none ↦ none
      | some sqes_length ↦ some (ring_length, sqes_length)
    ]
  ]
]

-- `__libuc_ring_create`, given the kernel's answers to the setup that it asks for.
unfoldable pub create : Setup → Created
create kernel =
    if syscall_failed kernel.result
    then ([], none)
    else if bit_and kernel.params.features single_mmap == 0
    then ([], none)
    else elim (ring_lengths kernel.params) [
      | none ↦ ([], none)
      | some (ring_length, sqes_length) ↦ map_rings kernel ring_length sqes_length
    ]

-- A cleared `struct __libuc_ring`.
abbrev pub zero_ring : Setup → Ring
zero_ring kernel = record {
  ring_mapping = 0;
  ring_mapping_length = 0;
  sqes_mapping = 0;
  sqes_mapping_length = 0;
  sqes = kernel.sqes 0;
  cq_head = 0;
  cq_tail = 0;
  cqes = kernel.cqes 0;
  descriptor = pos 0;
  sq_entries = 0;
  cq_entries = 0;
  cq_mask = 0;
  batch_count = 0;
}
