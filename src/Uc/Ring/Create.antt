-- ===== src/Uc/Ring/Create.antt =====
-- __libuc_scheduler_ring_create of src/uc/scheduler/ring.c: the creation of the second scheduler's ring,
-- with the kernel's answers as in the first one's.
use libuc.Prelude.{
  ℕ, ◌+◌, ◌-◌, ◌*◌, ◌%◌, ◌^◌, ◌≡◌, refl, true, false, ◌==◌, Bool-cases, none, some, Option-cases,
  inl, inr, List, [], ◌∷◌, if◌then◌else◌,
}
use Prim.Native.Nat.{bit_and}
use libuc.Bits.{ckd}
use libuc.System.{syscall_failed, to_address}
use libuc.Ring.Create.{
  Setup, single_mmap, off_sq_ring, off_sqes, sqe_size, cqe_size, Call, mapped, unmapped, Created,
  create, map_rings, check_mask, ring_lengths,
}

-- Behind the mappings: the mask, and the fields.
unfoldable pub fill_ring : Setup → (ring_length sqes_length ring_base sqes_base : ℕ) → Created
fill_ring kernel ring_length sqes_length ring_base sqes_base =
    let both : List Call = mapped ring_base ring_length ∷ mapped sqes_base sqes_length ∷ [] in
    let cq_mask = kernel.word (ring_base + kernel.params.mask_offset) in
    if cq_mask == (kernel.params.cq_entries + 2 ^ 32 - 1) % 2 ^ 32
    then (
      both,
      some (record {
        ring_mapping = ring_base;
        ring_mapping_length = ring_length;
        sqes_mapping = sqes_base;
        sqes_mapping_length = sqes_length;
        sqes = kernel.sqes sqes_base;
        cq_head = kernel.word (ring_base + kernel.params.head_offset);
        cq_tail = kernel.word (ring_base + kernel.params.tail_offset);
        cqes = kernel.cqes (ring_base + kernel.params.cqes_offset);
        descriptor = kernel.result;
        sq_entries = kernel.params.sq_entries;
        cq_entries = kernel.params.cq_entries;
        cq_mask = cq_mask;
        batch_count = 0;
      }),
    )
    else (
      mapped ring_base ring_length
          ∷ mapped sqes_base sqes_length
          ∷ unmapped ring_base ring_length
          ∷ unmapped sqes_base sqes_length
          ∷ [],
      none,
    )

-- The two mappings, of these lengths.
unfoldable pub map_both : Setup → (ring_length sqes_length : ℕ) → Created
unfolding fill_ring
map_both kernel ring_length sqes_length =
    elim (syscall_failed (kernel.mmap ring_length off_sq_ring)) [
      | true ↦ ([], none)
      | false ↦
          let ring_base = to_address (kernel.mmap ring_length off_sq_ring) in
          elim (syscall_failed (kernel.mmap sqes_length off_sqes)) [
            | true ↦ (mapped ring_base ring_length ∷ unmapped ring_base ring_length ∷ [], none)
            | false ↦
                fill_ring kernel ring_length sqes_length ring_base
                  (to_address (kernel.mmap sqes_length off_sqes))
          ]
    ]

-- `__libuc_scheduler_ring_create`
unfoldable pub ring_create : Setup → Created
unfolding map_both
ring_create kernel = elim (syscall_failed kernel.result) [
  | true ↦ ([], none)
  | false ↦ elim (bit_and kernel.params.features single_mmap == 0) [
    | true ↦ ([], none)
    | false ↦ elim (ckd (kernel.params.cq_entries * cqe_size)) [
      | none ↦ ([], none)
      | some cqes_length ↦ elim (ckd (kernel.params.cqes_offset + cqes_length)) [
        | none ↦ ([], none)
        | some ring_length ↦ elim (ckd (kernel.params.sq_entries * sqe_size)) [
          | none ↦ ([], none)
          | some sqes_length ↦ map_both kernel ring_length sqes_length
        ]
      ]
    ]
  ]
]

fill_ring-check_mask :
    (kernel : Setup) (ring_length sqes_length ring_base sqes_base : ℕ)
    → fill_ring kernel ring_length sqes_length ring_base sqes_base
      ≡ check_mask kernel ring_length sqes_length ring_base sqes_base
unfolding fill_ring check_mask
fill_ring-check_mask kernel ring_length sqes_length ring_base sqes_base =
    elim (Bool-cases (
      kernel.word (ring_base + kernel.params.mask_offset)
      == (kernel.params.cq_entries + 2 ^ 32 - 1) % 2 ^ 32)) [
        | inl fits ↦ rw (fits, fill_ring, check_mask) refl
        | inr other ↦ rw (other, fill_ring, check_mask) refl
      ]

map_both-map_rings :
    (kernel : Setup) (ring_length sqes_length : ℕ)
    → map_both kernel ring_length sqes_length ≡ map_rings kernel ring_length sqes_length
unfolding map_both map_rings
map_both-map_rings kernel ring_length sqes_length =
    elim (Bool-cases (syscall_failed (kernel.mmap ring_length off_sq_ring))) [
      | inl fails ↦ rw (fails, map_both, map_rings) refl
      | inr fine ↦ elim (Bool-cases (syscall_failed (kernel.mmap sqes_length off_sqes))) [
        | inl fails ↦ rw (fine, fails, map_both, map_rings) refl
        | inr both ↦
            rw (fine, both, map_both, map_rings)
              (fill_ring-check_mask kernel ring_length sqes_length
                (to_address (kernel.mmap ring_length off_sq_ring))
                (to_address (kernel.mmap sqes_length off_sqes)))
      ]
    ]

-- The two creations ask for the same mappings, give the same back, in the same order, and end with the
-- same ring or with none, whatever the kernel answers.
pub ring_create-create : (kernel : Setup) → ring_create kernel ≡ create kernel
unfolding ring_create create ring_lengths
ring_create-create kernel = elim (Bool-cases (syscall_failed kernel.result)) [
  | inl fails ↦ rw (fails, ring_create, create) refl
  | inr fine ↦ elim (Bool-cases (bit_and kernel.params.features single_mmap == 0)) [
    | inl two ↦ rw (fine, two, ring_create, create) refl
    | inr single ↦ elim (Option-cases (ckd (kernel.params.cq_entries * cqe_size))) [
      | inl wraps ↦ rw (fine, single, wraps, ring_create, create, ring_lengths) refl
      | inr (cqes_length, of_cqes) ↦
          elim (Option-cases (ckd (kernel.params.cqes_offset + cqes_length))) [
            | inl wraps ↦ rw (fine, single, of_cqes, wraps, ring_create, create, ring_lengths) refl
            | inr (ring_length, of_ring) ↦
                elim (Option-cases (ckd (kernel.params.sq_entries * sqe_size))) [
                  | inl wraps ↦
                      rw (fine, single, of_cqes, of_ring, wraps, ring_create, create, ring_lengths)
                        refl
                  | inr (sqes_length, of_sqes) ↦
                      rw
                        (fine, single, of_cqes, of_ring, of_sqes, ring_create, create, ring_lengths)
                        (map_both-map_rings kernel ring_length sqes_length)
                ]
          ]
    ]
  ]
]
