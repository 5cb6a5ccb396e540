-- ===== src/Ring/Create/Balance.antt =====
-- What a creation leaves mapped, and the ring that it hands out.
use libuc.Prelude.{
  ℕ, ◌+◌, ◌-◌, ◌*◌, ◌%◌, ◌^◌, ◌<◌, ◌≡◌, refl, arith, inl, inr, ◌==◌, none, some, List, [], ◌∷◌,
  if◌then◌else◌, Bool-cases, Option-cases,
}
use Prim.Native.Nat.{bit_and}
use libuc.Bits.{ckd}
use libuc.System.{syscall_failed}
use libuc.Ring.{Ring}
use libuc.Ring.Create.{
  Params, Setup, Call, mapped, unmapped, Created, check_mask, map_rings, ring_lengths, create,
}

-- How often a mapping is made less how often it is given back, as a pair of counts.
abbrev pub is_call : (address length : ℕ) → (address' length' : ℕ) → ℕ
is_call address length address' length' =
    if address == address' then (if length == length' then 1 else 0) else 0

abbrev pub made : (address length : ℕ) → List Call → ℕ
made address length [] = 0
made address length (mapped a n ∷ calls) = is_call address length a n + made address length calls
made address length (unmapped a n ∷ calls) = made address length calls

abbrev pub returned : (address length : ℕ) → List Call → ℕ
returned address length [] = 0
returned address length (mapped a n ∷ calls) = returned address length calls
returned address length (unmapped a n ∷ calls) =
    is_call address length a n + returned address length calls

-- What a ring promises its users: an empty batch, a mask that fits its size, and mappings that hold
-- both arrays.
pub record IsCreated (kernel : Setup) (ring : Ring) : Type 0 where
  pub batch : ring.batch_count ≡ 0
  pub mask : ring.cq_mask ≡ (ring.cq_entries + 2 ^ 32 - 1) % 2 ^ 32
  pub completions_inside :
      kernel.params.cqes_offset + ring.cq_entries * 16 ≡ ring.ring_mapping_length
  pub entries_inside : ring.sq_entries * 64 ≡ ring.sqes_mapping_length
  pub lengths_fit : (ring.ring_mapping_length < 2 ^ 64) × (ring.sqes_mapping_length < 2 ^ 64)

-- How a creation ends.
abbrev pub Balanced : Setup → Created → Type 0
Balanced kernel (calls, none) =
    (address length : ℕ) → made address length calls ≡ returned address length calls
Balanced kernel (calls, some ring) =
    (calls
      ≡ mapped ring.ring_mapping ring.ring_mapping_length
        ∷ mapped ring.sqes_mapping ring.sqes_mapping_length
        ∷ [])
    × IsCreated kernel ring

check_mask-Balanced :
    (kernel : Setup) (ring_length sqes_length ring_mapping sqes_mapping : ℕ)
    → kernel.params.cqes_offset + kernel.params.cq_entries * 16 ≡ ring_length
    → kernel.params.sq_entries * 64 ≡ sqes_length
    → ring_length < 2 ^ 64
    → sqes_length < 2 ^ 64
    → Balanced kernel (check_mask kernel ring_length sqes_length ring_mapping sqes_mapping)
unfolding check_mask
check_mask-Balanced kernel ring_length sqes_length ring_mapping sqes_mapping is_ring is_sqes
      ring_fits sqes_fits =
    elim (Bool-cases (
      kernel.word (ring_mapping + kernel.params.mask_offset)
      == (kernel.params.cq_entries + 2 ^ 32 - 1) % 2 ^ 32)) [
        | inl same ↦
            rw (same, check_mask)
              (
                refl,
                record {
                  batch = refl;
                  mask = ground arith;
                  completions_inside = is_ring;
                  entries_inside = is_sqes;
                  lengths_fit = (ring_fits, sqes_fits);
                },
              )
        | inr other ↦ rw (other, check_mask) (λ address length. omega arith)
      ]

map_rings-Balanced :
    (kernel : Setup) (ring_length sqes_length : ℕ)
    → kernel.params.cqes_offset + kernel.params.cq_entries * 16 ≡ ring_length
    → kernel.params.sq_entries * 64 ≡ sqes_length
    → ring_length < 2 ^ 64
    → sqes_length < 2 ^ 64
    → Balanced kernel (map_rings kernel ring_length sqes_length)
unfolding map_rings
map_rings-Balanced kernel ring_length sqes_length is_ring is_sqes ring_fits sqes_fits =
    elim (Bool-cases (syscall_failed (kernel.mmap ring_length 0))) [
      | inl fails ↦ rw (fails, map_rings) (λ address length. refl)
      | inr ring_there ↦ elim (Bool-cases (syscall_failed (kernel.mmap sqes_length 0x10000000))) [
        | inl fails ↦ rw (ring_there, fails, map_rings) (λ address length. omega arith)
        | inr sqes_there ↦
            rw (ring_there, sqes_there, map_rings)
              (check_mask-Balanced kernel ring_length sqes_length _ _ is_ring is_sqes ring_fits
                sqes_fits)
      ]
    ]

ring_lengths-eq-some :
    (params : Params) (ring_length sqes_length : ℕ)
    → ring_lengths params ≡ some (ring_length, sqes_length)
    → (params.cqes_offset + params.cq_entries * 16 ≡ ring_length)
      × (params.sq_entries * 64 ≡ sqes_length)
      × (ring_length < 2 ^ 64)
      × (sqes_length < 2 ^ 64)
unfolding ring_lengths ckd
ring_lengths-eq-some params ring_length sqes_length h = ground arith

-- A creation that fails has given back every mapping that it made. One that succeeds has made the
-- two mappings that it records and given none back; they hold the arrays of entries and
-- completions, no length wraps, the mask is one less than the number of completions, and the batch
-- is empty.
pub create-Balanced : (kernel : Setup) → Balanced kernel (create kernel)
unfolding create
create-Balanced kernel = elim (Bool-cases (syscall_failed kernel.result)) [
  | inl fails ↦ rw (fails, create) (λ address length. refl)
  | inr works ↦ elim (Bool-cases (bit_and kernel.params.features 1 == 0)) [
    | inl twice ↦ rw (works, twice, create) (λ address length. refl)
    | inr single ↦ elim (Option-cases (ring_lengths kernel.params)) [
      | inl overflows ↦ rw (works, single, overflows, create) (λ address length. refl)
      | inr ((ring_length, sqes_length), e) ↦
          let (is_ring, is_sqes, ring_fits, sqes_fits) =
            ring_lengths-eq-some kernel.params ring_length sqes_length e in
          rw (works, single, e, create)
            (map_rings-Balanced kernel ring_length sqes_length is_ring is_sqes ring_fits sqes_fits)
    ]
  ]
]
