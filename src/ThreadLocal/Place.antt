-- ===== src/ThreadLocal/Place.antt =====
-- Where the two placements put the block, the TCB and the end.
use native.Mathlib.Nat.{one-le-pow, zero-mod}
use libuc.Prelude.{ℕ, ◌+◌, ◌-◌, ◌%◌, ◌^◌, ◌≤◌, ◌<◌, ◌≡◌, ap, ◌∙◌, arith, none, some, dec_lt}
use libuc.Bits.{align_down, ckd}
use libuc.Bits.Align.{align_down_bounds}
use libuc.Bits.Power.{sub-mod_zero, mod_zero_of_eight, mod_eight_of_zero}
use libuc.ThreadLocal.{Placement, place_x86_64, place_aarch64}

-- What a checked sum is.
ckd-eq-some : (n : ℕ) {m : ℕ} → ckd n ≡ some m → (m ≡ n) × (n < 2 ^ 64)
unfolding ckd
ckd-eq-some n h = ground arith

ckd-eq-none : (n : ℕ) → ckd n ≡ none → 2 ^ 64 ≤ n
unfolding ckd
ckd-eq-none n h = ground arith

-- Variant 2: the block ends, rounded up to its alignment, at the thread pointer.
pub record PlacedBelow (block_size alignment : ℕ) (p : Placement) : Type 0 where
  pub distance : ℕ
  pub ends_at_pointer : p.block_offset + distance ≡ p.tp_offset
  pub covers : block_size ≤ distance
  pub tight : distance < block_size + alignment
  pub rounded : distance % alignment ≡ 0
  pub block_aligned : p.block_offset % alignment ≡ 0
  pub pointer_aligned : p.tp_offset % 8 ≡ 0
  pub padding : p.block_offset < 8
  pub tcb_inside : p.length ≡ p.tp_offset + 16
  pub fits : p.length < 2 ^ 64

module _ (order : ℕ) (small : order < 64) where
  alignment_pos : 1 ≤ 2 ^ order
  alignment_pos = one-le-pow order 2 (omega arith)

  -- The padding below a block keeps the block's alignment.
  padding_aligned :
      (distance pointer : ℕ)
      → distance % 2 ^ order ≡ 0
      → pointer % 8 ≡ 0
      → distance ≤ pointer
      → pointer < distance + 8
      → (pointer - distance) % 2 ^ order ≡ 0
  padding_aligned distance pointer d p le near = elim (dec_lt 3 order) [
    | yes coarse ↦
        let none_left : pointer - distance ≡ 0 =
          omega (arith, mod_eight_of_zero order distance (omega arith) d) in
        ap (λ (t : ℕ). t % 2 ^ order) none_left ∙ zero-mod (2 ^ order)
    | no fine ↦
        sub-mod_zero pointer distance (2 ^ order) le
          (mod_zero_of_eight order pointer (omega arith) p) d
  ]

  module _ (block_size : ℕ) where
    abbrev raised : ℕ
    raised = block_size + (2 ^ order - 1)

    abbrev distance : ℕ
    distance = align_down raised (2 ^ order)

    abbrev pointer : ℕ
    pointer = align_down (distance + 7) 8

    -- The three sums are checked.
    place_x86_64-eq-some :
        {p : Placement}
        → place_x86_64 block_size (2 ^ order) ≡ some p
        → (raised < 2 ^ 64)
          × (distance + 7 < 2 ^ 64)
          × (pointer + 16 < 2 ^ 64)
          × (p.length ≡ pointer + 16)
          × (p.tp_offset ≡ pointer)
          × (p.block_offset ≡ pointer - distance)
    unfolding place_x86_64 ckd
    place_x86_64-eq-some h = ground arith

  -- For an alignment that is a power of two within the word, a placement on x86-64 puts the end of
  -- the block, rounded up to its alignment, at the thread pointer, with the TCB behind it; block
  -- and pointer are aligned, less than 8 bytes pad the block, and no sum wraps.
  pub place_x86_64-PlacedBelow :
      (block_size : ℕ) {p : Placement}
      → place_x86_64 block_size (2 ^ order) ≡ some p
      → PlacedBelow block_size (2 ^ order) p
  place_x86_64-PlacedBelow block_size {p} h =
      let (raised_fits, sum_fits, length_fits, is_length, is_pointer, is_offset) =
        place_x86_64-eq-some block_size h in
      let (rounded, below, near) =
        align_down_bounds order (raised block_size) (omega arith) raised_fits in
      let (even, le, close) =
        align_down_bounds 3 (distance block_size + 7) (omega arith) sum_fits in
      let up : distance block_size ≤ pointer block_size = omega (arith, close) in
      record {
        distance = distance block_size;
        ends_at_pointer = omega arith;
        covers = omega (arith, alignment_pos);
        tight = omega (arith, alignment_pos);
        rounded = rounded;
        block_aligned =
            ap (λ (t : ℕ). t % 2 ^ order) is_offset
            ∙ padding_aligned (distance block_size) (pointer block_size) rounded even up
                (omega arith);
        pointer_aligned = ap (λ (t : ℕ). t % 8) is_pointer ∙ even;
        padding = omega arith;
        tcb_inside = omega arith;
        fits = omega arith;
      }

  abbrev offset_aarch64 : ℕ
  offset_aarch64 = align_down (16 + (2 ^ order - 1)) (2 ^ order)

  place_aarch64-eq-some :
      (block_size : ℕ) {p : Placement}
      → place_aarch64 block_size (2 ^ order) ≡ some p
      → (16 + (2 ^ order - 1) < 2 ^ 64)
        × (offset_aarch64 + block_size < 2 ^ 64)
        × (p.length ≡ offset_aarch64 + block_size)
        × (p.tp_offset ≡ 0)
        × (p.block_offset ≡ offset_aarch64)
  unfolding place_aarch64 ckd
  place_aarch64-eq-some block_size h = ground arith

  -- For an alignment that is a power of two within the word, a placement on aarch64 puts the block
  -- at the first multiple of its alignment behind the TCB, which the thread pointer addresses; the
  -- length is the end of the block, and no sum wraps.
  pub place_aarch64-PlacedAbove :
      (block_size : ℕ) {p : Placement}
      → place_aarch64 block_size (2 ^ order) ≡ some p
      → (p.tp_offset ≡ 0)
        × (p.block_offset % 2 ^ order ≡ 0)
        × (16 ≤ p.block_offset)
        × (p.block_offset < 16 + 2 ^ order)
        × (p.length ≡ p.block_offset + block_size)
        × (p.length < 2 ^ 64)
  place_aarch64-PlacedAbove block_size {p} h =
      let (raised_fits, length_fits, is_length, is_pointer, is_offset) =
        place_aarch64-eq-some block_size h in
      let (rounded, below, near) =
        align_down_bounds order (16 + (2 ^ order - 1)) (omega arith) raised_fits in
      (
        is_pointer,
        ap (λ (t : ℕ). t % 2 ^ order) is_offset ∙ rounded,
        omega (arith, alignment_pos),
        omega (arith, alignment_pos),
        omega arith,
        omega arith,
      )
