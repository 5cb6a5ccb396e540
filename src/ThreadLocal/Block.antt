-- ===== src/ThreadLocal/Block.antt =====
-- What the creation of a block leaves: its place in the mapping, its bytes and its TCB.
use native.Mathlib.Nat.{add-mod, zero-mod, one-le-pow}
use libuc.Prelude.{
  Option, none, some, ℕ, zero, suc, ◌+◌, ◌-◌, ◌%◌, ◌^◌, ◌≤◌, ◌<◌, ◌≡◌, refl, ap, ◌∙◌, sym, ◌⊎◌, inl,
  inr, arith, ℤ, pos, some, Option-cases, ltb, leb, ◌&&◌, if◌then◌else◌, update,
}
use libuc.Bits.{align_down, ckd}
use libuc.Bits.Align.{align_down_bounds}
use libuc.Bits.Power.{mod-mod_pow, pow-le-pow, mod_eight_of_zero}
use libuc.Memory.Copy.{memcpy-moved, memset-filled}
use libuc.System.{to_address}
use libuc.ThreadLocal.{
  ImageLayout, Placement, LocalBlock, Store, created, initialize, create_in, block_create,
  place_x86_64, pointer_align,
}
use libuc.Memory.{memset}
use libuc.ThreadLocal.Place.{PlacedBelow, place_x86_64-PlacedBelow}

-- The image lies outside the block.
abbrev pub Apart : ImageLayout → ℕ → Type 0
Apart layout block =
    (block + layout.block_size ≤ layout.image) ⊎ (layout.image + layout.image_size ≤ block)

-- If the image fits the block and lies outside it, a fresh block begins with the image and goes on
-- with zeros, and no other byte changes.
pub initialize_lem :
    (layout : ImageLayout) (block : ℕ) (bytes : ℕ → ℕ) (a : ℕ)
    → layout.image_size ≤ layout.block_size
    → Apart layout block
    → initialize layout block bytes a ≡ (
        if leb block a && ltb a (block + layout.image_size)
        then bytes (layout.image + (a - block))
        else if leb block a && ltb a (block + layout.block_size)
        then 0
        else bytes a)
unfolding initialize
initialize_lem layout block bytes a small apart = ground (
  arith,
  memset-filled bytes block (pos 0) layout.block_size a,
  memset-filled bytes block (pos 0) layout.block_size (layout.image + (a - block)),
  memcpy-moved (memset bytes block (pos 0) layout.block_size) block layout.image layout.image_size
      a,
)

pub record IsLocalBlock (layout : ImageLayout) (before : Store) (b : LocalBlock) (after : Store)
    : Type 0 where
  pub starts_inside : b.mapping ≤ b.block
  pub below_pointer : b.block + layout.block_size ≤ b.thread_pointer
  pub ends_inside : b.thread_pointer + 16 ≤ b.mapping + b.mapping_length
  pub block_aligned : b.block % layout.alignment ≡ 0
  pub pointer_aligned : b.thread_pointer % 8 ≡ 0
  pub tcb : after.tcbs b.thread_pointer ≡ record { self = b.thread_pointer; fiber = 0 }
  pub bytes : after.bytes ≡ initialize layout b.block before.bytes

sum-mod_zero : (a b m : ℕ) → a % m ≡ 0 → b % m ≡ 0 → (a + b) % m ≡ 0
sum-mod_zero a b m ha hb =
    add-mod a b m ∙ ap (λ (t : ℕ). (t + b % m) % m) ha ∙ ap (λ (t : ℕ). (0 + t) % m) hb ∙ zero-mod m

-- The coarser of the block's alignment and the TCB's, as the code computes it.
abbrev base_of : ℕ → ℕ
base_of alignment = if ltb alignment pointer_align then pointer_align else alignment

record Coarser (order : ℕ) : Type 0 where
  coarse : ℕ
  own : order ≤ coarse
  tcb : 3 ≤ coarse
  word : coarse < 64
  is : base_of (2 ^ order) ≡ 2 ^ coarse

coarser : (order : ℕ) → order < 64 → Coarser order
coarser zero h = record {
  coarse = 3;
  own = omega arith;
  tcb = omega arith;
  word = omega arith;
  is = refl;
}
coarser (suc zero) h = record {
  coarse = 3;
  own = omega arith;
  tcb = omega arith;
  word = omega arith;
  is = refl;
}
coarser (suc (suc zero)) h = record {
  coarse = 3;
  own = omega arith;
  tcb = omega arith;
  word = omega arith;
  is = refl;
}
coarser (suc (suc (suc k))) h = record {
  coarse = suc (suc (suc k));
  own = omega arith;
  tcb = omega arith;
  word = h;
  is = ground (arith, pow-le-pow 3 (suc (suc (suc k))) (omega arith));
}

-- Where a block that was created stands, from the rounded base.
create_in-eq-created :
    (layout : ImageLayout) (placement : Placement) (base_alignment len raw : ℕ) (before : Store)
    {b : LocalBlock} {after : Store}
    → create_in layout placement base_alignment len raw before ≡ created b after
    → let base = align_down (raw + (base_alignment - 1)) base_alignment in
      (raw + (base_alignment - 1) < 2 ^ 64)
      × (b ≡ record {
        mapping = raw;
        mapping_length = len;
        block = base + placement.block_offset;
        thread_pointer = base + placement.tp_offset;
      })
      × (after ≡ record {
        bytes = initialize layout (base + placement.block_offset) before.bytes;
        tcbs =
            update before.tcbs
              (base + placement.tp_offset)
              (record { self = base + placement.tp_offset; fiber = 0 });
      })
unfolding create_in ckd
create_in-eq-created layout placement base_alignment len raw before h = ground arith

module _ (order coarse : ℕ) (own : order ≤ coarse) (tcb : 3 ≤ coarse) (word : coarse < 64) where
  -- A base on the coarser boundary keeps the alignment of the block and of the TCB.
  create_in-IsLocalBlock :
      (layout : ImageLayout) (placement : Placement) (raw : ℕ) (before : Store) {b : LocalBlock}
      {after : Store}
      → layout.alignment ≡ 2 ^ order
      → PlacedBelow layout.block_size (2 ^ order) placement
      → create_in layout placement (2 ^ coarse) (placement.length + (2 ^ coarse - 1)) raw before
        ≡ created b after
      → IsLocalBlock layout before b after
  create_in-IsLocalBlock layout placement raw before {b} {after} aligned placed h =
      let (fits, is_b, is_after) =
        create_in-eq-created layout placement (2 ^ coarse) (placement.length + (2 ^ coarse - 1)) raw
          before h in
      let base : ℕ = align_down (raw + (2 ^ coarse - 1)) (2 ^ coarse) in
      let (rounded, below, near) =
        align_down_bounds coarse (raw + (2 ^ coarse - 1)) (omega arith) fits in
      let positive : 1 ≤ 2 ^ coarse = one-le-pow coarse 2 (omega arith) in
      let own_rounded : base % 2 ^ order ≡ 0 =
        sym (mod-mod_pow order coarse base own)
        ∙ ap (λ (t : ℕ). t % 2 ^ order) rounded
        ∙ zero-mod (2 ^ order) in
      rw (is_b, is_after)
        (record {
          starts_inside = omega arith;
          below_pointer = omega (arith, placed.ends_at_pointer, placed.covers);
          ends_inside = omega (arith, placed.tcb_inside);
          block_aligned = rw aligned (
              sum-mod_zero base placement.block_offset (2 ^ order) own_rounded
                placed.block_aligned);
          pointer_aligned =
              sum-mod_zero base placement.tp_offset 8 (mod_eight_of_zero coarse base tcb rounded)
                placed.pointer_aligned;
          tcb = ground arith;
          bytes = refl;
        })

-- Creation inverted: every check has passed.
block_create-eq-created :
    (layout : ImageLayout) (mmap : ℕ → ℤ) (before : Store) {b : LocalBlock} {after : Store}
    → block_create (some layout) place_x86_64 mmap before ≡ created b after
    → (placement : Placement) × (place_x86_64 layout.block_size layout.alignment ≡ some placement)
      × (create_in layout placement
            (base_of layout.alignment)
            (placement.length + (base_of layout.alignment - 1))
            (to_address (mmap (placement.length + (base_of layout.alignment - 1))))
            before
          ≡ created b after)
unfolding block_create ckd
block_create-eq-created layout mmap before h =
    elim (Option-cases (place_x86_64 layout.block_size layout.alignment)) [
      | inl fails ↦ absurd (ground arith)
      | inr (placement, e) ↦ (placement, e, ground arith)
    ]

-- Creation writes one TCB, at the thread pointer of the block that it hands out.
pub block_create-tcbs :
    (layout : Option ImageLayout) (mmap : ℕ → ℤ) (before : Store) {b : LocalBlock} {after : Store}
    → block_create layout place_x86_64 mmap before ≡ created b after
    → after.tcbs
      ≡ update before.tcbs b.thread_pointer (record { self = b.thread_pointer; fiber = 0 })
unfolding block_create
block_create-tcbs none mmap before h = absurd (ground arith)
block_create-tcbs (some layout) mmap before h =
    let (placement, placed, made) = block_create-eq-created layout mmap before h in
    let (fits, is_b, is_after) = create_in-eq-created layout placement _ _ _ before made in cc

-- If the alignment is a power of two within the word, a block that creation hands out lies in its
-- mapping, block under thread pointer under the end of the TCB; both are aligned; the TCB points
-- at itself and names no fiber; and the bytes are those that the initialization makes.
pub block_create-IsLocalBlock :
    (order : ℕ) (layout : ImageLayout) (mmap : ℕ → ℤ) (before : Store) {b : LocalBlock}
    {after : Store}
    → order < 64
    → layout.alignment ≡ 2 ^ order
    → block_create (some layout) place_x86_64 mmap before ≡ created b after
    → IsLocalBlock layout before b after
block_create-IsLocalBlock order layout mmap before {b} {after} small aligned h =
    let (placement, placed, made) = block_create-eq-created layout mmap before h in
    let c = coarser order small in
    let base_is : base_of layout.alignment ≡ 2 ^ c.coarse = ap base_of aligned ∙ c.is in
    create_in-IsLocalBlock order c.coarse c.own c.tcb c.word layout placement _ before aligned
      (place_x86_64-PlacedBelow order small layout.block_size (rw aligned at placed))
      (rw base_is at made)
