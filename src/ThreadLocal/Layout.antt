-- ===== src/ThreadLocal/Layout.antt =====
-- What the reading of the program headers accepts.
use libuc.Prelude.{
  ℕ, zero, suc, ◌+◌, ◌*◌, ◌%◌, ◌^◌, ◌≤◌, ◌<◌, ◌≡◌, refl, ap, ◌∙◌, sym, ◌⊎◌, inl, inr, arith, Option,
  none, some, Option-cases, Bool-cases, ◌==◌, if◌then◌else◌, not,
}
use libuc.Bits.{popcount, ckd}
use libuc.Bits.Popcount.{popcount-eq-one}
use libuc.ThreadLocal.{
  ImageLayout, Header, pt_tls, scan, layout_of, read_layout, at_phdr, at_phent, at_phnum,
  header_size,
}

abbrev is_tls : Header → ℕ
is_tls header = if header.p_type == pt_tls then 1 else 0

-- How many of `k` headers from an index on declare a thread-local segment.
pub tls_count : (ℕ → Header) → (index k : ℕ) → ℕ
tls_count headers index zero = 0
tls_count headers index (suc k) = is_tls (headers index) + tls_count headers (index + 1) k

abbrev found : Option Header → ℕ
found none = 0
found (some h) = 1

-- What the scan makes of the segment found so far and the headers left.
abbrev pub Scanned : (ℕ → Header) → (index k : ℕ) → Option Header → Option (Option Header) → Type 0
Scanned headers index k segment none = 1 < found segment + tls_count headers index k
Scanned headers index k segment (some none) = (segment ≡ none) × (tls_count headers index k ≡ 0)
Scanned headers index k segment (some (some h)) =
    (found segment + tls_count headers index k ≡ 1)
    × ((segment ≡ some h) ⊎ ((i : ℕ) × (i < k) × (headers (index + i) ≡ h) × (h.p_type ≡ pt_tls)))

-- A header of another kind adds nothing.
skip-Scanned :
    (headers : ℕ → Header) (index k : ℕ) (segment : Option Header) (r : Option (Option Header))
    → is_tls (headers index) ≡ 0
    → Scanned headers (index + 1) k segment r
    → Scanned headers index (suc k) segment r
unfolding tls_count
skip-Scanned headers index k segment none e h = omega arith
skip-Scanned headers index k segment (some none) e h = (h.0, omega (arith, h.1))
skip-Scanned headers index k segment (some (some s)) e (count, inl old) = (omega arith, inl old)
skip-Scanned headers index k segment (some (some s)) e (count, inr (i, lt, at, kind)) =
    let next : index + (i + 1) ≡ index + 1 + i = omega arith in
    (omega arith, inr (i + 1, omega arith, ap headers next ∙ at, kind))

-- The first segment is taken.
take-Scanned :
    (headers : ℕ → Header) (index k : ℕ) (r : Option (Option Header))
    → (headers index).p_type ≡ pt_tls
    → Scanned headers (index + 1) k (some (headers index)) r
    → Scanned headers index (suc k) none r
unfolding tls_count
take-Scanned headers index k none e h = ground arith
take-Scanned headers index k (some none) e (old, count) = cc
take-Scanned headers index k (some (some s)) e (count, inl this) =
    let start : index + 0 ≡ index = omega arith in
    let same : headers index ≡ s = cc in
    (ground arith, inr (0, omega arith, ap headers start ∙ same, ground arith))
take-Scanned headers index k (some (some s)) e (count, inr (i, lt, at, kind)) =
    let next : index + (i + 1) ≡ index + 1 + i = omega arith in
    (ground arith, inr (i + 1, omega arith, ap headers next ∙ at, kind))

-- The scan of `k` headers reports more than one segment as a failure, none as absence, and a
-- single one as that header.
scan-Scanned :
    (headers : ℕ → Header) (index k : ℕ) (segment : Option Header)
    → Scanned headers index k segment (scan headers index k segment)
unfolding scan tls_count
scan-Scanned headers index zero none = (refl, refl)
scan-Scanned headers index zero (some h) = (refl, inl refl)
scan-Scanned headers index (suc k) none = elim (Bool-cases ((headers index).p_type == pt_tls)) [
  | inl tls ↦
      rw (tls, not)
        (take-Scanned headers index k _ (ground arith)
          (scan-Scanned headers (index + 1) k (some (headers index))))
  | inr other ↦
      rw (other, not)
        (skip-Scanned headers index k none _ (ground arith)
          (scan-Scanned headers (index + 1) k none))
]
scan-Scanned headers index (suc k) (some h) = elim (Bool-cases ((headers index).p_type == pt_tls)) [
  | inl tls ↦ rw (tls, not) (ground arith)
  | inr other ↦
      rw (other, not)
        (skip-Scanned headers index k (some h) _ (ground arith)
          (scan-Scanned headers (index + 1) k (some h)))
]

-- A layout that `block_create` can place.
pub record IsLayout (layout : ImageLayout) : Type 0 where
  pub image_fits : layout.image_size ≤ layout.block_size
  pub order : ℕ
  pub order_small : order < 64
  pub alignment : layout.alignment ≡ 2 ^ order

layout_of-IsLayout :
    (h : Header) {layout : ImageLayout}
    → h.p_align < 2 ^ 64
    → layout_of (some h) ≡ some layout
    → IsLayout layout × (layout.image_size ≡ h.p_filesz) × (layout.block_size ≡ h.p_memsz)
unfolding layout_of ckd
layout_of-IsLayout h {layout} word e =
    let (one_bit, below, is_image, is_block, fits) = parts in
    let (order, small, power) = popcount-eq-one 64 layout.alignment below one_bit in
    (
      record { image_fits = fits; order = order; order_small = small; alignment = power },
      is_image,
      is_block,
    )
  where
    parts :
        (popcount 64 layout.alignment ≡ 1)
        × (layout.alignment < 2 ^ 64)
        × (layout.image_size ≡ h.p_filesz)
        × (layout.block_size ≡ h.p_memsz)
        × (layout.image_size ≤ layout.block_size)
    parts = ground arith

-- What the header table has to say of a layout.
abbrev pub Declares : (ℕ → Header) → (count : ℕ) → ImageLayout → Type 0
Declares headers count layout =
    ((tls_count headers 0 count ≡ 0) × (layout.block_size ≡ 0))
    ⊎ ((tls_count headers 0 count ≡ 1)
        × ((i : ℕ) × (i < count)
            × ((headers i).p_type ≡ pt_tls)
            × (layout.image_size ≡ (headers i).p_filesz)
            × (layout.block_size ≡ (headers i).p_memsz)))

segment-Declares :
    (headers : ℕ → Header) (count : ℕ) (segment : Option Header) {layout : ImageLayout}
    → ((i : ℕ) → (headers i).p_align < 2 ^ 64)
    → Scanned headers 0 count none (some segment)
    → layout_of segment ≡ some layout
    → IsLayout layout × Declares headers count layout
unfolding layout_of
segment-Declares headers count none {layout} words (old, zero_tls) e = (
  record {
    image_fits = ground arith;
    order = 0;
    order_small = omega arith;
    alignment = ground arith;
  },
  inl (zero_tls, ground arith),
)
segment-Declares headers count (some h) words (one_tls, inl old) e = cc
segment-Declares headers count (some h) {layout} words (one_tls, inr (i, lt, at, kind)) e =
    let start : 0 + i ≡ i = omega arith in
    let here : headers i ≡ h = ap headers (sym start) ∙ at in
    let (valid, image, block) = layout_of-IsLayout h (rw (← here) (words i)) e in
    (valid, inr (omega arith, (i, lt, rw here kind, rw here image, rw here block)))

-- Every check of the first call, passed.
record Read (auxv : ℕ → Option ℕ) (headers : (address : ℕ) → ℕ → Header) (layout : ImageLayout)
    : Type 0 where
  address : ℕ
  count : ℕ
  segment : Option Header
  phdr : auxv at_phdr ≡ some address
  phent : auxv at_phent ≡ some header_size
  phnum : auxv at_phnum ≡ some count
  aligned : (0 < address) × (address % 8 ≡ 0) × (0 < count)
  inside : address + count * header_size < 2 ^ 64
  scanned : scan (headers address) 0 count none ≡ some segment
  is : layout_of segment ≡ some layout

read_layout-Read :
    (auxv : ℕ → Option ℕ) (headers : (address : ℕ) → ℕ → Header) {layout : ImageLayout}
    → read_layout auxv headers ≡ some layout
    → Read auxv headers layout
unfolding read_layout ckd
read_layout-Read auxv headers {layout} h = elim (Option-cases (auxv at_phdr)) [
  | inl none_there ↦ absurd (ground arith)
  | inr (address, phdr) ↦ elim (Option-cases (auxv at_phnum)) [
    | inl none_there ↦ absurd (ground arith)
    | inr (count, phnum) ↦ elim (Option-cases (scan (headers address) 0 count none)) [
      | inl twice ↦ absurd (ground arith)
      | inr (segment, scanned) ↦ record {
        address = address;
        count = count;
        segment = segment;
        phdr = phdr;
        phent = ground arith;
        phnum = phnum;
        aligned = ground arith;
        inside = ground arith;
        scanned = scanned;
        is = ground arith;
      }
    ]
  ]
]

-- A layout that the first call returns, of headers whose alignments are words, is of a header
-- table that lies in the address space, with at most one thread-local segment: none, and an empty
-- block, or one, whose sizes it takes. The image fits the block and the alignment is a power of
-- two.
pub read_layout_lem :
    (auxv : ℕ → Option ℕ) (headers : (address : ℕ) → ℕ → Header) {layout : ImageLayout}
    → ((address i : ℕ) → (headers address i).p_align < 2 ^ 64)
    → read_layout auxv headers ≡ some layout
    → IsLayout layout
      × ((address : ℕ) × (count : ℕ) × (auxv at_phdr ≡ some address)
          × (auxv at_phnum ≡ some count)
          × (address + count * header_size < 2 ^ 64)
          × Declares (headers address) count layout)
read_layout_lem auxv headers words h =
    let r = read_layout-Read auxv headers h in
    let (valid, declares) =
      segment-Declares (headers r.address) r.count r.segment (words r.address)
        (rw r.scanned at (scan-Scanned (headers r.address) 0 r.count none)) r.is in
    (valid, (r.address, r.count, r.phdr, r.phnum, r.inside, declares))
