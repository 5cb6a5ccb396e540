-- ===== src/Ring/Queue.antt =====
-- The completion queue between the two words: a first-in first-out list, whatever the words wrap.
pub mod Post
use Prim.Native.Nat.{bit_and}
use libuc.Prelude.{
  ℕ, suc, ◌+◌, ◌-◌, ◌%◌, ◌^◌, ◌≤◌, ◌<◌, ◌≡◌, ◌≢◌, ◌∙◌, ap, ap₂, sym, arith, ◌⊎◌, inl, inr, none,
  some, List, [], ◌∷◌, ◌++◌, update, slice, slice_ext, slice_shift, slice-append, ℕ_discrete,
}
use libuc.Bits.Power.{mod-mod_pow, mod-ne_of_near, pow-le-pow}
use libuc.Bits.Align.{bit_and_mask}
use libuc.Ring.{Ring, Cqe, Reply, with_reply, reap}

-- The k-th completion behind the head.
abbrev pub nth : Ring → ℕ → Cqe
nth ring k = ring.cqes (bit_and ((ring.cq_head + k) % 2 ^ 32) ring.cq_mask)

-- How many completions wait: the difference of the words.
abbrev pub pending : Ring → ℕ
pending ring = (ring.cq_tail + 2 ^ 32 - ring.cq_head) % 2 ^ 32

-- The completions that wait, oldest first.
abbrev pub queued : Ring → List Cqe
queued ring = slice (nth ring) 0 (pending ring)

-- The words are of 32 bits, and the array has a power of two of slots.
pub record IsQueue (ring : Ring) : Type 0 where
  pub head : ring.cq_head < 2 ^ 32
  pub tail : ring.cq_tail < 2 ^ 32
  pub order : ℕ
  pub order_small : order ≤ 31
  pub entries : ring.cq_entries ≡ 2 ^ order
  pub mask : ring.cq_mask ≡ ring.cq_entries - 1
  pub room : pending ring ≤ ring.cq_entries

module _ (ring : Ring) (v : IsQueue ring) where
  open v use {order, order_small}

  reaped : Ring
  reaped = record ring { cq_head = (ring.cq_head + 1) % 2 ^ 32 }

  nth-reaped : (k : ℕ) → nth reaped k ≡ nth ring (1 + k)
  unfolding reaped
  nth-reaped k =
      let same : ((ring.cq_head + 1) % 2 ^ 32 + k) % 2 ^ 32 ≡ (ring.cq_head + (1 + k)) % 2 ^ 32 =
        omega arith in
      ap (λ i. ring.cqes (bit_and i ring.cq_mask)) same

  nth-zero : ring.cqes (bit_and ring.cq_head ring.cq_mask) ≡ nth ring 0
  nth-zero =
      let same : ring.cq_head ≡ (ring.cq_head + 0) % 2 ^ 32 = omega (arith, v.head) in
      ap (λ i. ring.cqes (bit_and i ring.cq_mask)) same

  queued-reaped :
      0 < pending ring → queued ring ≡ ring.cqes (bit_and ring.cq_head ring.cq_mask) ∷ queued reaped
  unfolding reaped slice
  queued-reaped some_wait =
      let size : pending ring ≡ suc (pending reaped) = omega (arith, v.head, v.tail) in
      ap (slice (nth ring) 0) size
      ∙ ap₂ ◌∷◌ (sym nth-zero)
          (sym (slice_shift (nth ring) (nth reaped) 1 (pending reaped) λ k lt. nth-reaped k))

  -- On a queue whose words are of 32 bits and whose size is a power of two that holds what waits,
  -- reap reports an empty queue exactly when none waits; else it takes the oldest completion,
  -- leaves the others in order, and the queue is well formed.
  pub reap-queued :
      ((queued ring ≡ []) × (reap ring ≡ none))
      ⊎ ((c : Cqe) × (ring' : Ring) × (reap ring ≡ some (c, ring'))
          × (queued ring ≡ c ∷ queued ring')
          × IsQueue ring')
  unfolding reap slice reaped
  reap-queued = elim (ℕ_discrete ring.cq_head ring.cq_tail) [
    | yes empty ↦
        let size : pending ring ≡ 0 = omega (arith, v.head) in
        inl (ap (slice (nth ring) 0) size, ground arith)
    | no waits ↦
        let some_wait : 0 < pending ring = omega (arith, v.head, v.tail) in
        inr (
          ring.cqes (bit_and ring.cq_head ring.cq_mask),
          reaped,
          ground arith,
          queued-reaped some_wait,
          record {
            head = omega arith;
            tail = v.tail;
            order = order;
            order_small = order_small;
            entries = v.entries;
            mask = v.mask;
            room = omega (arith, v.head, v.tail, v.room);
          },
        )
  ]

module _ (ring : Ring) (v : IsQueue ring) where
  open v use {order, order_small}

  -- The slot of an index, by the mask.
  slot : (x : ℕ) → bit_and (x % 2 ^ 32) ring.cq_mask ≡ x % 2 ^ order
  slot x =
      rw (v.mask, v.entries)
        (bit_and_mask order (x % 2 ^ 32) ∙ mod-mod_pow order 32 x (omega (arith, order_small)))

  -- Distinct completions that wait, and the next to come, stand in distinct slots.
  slot-ne :
      (j k : ℕ)
      → j < k
      → k < ring.cq_entries
      → bit_and ((ring.cq_head + j) % 2 ^ 32) ring.cq_mask
        ≢ bit_and ((ring.cq_head + k) % 2 ^ 32) ring.cq_mask
  slot-ne j k lt room =
      rw (slot (ring.cq_head + j), slot (ring.cq_head + k))
        (mod-ne_of_near (2 ^ order) (ring.cq_head + j) (ring.cq_head + k) (omega arith)
          (omega (arith, v.entries)))

  -- While a well-formed queue has room, a kernel that writes the slot of the tail and moves the
  -- tail by one adds its completion behind those that wait, and changes none of them.
  pub queued-post :
      (reply : Reply) (c : Cqe)
      → pending ring < ring.cq_entries
      → reply.tail ≡ (ring.cq_tail + 1) % 2 ^ 32
      → reply.cqes ≡ update ring.cqes (bit_and ring.cq_tail ring.cq_mask) c
      → queued (with_reply ring reply) ≡ queued ring ++ c ∷ []
  unfolding slice
  queued-post reply c room tail cqes =
      ap (slice (nth after) 0) size
      ∙ sym (slice-append (nth after) 0 (pending ring) 1 (pending ring) (omega arith))
      ∙ ap₂ ◌++◌
          (slice_ext (nth after) (nth ring) 0 0 (pending ring) λ k lt. old (0 + k) (omega arith))
          (ap (λ d. d ∷ []) newest)
    where
      after : Ring
      after = with_reply ring reply

      size : pending after ≡ pending ring + 1
      size = omega (arith, v.head, v.tail, v.entries, pow-le-pow order 31 order_small)

      tail_slot :
          bit_and ring.cq_tail ring.cq_mask
          ≡ bit_and ((ring.cq_head + pending ring) % 2 ^ 32) ring.cq_mask
      tail_slot =
          let same : ring.cq_tail ≡ (ring.cq_head + pending ring) % 2 ^ 32 =
            omega (arith, v.head, v.tail) in
          ap (λ i. bit_and i ring.cq_mask) same

      old : (k : ℕ) → k < pending ring → nth after k ≡ nth ring k
      old k lt = ground (arith, slot-ne k (pending ring) lt room)

      newest : nth after (pending ring) ≡ c
      newest = ground arith
