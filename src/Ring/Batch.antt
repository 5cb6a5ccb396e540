-- ===== src/Ring/Batch.antt =====
-- The batch: the entries written since the last io_uring_enter.
use libuc.Prelude.{
  ℕ, ◌+◌, ◌-◌, ◌%◌, ◌^◌, ◌≤◌, ◌<◌, ◌≡◌, arith, ◌⊎◌, none, some, List, [], ◌∷◌, ◌++◌, update, slice,
  inl, inr, ℕ_discrete, slice-update, slice-split,
}
use libuc.Memory.{memmove}
use libuc.Memory.Copy.{memmove-moved}
use libuc.Ring.{Ring, Sqe, zero_sqe, append_sqe, keep_remainder}

-- The entries that the next io_uring_enter submits, in order.
abbrev pub batch : Ring → List Sqe
batch ring = slice ring.sqes 0 ring.batch_count

-- Which entries fit, and that the count is a `uint32_t`.
pub record IsBatch (ring : Ring) : Type 0 where
  pub room : ring.batch_count ≤ ring.sq_entries
  pub small : ring.sq_entries < 2 ^ 32

-- On a batch that fits, append_sqe refuses exactly a full queue; else it hands out the slot behind
-- the batch, inside the array, and the batch grows by one zeroed entry with the others unchanged,
-- and fits.
pub append_sqe-batch :
    (ring : Ring)
    → IsBatch ring
    → ((ring.batch_count ≡ ring.sq_entries) × (append_sqe ring ≡ none))
      ⊎ ((ring' : Ring) × (append_sqe ring ≡ some (ring.batch_count, ring'))
          × (ring.batch_count < ring.sq_entries)
          × (batch ring' ≡ batch ring ++ zero_sqe ∷ [])
          × IsBatch ring')
unfolding append_sqe
append_sqe-batch ring v = elim (ℕ_discrete ring.batch_count ring.sq_entries) [
  | yes full ↦ inl (full, ground arith)
  | no short ↦
      let size : (ring.batch_count + 1) % 2 ^ 32 ≡ ring.batch_count + 1 = omega arith in
      inr (
        record ring {
          sqes = update ring.sqes ring.batch_count zero_sqe;
          batch_count = (ring.batch_count + 1) % 2 ^ 32;
        },
        ground arith,
        omega arith,
        rw size (slice-update ring.sqes ring.batch_count zero_sqe),
        omega arith,
      )
]

-- What a short count leaves of a batch that fits: the entries that were read and then the new
-- batch are the old batch, in order; its count is less by those read, and it fits.
pub keep_remainder-batch :
    (ring : Ring) (submitted : ℕ)
    → IsBatch ring
    → submitted ≤ ring.batch_count
    → (slice ring.sqes 0 submitted ++ batch (keep_remainder ring submitted) ≡ batch ring)
      × ((keep_remainder ring submitted).batch_count + submitted ≡ ring.batch_count)
      × IsBatch (keep_remainder ring submitted)
unfolding keep_remainder
keep_remainder-batch ring submitted v le =
    let size : (ring.batch_count + 2 ^ 32 - submitted) % 2 ^ 32 ≡ ring.batch_count - submitted =
      omega arith in
    rw size (
      slice-split ring.sqes (memmove ring.sqes 0 submitted (ring.batch_count - submitted)) submitted
          ring.batch_count le
          (λ k lt.
            ground (arith, memmove-moved ring.sqes 0 submitted (ring.batch_count - submitted) k)),
      omega arith,
      omega arith,
    )
