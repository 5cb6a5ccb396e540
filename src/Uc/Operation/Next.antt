-- ===== src/Uc/Operation/Next.antt =====
-- REQUEST_NEXT: a prepared operation goes into the batch, once.
use mathlib.Core.List.{append_assoc}
use libuc.Prelude.{
  ℕ, ◌+◌, ◌-◌, ◌<◌, ◌≡◌, ◌≢◌, refl, ap, sym, ◌∙◌, arith, ℤ, List, [], ◌∷◌, ◌++◌, some, true, false,
  ℕ_discrete, update, Bool-cases, inl, inr,
}
use mathlib.Core.Path.{subst}
use libuc.System.{syscall_failed}
use libuc.Ring.{Sqe, Ring, Kernel, Submitted, returned, out_of_fuel}
use libuc.Ring.Batch.{batch, IsBatch}
use libuc.Ring.Submit.{IsCounted, IsQuietFrom, Delivers, submit-Delivers}
use libuc.Scheduler.Await.{filled, filled-batch, tagged}
use libuc.Uc.Ring.{append, ring_submit}
use libuc.Uc.Ring.Same.{ring_submit-submit}
use libuc.Uc.Operation.{
  Operation, OperationState, prepared, in_flight, complete, Reactor, goes, traps, put_in_flight,
  submit_first, handle_next,
}

-- The operation in flight, and the reactor with its entry in the batch.
abbrev pub started : (scheduled p : ℕ) → Operation → Reactor → Reactor
started scheduled p operation r = record r {
  operations =
      update r.operations p (some (record operation { owner = scheduled; state = in_flight }));
  ring = filled r.ring (tagged operation.submission p);
}

-- What a REQUEST_NEXT does.
pub data Nexts (enter : Kernel) (fuel scheduled p : ℕ) (operation : Operation) (r : Reactor)
    : Type 0 where
  unchanged :
      operation.state ≢ prepared
      → handle_next enter fuel scheduled p r ≡ goes r
      → Nexts enter fuel scheduled p operation r
  refused :
      operation.state ≡ prepared
      → r.ring.batch_count ≡ r.ring.sq_entries
      → (result : ℤ) (ring : Ring) (read : List Sqe) (n : ℕ)
      → ring_submit enter fuel r.enters r.ring 0 ≡ returned result ring read n
      → syscall_failed result ≡ true
      → handle_next enter fuel scheduled p r ≡ traps
      → Nexts enter fuel scheduled p operation r
  queued :
      (after : Reactor)
      → operation.state ≡ prepared
      → handle_next enter fuel scheduled p r ≡ goes after
      → after.operations
        ≡ update r.operations p (some (record operation { owner = scheduled; state = in_flight }))
      → after.submitted ++ batch after.ring
        ≡ (r.submitted ++ batch r.ring) ++ tagged operation.submission p ∷ []
      → IsBatch after.ring
      → after.ring.sq_entries ≡ r.ring.sq_entries
      → Nexts enter fuel scheduled p operation r

put_in_flight-ok :
    (scheduled p : ℕ) (operation : Operation) (r : Reactor)
    → r.ring.batch_count < r.ring.sq_entries
    → put_in_flight scheduled p operation (append r.ring) r ≡ goes (started scheduled p operation r)
unfolding put_in_flight append filled
put_in_flight-ok scheduled p operation r short = ground arith

module _ (enter : Kernel) (fuel scheduled p : ℕ) (operation : Operation) (r : Reactor)
    (at : r.operations p ≡ some operation) (fresh : operation.state ≡ prepared) where
  next_short :
      r.ring.batch_count < r.ring.sq_entries
      → handle_next enter fuel scheduled p r ≡ goes (started scheduled p operation r)
  unfolding handle_next append
  next_short short = ground (arith, put_in_flight-ok scheduled p operation r short)

  next_full :
      r.ring.batch_count ≡ r.ring.sq_entries
      → handle_next enter fuel scheduled p r ≡ submit_first enter fuel scheduled p operation r
  unfolding handle_next append
  next_full full = ground arith

  module _ (result : ℤ) (ring : Ring) (read : List Sqe) (n : ℕ)
      (e : ring_submit enter fuel r.enters r.ring 0 ≡ returned result ring read n) where
    first_refused :
        syscall_failed result ≡ true → submit_first enter fuel scheduled p operation r ≡ traps
    unfolding submit_first
    first_refused fails = rw (submit_first, e, fails) refl

    first_fine :
        syscall_failed result ≡ false
        → ring.batch_count < ring.sq_entries
        → submit_first enter fuel scheduled p operation r
          ≡ goes (
              started scheduled p operation
                (record r { ring = ring; enters = n; submitted = r.submitted ++ read }))
    unfolding submit_first
    first_fine fine short =
        rw (submit_first, e, fine)
          (put_in_flight-ok scheduled p operation
            (record r { ring = ring; enters = n; submitted = r.submitted ++ read }) short)

module _ (enter : Kernel) (fuel quiet : ℕ) (counted : IsCounted enter)
    (still : IsQuietFrom enter quiet) where
  -- A REQUEST_NEXT of an operation that is not prepared changes nothing, so an operation is
  -- submitted once. A prepared one is in flight, owned by the fiber, and what the kernel has read
  -- and the batch, one behind the other, grow at the end by its entry, tagged with the operation,
  -- and by nothing else, and the batch fits the same queue; or it traps, with the batch full and
  -- a failed submit of it. The conditions: the operation is mapped, the batch fits the queue, which
  -- has slots, the kernel's counts are as documented, and there is fuel for the interrupts to come
  -- and the batch.
  pub handle_next-Nexts :
      (scheduled p : ℕ) (operation : Operation) (r : Reactor)
      → r.operations p ≡ some operation
      → IsBatch r.ring
      → (quiet - r.enters) + r.ring.batch_count < fuel
      → 0 < r.ring.sq_entries
      → Nexts enter fuel scheduled p operation r
  unfolding handle_next filled
  handle_next-Nexts scheduled p operation r at v enough slots = by_state operation.state refl
    where
      behind :
          operation.state ≡ prepared
          → r.ring.batch_count ≡ r.ring.sq_entries
          → (x : Submitted) → ring_submit enter fuel r.enters r.ring 0 ≡ x
          → Delivers r.ring r.enters x
          → Nexts enter fuel scheduled p operation r
      behind fresh full out_of_fuel e d = absurd d
      behind fresh full (returned result ring read n) e (d, le) =
          elim (Bool-cases (syscall_failed result)) [
            | inl fails ↦ refused fresh full result ring read n e fails (
                next_full enter fuel scheduled p operation r at fresh full
                ∙ first_refused enter fuel scheduled p operation r at fresh result ring read n e
                    fails)
            | inr fine ↦
                let short : ring.batch_count < ring.sq_entries =
                  omega (arith, d.whole fine, d.shape.sq_entries) in
                let (grown, b) = filled-batch ring (tagged operation.submission p) d.valid short in
                queued
                  (started scheduled p operation
                    (record r { ring = ring; enters = n; submitted = r.submitted ++ read }))
                  fresh
                  (next_full enter fuel scheduled p operation r at fresh full
                    ∙ first_fine enter fuel scheduled p operation r at fresh result ring read n e
                        fine short)
                  refl
                  (ap (λ l. (r.submitted ++ read) ++ l) grown
                    ∙ sym (
                        append_assoc (r.submitted ++ read) (batch ring)
                          (tagged operation.submission p ∷ []))
                    ∙ ap (λ l. l ++ tagged operation.submission p ∷ [])
                        (append_assoc r.submitted read (batch ring)
                          ∙ ap (λ l. r.submitted ++ l) d.in_order))
                  b (omega (arith, d.shape.sq_entries))
          ]

      by_state :
          (st : OperationState) → operation.state ≡ st → Nexts enter fuel scheduled p operation r
      by_state in_flight e = unchanged (ground arith) (ground arith)
      by_state complete e = unchanged (ground arith) (ground arith)
      by_state prepared e = elim (ℕ_discrete r.ring.batch_count r.ring.sq_entries) [
        | no room ↦
            let short : r.ring.batch_count < r.ring.sq_entries = omega (arith, v.room) in
            let (grown, b) = filled-batch r.ring (tagged operation.submission p) v short in
            queued (started scheduled p operation r) e
              (next_short enter fuel scheduled p operation r at e short) refl
              (ap (λ l. r.submitted ++ l) grown
                ∙ sym
                    (append_assoc r.submitted (batch r.ring) (tagged operation.submission p ∷ [])))
              b refl
        | yes full ↦ behind e full (ring_submit enter fuel r.enters r.ring 0) refl (
            subst (λ x. Delivers r.ring r.enters x)
              (sym (ring_submit-submit enter fuel r.enters r.ring 0))
              (submit-Delivers enter quiet counted still fuel r.enters r.ring 0 v enough))
      ]
