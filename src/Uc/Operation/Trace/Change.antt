-- ===== src/Uc/Operation/Trace/Change.antt =====
-- How a REQUEST_NEXT and a completion change what is in flight.
use libuc.Prelude.{
  ℕ, ◌+◌, ◌≡◌, refl, ap, ◌∙◌, arith, List, [], ◌∷◌, ◌++◌, Option, none, some, ◌==◌, if◌then◌else◌,
  update, ℕ_discrete,
}
use libuc.Ring.{Sqe, Cqe}
use libuc.Ring.Batch.{batch, IsBatch}
use libuc.Scheduler.Await.{tagged}
use libuc.Scheduler.Chain.{times}
use libuc.Uc.Operation.{
  Operation, OperationState, prepared, in_flight, complete, Reactor, completed,
}
use libuc.Uc.Operation.Completion.{delivered}
use libuc.Uc.Operation.Trace.{entries_of, counts, counts_at, flying, ends, Balances}

entries_of-append :
    (p : ℕ) (xs ys : List Sqe) → entries_of p (xs ++ ys) ≡ entries_of p xs + entries_of p ys
entries_of-append p [] ys = omega arith
entries_of-append p (x ∷ xs) ys = omega (arith, entries_of-append p xs ys)

module _ (size scheduled p : ℕ) (ended : List ℕ) (operation : Operation) (r after : Reactor)
    (b : Balances size ended r) (at : r.operations p ≡ some operation)
    (fresh : operation.state ≡ prepared)
    (ops : after.operations
      ≡ update r.operations p (some (record operation { owner = scheduled; state = in_flight })))
    (grown : after.submitted ++ batch after.ring
      ≡ (r.submitted ++ batch r.ring) ++ tagged operation.submission p ∷ []) where
  queued_flying : (q : ℕ) → flying q after ≡ (if q == p then 1 else 0) + flying q r
  queued_flying q = elim (ℕ_discrete q p) [
    | yes e ↦ ground (arith, ap (λ f. counts_at (f q)) ops, ap (λ x. counts_at (r.operations x)) e)
    | no ne ↦ ground (arith, ap (λ f. counts_at (f q)) ops)
  ]

  queued_entries :
      (q : ℕ)
      → entries_of q (after.submitted ++ batch after.ring)
        ≡ entries_of q (r.submitted ++ batch r.ring) + (if q == p then 1 else 0)
  queued_entries q =
      ap (entries_of q) grown
      ∙ entries_of-append q (r.submitted ++ batch r.ring) (tagged operation.submission p ∷ [])
      ∙ omega arith

  pub queued-Balances :
      IsBatch after.ring → after.ring.sq_entries ≡ r.ring.sq_entries → Balances size ended after
  queued-Balances fits kept = record {
    fits = fits;
    slots = kept ∙ b.slots;
    balance = λ q. omega (arith, queued_flying q, queued_entries q, b.balance q);
  }

-- A completion of an operation in flight ends it, or leaves it in flight.
pub flying-delivered :
    (c : Cqe) (operation : Operation) (r : Reactor)
    → r.operations c.user_data ≡ some operation
    → operation.state ≡ in_flight
    → (p : ℕ) → flying p (delivered c operation r) + times p (ends c) ≡ flying p r
unfolding completed
flying-delivered c operation r at flies p = elim (ℕ_discrete p c.user_data) [
  | yes e ↦
      let here : counts_at (r.operations p) ≡ 1 =
        ap (λ x. counts_at (r.operations x)) e ∙ ap counts_at at ∙ ap counts flies in
      ground (arith, here, flies)
  | no ne ↦ ground arith
]

flies_of_state : (st : OperationState) → counts st ≡ 1 → st ≡ in_flight
flies_of_state in_flight one = refl
flies_of_state prepared one = absurd (omega (arith, one))
flies_of_state complete one = absurd (omega (arith, one))

pub flies :
    (x : Option Operation)
    → counts_at x ≡ 1
    → (operation : Operation) × (x ≡ some operation) × (operation.state ≡ in_flight)
flies none one = absurd (omega (arith, one))
flies (some operation) one = (operation, refl, flies_of_state operation.state one)
