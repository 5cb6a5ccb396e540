-- ===== src/Uc/Operation/Completion.antt =====
-- A completion: what the operation keeps of it, what its owner sees, and what may follow.
use Prim.Native.Nat.{bit_and}
use libuc.Prelude.{
  ℕ, ◌≡◌, ◌≢◌, ◌⊎◌, inl, inr, refl, ap, ◌∙◌, arith, some, ◌==◌, update, ℕ_discrete, Bool-cases,
}
use libuc.Ring.{Cqe, Kernel}
use libuc.Uc.Operation.{
  Operation, OperationState, prepared, in_flight, complete, Reactor, goes, Transfer, returns,
  yields, asks_next, more, completed, handle_next, dispatch, handle_completion,
}

-- The reactor that the owner is resumed in.
abbrev pub delivered : Cqe → Operation → Reactor → Reactor
delivered c operation r = record r {
  operations = update r.operations c.user_data (some (completed c operation));
}

-- What a completion does, for the code that the owner runs: the operation keeps its entry and owner,
-- has the result and the flags of the completion, and is complete if no more are announced, else as
-- it was. The owner is resumed with the address of its operation. The reactor goes on as the owner
-- left it, unless it asks for its next completion.
pub record Completes (enter : Kernel) (fuel : ℕ)
    (resume : (scheduled value : ℕ) → Reactor → Transfer × Reactor) (c : Cqe)
    (operation : Operation) (r : Reactor) : Type 0 where
  pub result : (completed c operation).result ≡ c.res
  pub flags : (completed c operation).flags ≡ c.flags
  pub same :
      ((completed c operation).owner ≡ operation.owner)
      × ((completed c operation).submission ≡ operation.submission)
  pub last : bit_and c.flags more ≡ 0 → (completed c operation).state ≡ complete
  pub announced : bit_and c.flags more ≢ 0 → (completed c operation).state ≡ operation.state
  pub over :
      (after : Reactor)
      → (resume operation.owner c.user_data (delivered c operation r) ≡ (returns, after))
        ⊎ (resume operation.owner c.user_data (delivered c operation r) ≡ (yields, after))
      → handle_completion enter fuel resume c r ≡ goes after
  pub next :
      (after : Reactor) (p : ℕ)
      → resume operation.owner c.user_data (delivered c operation r) ≡ (asks_next p, after)
      → handle_completion enter fuel resume c r ≡ handle_next enter fuel operation.owner p after

handle_next_started :
    (enter : Kernel) (fuel scheduled p : ℕ) (operation : Operation) (r : Reactor)
    → r.operations p ≡ some operation
    → operation.state ≢ prepared
    → handle_next enter fuel scheduled p r ≡ goes r
unfolding handle_next
handle_next_started enter fuel scheduled p operation r at started = by_state operation.state refl
  where
    by_state :
        (st : OperationState) → operation.state ≡ st → handle_next enter fuel scheduled p r ≡ goes r
    by_state in_flight e = ground arith
    by_state complete e = ground arith
    by_state prepared e = absurd (started e)

module _ (enter : Kernel) (fuel : ℕ) (resume : (scheduled value : ℕ) → Reactor → Transfer × Reactor)
    (c : Cqe) (operation : Operation) (r : Reactor)
    (at : r.operations c.user_data ≡ some operation) where
  -- The completion of a mapped operation is kept in it, and its owner is resumed with it.
  pub handle_completion-Completes : Completes enter fuel resume c operation r
  unfolding handle_completion dispatch completed
  handle_completion-Completes = record {
    result = by_more (λ o. o.result ≡ c.res) refl refl;
    flags = by_more (λ o. o.flags ≡ c.flags) refl refl;
    same =
        by_more (λ o. (o.owner ≡ operation.owner) × (o.submission ≡ operation.submission))
          (refl, refl) (refl, refl);
    last = λ none_announced. ground arith;
    announced = λ some_announced. ground arith;
    over = λ after ends. elim ends [
      | inl e ↦ rw (handle_completion, at, dispatch, ap (λ x. x.0) e) (ap (λ x. goes x.1) e)
      | inr e ↦ rw (handle_completion, at, dispatch, ap (λ x. x.0) e) (ap (λ x. goes x.1) e)
    ];
    next = λ after p e.
        rw (handle_completion, at, dispatch, ap (λ x. x.0) e)
          (ap (λ x. handle_next enter fuel operation.owner p x.1) e);
  }
    where
      by_more :
          (P : Operation → Type 0)
          → P (record operation { result = c.res; flags = c.flags; state = complete })
          → P (record operation { result = c.res; flags = c.flags })
          → P (completed c operation)
      by_more P done going = elim (Bool-cases (bit_and c.flags more == 0)) [
        | inl e ↦ rw e done
        | inr e ↦ rw e going
      ]

  -- An operation that is in flight or complete is not submitted again: if the owner asks for its next
  -- completion and has left the operation as it saw it, the reactor goes on as the owner left it.
  pub handle_completion_waits :
      (after : Reactor)
      → operation.state ≢ prepared
      → resume operation.owner c.user_data (delivered c operation r)
        ≡ (asks_next c.user_data, after)
      → after.operations c.user_data ≡ some (completed c operation)
      → handle_completion enter fuel resume c r ≡ goes after
  handle_completion_waits after started asks kept =
      let d = handle_completion-Completes in
      let goes_on : (completed c operation).state ≢ prepared =
        elim (ℕ_discrete (bit_and c.flags more) 0) [
          | yes none_announced ↦ ground (arith, d.last none_announced)
          | no some_announced ↦ ground (arith, d.announced some_announced)
        ] in
      d.next after c.user_data asks
      ∙ handle_next_started enter fuel operation.owner c.user_data (completed c operation) after
          kept goes_on
