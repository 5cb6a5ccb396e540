-- ===== src/Scheduler/Await.antt =====
-- AWAIT: the operation goes into the batch, which is submitted first if it is full.
mod Slot
unfoldable pub use Slot.*
use mathlib.Core.List.{append_assoc}
use libuc.Prelude.{
  ℕ, ◌+◌, ◌-◌, ◌%◌, ◌<◌, ◌^◌, ◌≡◌, ◌≢◌, refl, ap, sym, ◌∙◌, arith, ℤ, ◌⊎◌, inl, inr, List, [], ◌∷◌,
  ◌++◌, some, update, slice, slice_ext, slice-update, true, false, ℕ_discrete, Bool-cases,
}
use libuc.System.{syscall_failed}
use libuc.Ring.{Sqe, Ring, Kernel, Submitted, returned, out_of_fuel, append_sqe, submit, zero_sqe}
use libuc.Ring.Batch.{batch, IsBatch}
use libuc.Ring.Submit.{IsCounted, IsQuietFrom, Delivers, submit-Delivers}
use libuc.Machine.{Ptr, Fiber, State, ok, trap}
use libuc.Fiber.{Event}
use libuc.Scheduler.Reactor.{submit_batch, fill_slot, submit_and_fill, park}
use libuc.Scheduler.Write.{ring-IsValid}
use libuc.Scheduler.Invariant.{CanRun, IsValid}

-- Behind a submit that took the whole batch there is room again.
module _ (enter : Kernel) (events : ℕ → Event) (fuel : ℕ) (s : State) (p : Ptr) (sqe : Sqe)
    (plain : sqe.flags ≡ 0) (space : s.parked_count ≢ s.ring.cq_entries)
    (full : s.ring.batch_count ≡ s.ring.sq_entries) where
  park_full : park enter events fuel p sqe s ≡ submit_and_fill enter events fuel p sqe s
  unfolding park append_sqe
  park_full = ground arith

  module _ (result : ℤ) (ring : Ring) (read : List Sqe) (n : ℕ)
      (e : submit enter fuel s.enters s.ring 0 ≡ returned result ring read n) where
    pub park_refused : syscall_failed result ≡ true → park enter events fuel p sqe s ≡ trap
    unfolding submit_and_fill submit_batch
    park_refused fails = rw (park_full, submit_and_fill, submit_batch, e, fails) refl

    park_again :
        syscall_failed result ≡ false
        → ring.batch_count < ring.sq_entries
        → park enter events fuel p sqe s
          ≡ ok tt (parked_state (submitted_state s ring read n) p sqe)
    unfolding submit_and_fill submit_batch
    park_again fine short =
        rw (park_full, submit_and_fill, submit_batch, e, fine)
          (fill_slot-ok enter events fuel p sqe (submitted_state s ring read n) short)

module _ (enter : Kernel) (events : ℕ → Event) (fuel : ℕ) (quiet : ℕ) (counted : IsCounted enter)
    (still : IsQuietFrom enter quiet) {s : State} {p : Ptr} {r k j : List Ptr}
    (v : IsValid s (p ∷ []) r k j) (enough : (quiet - s.enters) + s.ring.batch_count < fuel)
    (some_slots : 0 < s.ring.sq_entries) where
  -- In a valid state, an AWAIT of the running fiber without flags, while fewer are parked than the
  -- completion queue has entries, parks it: what the kernel has read and the batch, one behind the
  -- other, grow at the end by its entry, tagged with the fiber, and by nothing else, and the state
  -- is valid. It traps only if the batch is full and the kernel refuses it. The conditions: the
  -- fiber can run and its request names it, the kernel's counts are as documented, there are
  -- slots, and fuel for the interrupts to come and the batch.
  pub park-Parks :
      (f : Fiber) (sqe : Sqe)
      → s.fibers p ≡ some f
      → CanRun f
      → f.request.fiber ≡ p
      → s.parked_count ≢ s.ring.cq_entries
      → sqe.flags ≡ 0
      → Parks enter events fuel s p sqe r k j
  park-Parks f sqe at can own space plain = elim (ℕ_discrete s.ring.batch_count s.ring.sq_entries) [
    | no short ↦
        park_short enter events fuel v f at can own space sqe plain (omega (arith, v.batch.room))
    | yes full ↦
        behind full (submit enter fuel s.enters s.ring 0) refl
          (submit-Delivers enter quiet counted still fuel s.enters s.ring 0 v.batch enough)
  ]
    where
      behind :
          s.ring.batch_count ≡ s.ring.sq_entries
          → (x : Submitted) → submit enter fuel s.enters s.ring 0 ≡ x
          → Delivers s.ring s.enters x
          → Parks enter events fuel s p sqe r k j
      behind full out_of_fuel e d = absurd d
      behind full (returned result ring read n) e (d, le) =
          elim (Bool-cases (syscall_failed result)) [
            | inl fails ↦
                refused result ring read n full e fails (
                  park_refused enter events fuel s p sqe plain space full result ring read n e
                    fails)
            | inr fine ↦
                let t : State = submitted_state s ring read n in
                let short : ring.batch_count < ring.sq_entries =
                  omega (arith, d.whole fine, d.shape.sq_entries) in
                let v' : IsValid t (p ∷ []) r k j =
                  ring-IsValid ring n (s.submitted ++ read) v d.valid d.shape.cq_entries in
                let (grown, b) = filled-batch ring (tagged sqe p) d.valid short in
                parked (parked_state t p sqe)
                  (park_again enter events fuel s p sqe plain space full result ring read n e fine
                    short)
                  refl
                  (ap (λ l. (s.submitted ++ read) ++ l) grown
                    ∙ sym (append_assoc (s.submitted ++ read) (batch ring) (tagged sqe p ∷ []))
                    ∙ ap (λ l. l ++ tagged sqe p ∷ [])
                        (append_assoc s.submitted read (batch ring)
                          ∙ ap (λ l. s.submitted ++ l) d.in_order))
                  (parked_state-IsValid enter events fuel v' f at can own
                    (ground (arith, d.shape.cq_entries)) sqe short)
          ]
