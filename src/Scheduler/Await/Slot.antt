-- ===== src/Scheduler/Await/Slot.antt =====
-- A slot of the batch, and the fiber that it parks.
use mathlib.Core.List.{append_assoc}
use libuc.Prelude.{
  ℕ, ◌+◌, ◌%◌, ◌<◌, ◌^◌, ◌≡◌, ◌≢◌, refl, ap, sym, ◌∙◌, arith, ℤ, ◌⊎◌, List, [], ◌∷◌, ◌++◌, some,
  update, slice, slice_ext, slice-update, true, ℕ_discrete,
}
use libuc.System.{syscall_failed}
use libuc.Ring.{Sqe, Ring, Kernel, returned, append_sqe, submit, zero_sqe}
use libuc.Ring.Batch.{batch, IsBatch}
use libuc.Machine.{Ptr, Fiber, State, ok, trap}
use libuc.Fiber.{Event}
use libuc.Scheduler.Reactor.{fill_slot, park}
use libuc.Scheduler.Invariant.{CanRun, IsValid}

-- The entry as the batch holds it: its user data name the fiber.
abbrev pub tagged : Sqe → Ptr → Sqe
tagged sqe p = record sqe { user_data = p }

-- The ring behind the append and the write to the slot.
unfoldable pub filled : Ring → Sqe → Ring
filled ring sqe = record ring {
  sqes = update (update ring.sqes ring.batch_count zero_sqe) ring.batch_count sqe;
  batch_count = (ring.batch_count + 1) % 2 ^ 32;
}

pub filled-batch :
    (ring : Ring) (sqe : Sqe)
    → IsBatch ring
    → ring.batch_count < ring.sq_entries
    → (batch (filled ring sqe) ≡ batch ring ++ sqe ∷ []) × IsBatch (filled ring sqe)
unfolding filled
filled-batch ring sqe v short =
    let n : ℕ = ring.batch_count in
    let size : (n + 1) % 2 ^ 32 ≡ n + 1 = omega arith in
    let below : slice (update ring.sqes n zero_sqe) 0 n ≡ slice ring.sqes 0 n =
      slice_ext (update ring.sqes n zero_sqe) ring.sqes 0 0 n (λ k lt. ground arith) in
    (
      rw size (slice-update (update ring.sqes n zero_sqe) n sqe ∙ ap (λ l. l ++ sqe ∷ []) below),
      omega arith,
    )

-- The state behind a submit, and then with the entry in the batch.
abbrev pub submitted_state : State → Ring → List Sqe → ℕ → State
submitted_state s ring read n = record s {
  ring = ring;
  enters = n;
  submitted = s.submitted ++ read;
}

abbrev pub parked_state : State → Ptr → Sqe → State
parked_state s p sqe = record s {
  ring = filled s.ring (tagged sqe p);
  parked_count = (s.parked_count + 1) % 2 ^ 32;
}

-- What an AWAIT does: the kernel refuses the full batch, or the operation is queued behind those
-- before it and the fiber is parked.
pub data Parks (enter : Kernel) (events : ℕ → Event) (fuel : ℕ) (s : State) (p : Ptr) (sqe : Sqe)
    (r k j : List Ptr) : Type 0 where
  refused :
      (result : ℤ) (ring : Ring) (read : List Sqe) (n : ℕ)
      → s.ring.batch_count ≡ s.ring.sq_entries
      → submit enter fuel s.enters s.ring 0 ≡ returned result ring read n
      → syscall_failed result ≡ true
      → park enter events fuel p sqe s ≡ trap
      → Parks enter events fuel s p sqe r k j
  parked :
      (after : State)
      → park enter events fuel p sqe s ≡ ok tt after
      → after.fibers ≡ s.fibers
      → after.submitted ++ batch after.ring ≡ (s.submitted ++ batch s.ring) ++ tagged sqe p ∷ []
      → IsValid after [] r (p ∷ k) j
      → Parks enter events fuel s p sqe r k j

module _ (enter : Kernel) (events : ℕ → Event) (fuel : ℕ) where
  -- An AWAIT with flags, or with as many parked as the completion queue has entries, traps.
  pub park-trap :
      (p : Ptr) (sqe : Sqe) (s : State)
      → (sqe.flags ≢ 0) ⊎ (s.parked_count ≡ s.ring.cq_entries)
      → park enter events fuel p sqe s ≡ trap
  unfolding park
  park-trap p sqe s h = ground arith

  pub fill_slot-ok :
      (p : Ptr) (sqe : Sqe) (s : State)
      → s.ring.batch_count < s.ring.sq_entries
      → fill_slot enter events fuel p sqe (append_sqe s.ring) s ≡ ok tt (parked_state s p sqe)
  unfolding fill_slot append_sqe filled
  fill_slot-ok p sqe s short = ground arith

  module _ {s : State} {p : Ptr} {r k j : List Ptr} (v : IsValid s (p ∷ []) r k j) (f : Fiber)
      (at : s.fibers p ≡ some f) (can : CanRun f) (own : f.request.fiber ≡ p)
      (space : s.parked_count ≢ s.ring.cq_entries) where
    pub parked_state-IsValid :
        (sqe : Sqe)
        → s.ring.batch_count < s.ring.sq_entries
        → IsValid (parked_state s p sqe) [] r (p ∷ k) j
    unfolding filled
    parked_state-IsValid sqe short =
        let (grown, b) = filled-batch s.ring (tagged sqe p) v.batch short in
        record {
          ready = record { chain = v.ready.chain; tail = v.ready.tail; count = v.ready.count };
          parked = omega (arith, v.parked, v.small);
          joining = v.joining;
          small = omega (arith, v.small);
          room = omega (arith, v.room, v.parked);
          batch = b;
          once = λ a. ground (arith, v.once a);
          known = λ a h. elim (ℕ_discrete a p) [
            | yes e ↦ (f, ground arith, can)
            | no ne ↦ v.known a (ground arith)
          ];
          runs = λ a h. absurd (omega arith);
          asker = λ a x there h. elim (ℕ_discrete a p) [
            | yes e ↦ ground arith
            | no ne ↦ v.asker a x there (ground arith)
          ];
          somewhere = λ a x there h. ground (arith, v.somewhere a x there h);
          joined = λ a x there h.
              let (kept, alive, waiting) = v.joined a x there h in
              (
                kept,
                λ _. elim (ℕ_discrete a p) [ yes e ↦ ground arith | no ne ↦ alive (ground arith) ],
                waiting,
              );
          one_target = v.one_target;
          waits_for = v.waits_for;
          no_null = v.no_null;
          owns = v.owns;
        }

    -- The batch has room.
    pub park_short :
        (sqe : Sqe)
        → sqe.flags ≡ 0
        → s.ring.batch_count < s.ring.sq_entries
        → Parks enter events fuel s p sqe r k j
    unfolding park filled append_sqe
    park_short sqe plain short =
        let (grown, b) = filled-batch s.ring (tagged sqe p) v.batch short in
        parked (parked_state s p sqe) (ground (arith, fill_slot-ok p sqe s short)) refl
          (ap (λ l. s.submitted ++ l) grown
            ∙ sym (append_assoc s.submitted (batch s.ring) (tagged sqe p ∷ [])))
          (parked_state-IsValid sqe short)
