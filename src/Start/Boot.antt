-- ===== src/Start/Boot.antt =====
-- How a process begins.
use libuc.Prelude.{
  ℕ, ◌^◌, ◌<◌, ◌≡◌, ◌≢◌, refl, ap, sym, ◌∙◌, update, arith, pos, Bool, if◌then◌else◌, true, false,
  ◌==◌, [], ◌∷◌, Option-cases, inl, inr, none, some,
}
use libuc.Ring.{Ring, Kernel}
use libuc.Ring.Create.{Setup, create}
use libuc.Machine.{Ptr, null, Fiber, State, ok, and_then}
use libuc.Fiber.{Event, spawn}
use mathlib.Core.Path.{fun_ext, subst}
use libuc.Scheduler.{become}
use libuc.Scheduler.Spec.{Thread, Abstract, new_thread}
use libuc.Scheduler.View.{thread, view, seen, seen-update, thread-Starting, Shows}
use libuc.Scheduler.Reactor.{run}
use libuc.Scheduler.Ready.{enqueued}
use libuc.Scheduler.Account.{names, IsAccounted, SameLog-IsAccounted}
use libuc.Scheduler.Invariant.{IsValid}
use libuc.Scheduler.Begin.{become-IsValid}
use libuc.Scheduler.Move.{enqueue-IsValid}
use libuc.Scheduler.Spawn.{
  MapsFresh, with_fiber, with_fiber-IsValid, Spawned, nothing, made, spawn-Spawned, CannotMake,
  IsMade,
}
use libuc.Start.{enter_root, prepare, boot}

-- Nothing but a thread of this name, new and ready.
abbrev pub alone : Ptr → Abstract
alone root = record {
  threads = update (λ _. none) root (some new_thread);
  ready = root ∷ [];
  parked = [];
  joining = [];
}

-- What keeps the reactor from starting: no layout of the thread-local storage, no ring, no root fiber.
pub data CannotStart (setup : Setup) (event : Event) (s : State) : Type 0 where
  no_layout : s.layout ≡ none → CannotStart setup event s
  no_ring : s.layout ≢ none → (create setup).1 ≡ none → CannotStart setup event s
  no_root :
      (ring : Ring)
      → (create setup).1 ≡ some ring
      → CannotMake event (become setup s).1 8388608
      → CannotStart setup event s

-- What starting does: an exit with 127, or the reactor on a state with the root fiber.
pub data Boots (setup : Setup) (event : Event) (enter : Kernel) (events : ℕ → Event)
    (fuel rounds root_entry arguments : ℕ) (s : State) : Type 0 where
  gives_up :
      (t : State)
      → CannotStart setup event s
      → prepare setup event root_entry arguments s ≡ ok false t
      → boot setup event enter events fuel rounds root_entry arguments s ≡ ok (pos 127) t
      → Boots setup event enter events fuel rounds root_entry arguments s
  runs :
      (t : State) (root : Ptr) (g : Fiber) (ring : Ring)
      → s.layout ≢ none
      → (create setup).1 ≡ some ring
      → IsMade event (become setup s).1 8388608 root g
      → prepare setup event root_entry arguments s ≡ ok true t
      → boot setup event enter events fuel rounds root_entry arguments s
        ≡ run enter events fuel rounds t
      → t.fibers root ≡ some g
      → (g.entry ≡ root_entry) × (g.argument ≡ arguments)
      → Shows t (alone root)
      → IsAccounted (names s.submitted) t []
      → Boots setup event enter events fuel rounds root_entry arguments s

-- The steps of a start, on states as variables.
module _ (setup : Setup) (event : Event) (enter : Kernel) (events : ℕ → Event)
    (fuel rounds root_entry arguments : ℕ) (s : State) where
  boot-prepare :
      (t : State) (ready : Bool)
      → prepare setup event root_entry arguments s ≡ ok ready t
      → boot setup event enter events fuel rounds root_entry arguments s
        ≡ (if ready then run enter events fuel rounds t else ok (pos 127) t)
  unfolding boot
  boot-prepare t ready e = rw (boot, e) refl

  module _ (t : State) (layout : (l : _) × (s.layout ≡ some l)) (starts : (become setup s).0 ≡ true)
      (is : (become setup s).1 ≡ t) where
    prepare-spawn :
        prepare setup event root_entry arguments s
        ≡ and_then (spawn event 8388608 root_entry arguments t) enter_root
    unfolding prepare
    prepare-spawn = rw (prepare, layout.1, starts, is) refl

    with_root :
        (ring : Ring)
        → (create setup).1 ≡ some ring
        → IsValid t [] [] [] []
        → IsAccounted (names s.submitted) t []
        → ((a : Ptr) → t.fibers a ≡ none)
        → Spawned event t 8388608 root_entry arguments
        → Boots setup event enter events fuel rounds root_entry arguments s
    unfolding enter_root enqueued
    with_root ring is_ring v h clear (nothing cannot e) =
        let ends = prepare-spawn ∙ rw e refl in
        gives_up t (no_root ring is_ring (subst (λ x. CannotMake event x 8388608) (sym is) cannot))
          ends (boot-prepare t false ends)
    with_root ring is_ring v h clear (made q g bytes tcbs e new facts parts) =
        let t1 : State = with_fiber t q g bytes tcbs in
        let v1 : IsValid t1 (q ∷ []) [] [] [] =
          with_fiber-IsValid q g bytes tcbs v new (ground arith) in
        let there : t1.fibers q ≡ some g = ground arith in
        let (queued, v2) = enqueue-IsValid v1 g there new.can in
        let real : (q == null) ≡ false = ground (arith, new.real) in
        let ready = prepare-spawn ∙ rw (e, enter_root, real, queued) refl in
        let known : s.layout ≢ none = ground (arith, layout.1) in
        let none_seen : seen t ≡ (λ _. none) = fun_ext λ a. ap view (clear a) in
        let one_seen : seen (enqueued q t1) ≡ update (λ _. none) q (some new_thread) =
          seen-update t (enqueued q t1) q (some g) refl
          ∙ ap (λ threads. update threads q (some (thread g))) none_seen
          ∙ ap (λ (x : Thread). update (λ _. none) q (some x)) (thread-Starting facts) in
        runs (enqueued q t1) q g ring known is_ring
          (subst (λ x. IsMade event x 8388608 q g) (sym is) parts) ready
          (boot-prepare (enqueued q t1) true ready) there (facts.entered, facts.argument_is)
          (record { threads = one_seen; valid = v2 }) (SameLog-IsAccounted (refl, refl) h)

  without_layout :
      s.layout ≡ none → Boots setup event enter events fuel rounds root_entry arguments s
  unfolding prepare
  without_layout missing =
      let ends : prepare setup event root_entry arguments s ≡ ok false s =
        rw (prepare, missing) (ap (λ layout. ok false (record s { layout = layout })) missing) in
      gives_up s (no_layout missing) ends (boot-prepare s false ends)

  become_fails : (create setup).1 ≡ none → (become setup s).0 ≡ false
  unfolding become
  become_fails none_made = rw (become, none_made) refl

  prepare_fails :
      (t : State) (layout : (l : _) × (s.layout ≡ some l))
      → (become setup s).0 ≡ false
      → (become setup s).1 ≡ t
      → prepare setup event root_entry arguments s ≡ ok false t
  unfolding prepare
  prepare_fails t layout fails is = rw (prepare, layout.1, fails, is) refl

  without_ring :
      (layout : (l : _) × (s.layout ≡ some l))
      → (create setup).1 ≡ none
      → Boots setup event enter events fuel rounds root_entry arguments s
  without_ring layout none_made =
      let known : s.layout ≢ none = ground (arith, layout.1) in
      let ends = prepare_fails (become setup s).1 layout (become_fails none_made) refl in
      gives_up (become setup s).1 (no_ring known none_made) ends
        (boot-prepare (become setup s).1 false ends)

-- A start in which no fiber was made before, mappings are fresh, and a ring, if one is created, has
-- entries that fit 32 bits either exits with 127, with a reason of `CannotStart`, or runs the reactor
-- on a valid state in which the root fiber, with the root's entry and arguments, is ready and nothing
-- else is anywhere.
pub boot-Boots :
    (setup : Setup) (event : Event) (enter : Kernel) (events : ℕ → Event)
    (fuel rounds root_entry arguments : ℕ) (s : State)
    → ((ring : Ring) → (create setup).1 ≡ some ring → ring.sq_entries < 2 ^ 32)
    → ((a : Ptr) → s.fibers a ≡ none)
    → MapsFresh event (become setup s).1 8388608
    → Boots setup event enter events fuel rounds root_entry arguments s
unfolding become
boot-Boots setup event enter events fuel rounds root_entry arguments s small clear fresh =
    elim (Option-cases s.layout) [
      | inl missing ↦
          without_layout setup event enter events fuel rounds root_entry arguments s missing
      | inr layout ↦ elim (Option-cases (create setup).1) [
        | inl none_made ↦
            without_ring setup event enter events fuel rounds root_entry arguments s layout
              none_made
        | inr (ring, e) ↦
            let (starts, is_ring, v, h) = become-IsValid setup s ring e (small ring e) clear in
            let still_clear : (a : Ptr) → (become setup s).1.fibers a ≡ none =
              λ a. ground (arith, clear a) in
            with_root setup event enter events fuel rounds root_entry arguments s (become setup s).1
              layout starts refl ring e v h still_clear
              (spawn-Spawned event (become setup s).1 8388608 root_entry arguments fresh)
      ]
    ]
