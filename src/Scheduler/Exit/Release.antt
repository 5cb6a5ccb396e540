-- ===== src/Scheduler/Exit/Release.antt =====
-- The release of a finished fiber, and the answer to another.
use libuc.Prelude.{
  ℕ, ◌+◌, ◌-◌, ◌%◌, ◌≤◌, ◌^◌, ◌≡◌, ◌≢◌, arith, ℤ, List, [], ◌∷◌, some, none, update, ◌==◌, false,
  ℕ_discrete, if◌then◌else◌,
}
use libuc.System.{syscall_failed}
use libuc.ThreadLocal.{block_destroy}
use libuc.Machine.{Ptr, null, Fiber, exited, State, ok, load, answer}
use libuc.Fiber.{Event, destroy}
use libuc.Scheduler.{reclaim}
use libuc.Scheduler.Chain.{times, drop_one, times-drop_one, length-drop_one}
use libuc.Scheduler.Invariant.{IsValid}
use libuc.Scheduler.Write.{IsMinor, release-IsValid}

-- The kernel unmaps what it mapped.
abbrev pub Unmaps : Event → Type 0
Unmaps event = (address length : ℕ) → syscall_failed (event.munmap address length) ≡ false

pub reclaim-ok :
    (event : Event) (s : State) (p : Ptr) (f : Fiber)
    → Unmaps event
    → s.fibers p ≡ some f
    → reclaim event p s ≡ ok tt (record s { fibers = update s.fibers p none })
unfolding reclaim destroy block_destroy
reclaim-ok event s p f unmaps at =
    ground (arith, unmaps f.block.mapping f.block.mapping_length, unmaps f.stack f.stack_length)

pub answer-ok :
    (s : State) (p : Ptr) (f : Fiber) (result : ℤ)
    → s.fibers p ≡ some f
    → answer p result s
      ≡ ok tt (record s {
        fibers = update s.fibers p (
            some (record f {
              request = record { ask = f.request.ask; result = result; fiber = f.request.fiber };
            }));
      })
unfolding answer
answer-ok s p f result at = ground arith

-- Nobody joins the fiber, and it is released.
module _ {s : State} {p : Ptr} {r k j : List Ptr} (v : IsValid s (p ∷ []) r k j) (f : Fiber)
    (at : s.fibers p ≡ some f) where
  pub finish_detached :
      f.joiner ≡ null → IsValid (record s { fibers = update s.fibers p none }) [] r k j
  finish_detached alone =
      release-IsValid v p f at alone (ground (arith, v.once p)) [] (λ a. ground arith) (omega arith)

  -- Nobody joins it yet: the record stays, finished.
  pub finish_unjoined : f.joiner ≡ null → f.life ≡ exited → IsValid s [] r k j
  finish_unjoined alone over = record {
    ready = v.ready;
    parked = v.parked;
    joining = v.joining;
    small = omega (arith, v.small);
    room = v.room;
    batch = v.batch;
    once = λ a. omega (arith, v.once a);
    known = v.known;
    runs = λ a h. absurd (omega arith);
    asker = v.asker;
    somewhere = λ a w there h. elim (ℕ_discrete a p) [
      | yes e ↦ absurd (ground arith)
      | no ne ↦ ground (arith, v.somewhere a w there h)
    ];
    joined = λ a w there h.
        let (kept, alive, waiting) = v.joined a w there h in
        let ne : a ≢ p = ground arith in (kept, λ _. alive (ground arith), waiting);
    one_target = v.one_target;
    waits_for = v.waits_for;
    no_null = v.no_null;
    owns = v.owns;
  }

  -- Its joiner is woken, and runs next.
  pub finish_joined :
      (w : Ptr)
      → f.joiner ≡ w
      → w ≢ null
      → IsValid
          (record s {
            fibers = update s.fibers p none;
            joining_count = (s.joining_count + 2 ^ 32 - 1) % 2 ^ 32;
          })
          (w ∷ [])
          r
          k
          (drop_one w j)
  finish_joined w joins live_w =
      let (kept_p, alive_p, waiting) = v.joined p f at (ground arith) in
      let in_j : times w j ≡ 1 = ground arith in
      let w-ne-p : w ≢ p = ground (arith, v.once p) in
      record {
        ready = record { chain = v.ready.chain; tail = v.ready.tail; count = v.ready.count };
        parked = v.parked;
        joining = omega (arith, v.joining, v.small, length-drop_one w j (omega arith));
        small = omega (arith, v.small, length-drop_one w j (omega arith));
        room = v.room;
        batch = v.batch;
        once = λ a. ground (arith, v.once a, times-drop_one a w j (omega arith));
        known = λ a h.
            let within : 1 ≤ times a r + times a k + times a j =
              ground (arith, times-drop_one a w j (omega arith)) in
            let (x, there, can) = v.known a within in
            let ne : a ≢ p = ground (arith, v.once p) in (x, ground arith, can);
        runs = λ a h. elim (ℕ_discrete a w) [
          | yes e ↦ let (x, there, can) = v.known w (omega arith) in (x, ground arith)
          | no ne ↦ absurd (ground arith)
        ];
        asker = λ a x there h.
            v.asker a x (ground arith) (ground (arith, times-drop_one a w j (omega arith)));
        somewhere =
            λ a x there h. ground (arith, v.somewhere a x, times-drop_one a w j (omega arith));
        joined = λ a x there h.
            let ne : a ≢ p = ground arith in
            let (kept, alive, waits) = v.joined a x (ground arith) h in
            let other : x.joiner ≢ w =
              λ e. ne (v.one_target a p x f (ground arith) at h (ground arith)) in
            (
              kept,
              λ _. alive (ground arith),
              ground (arith, times-drop_one x.joiner w j (omega arith)),
            );
        one_target =
            λ a b x y there here h e. v.one_target a b x y (ground arith) (ground arith) h e;
        waits_for = λ a h.
            let drop : times a (drop_one w j) + (if a == w then 1 else 0) ≡ times a j =
              times-drop_one a w j (omega arith) in
            let once_a : times a j ≤ 1 = omega (arith, v.once a) in
            let (q, x, there, e) = v.waits_for a (omega arith) in (q, x, ground arith, e);
        no_null = ground (arith, v.no_null);
        owns = λ a x there. v.owns a x (ground arith);
      }

pub load-ok : (s : State) (p : Ptr) (f : Fiber) → s.fibers p ≡ some f → load p s ≡ ok f s
unfolding load
load-ok s p f at = ground arith

-- A fiber with this result in its request.
abbrev pub answered : Fiber → ℤ → Fiber
answered g result = record g {
  request = record { ask = g.request.ask; result = result; fiber = g.request.fiber };
}

pub answered-IsMinor : (g : Fiber) (result : ℤ) → IsMinor g (answered g result)
answered-IsMinor g result = ground arith
