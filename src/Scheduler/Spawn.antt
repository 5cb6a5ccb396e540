-- ===== src/Scheduler/Spawn.antt =====
-- SPAWN: a new fiber, behind the one that made it.
mod Fresh
mod Made
pub use Fresh.*
pub use Made.*
use libuc.Prelude.{
  ℕ, ◌+◌, ◌<◌, ◌^◌, ◌≡◌, ◌≢◌, refl, ap, ◌∙◌, arith, pos, inl, inr, List, [], ◌∷◌, ◌++◌, some, none,
  length, update, ◌==◌, false, leb, ℕ_discrete, Bool-cases, to_signed,
}
use libuc.System.{syscall_failed, to_address}
use libuc.ThreadLocal.{
  LocalBlock, Tcb, Store, Created, created, failed, failed_unmapping, block_create, place_x86_64,
}
use libuc.ThreadLocal.Block.{block_create-tcbs}
use libuc.Machine.{Ptr, null, Fiber, State, live, ok}
use libuc.Fiber.{Event, new_fiber, record_address, spawn_on, spawn, context_make}
use libuc.Scheduler.{handle_spawn}
use libuc.Scheduler.Chain.{times, Chain-update}
use libuc.Scheduler.Ready.{enqueued}
use libuc.Scheduler.Invariant.{SameLog, CanRun, IsValid}
use libuc.Scheduler.Move.{enqueue-IsValid}
use libuc.Scheduler.Write.{write-IsValid}
use libuc.Scheduler.Exit.{answer-ok, answered, answered-IsMinor}

-- What a SPAWN does.
pub data Spawns (event : Event) (s : State) (p : Ptr) (f : Fiber) (stack_length entry argument : ℕ)
    (r k j : List Ptr) : Type 0 where
  no_fiber :
      (t : State)
      → CannotMake event s stack_length
      → handle_spawn event p stack_length entry argument s ≡ ok tt t
      → t.fibers ≡ update s.fibers p (some (answered f (pos 0)))
      → SameLog s t
      → IsValid t [] (r ++ p ∷ []) k j
      → Spawns event s p f stack_length entry argument r k j
  new_child :
      (q : Ptr) (g : Fiber) (t : State)
      → handle_spawn event p stack_length entry argument s ≡ ok tt t
      → (s.fibers q ≡ none) × (q ≢ null)
      → t.fibers ≡ update (update s.fibers q (some g)) p (some (answered f (to_signed 63 q)))
      → Starting entry argument g
      → IsMade event s stack_length q g
      → SameLog s t
      → IsValid t [] ((r ++ p ∷ []) ++ q ∷ []) k j
      → Spawns event s p f stack_length entry argument r k j

module _ (event : Event) {s : State} {p : Ptr} {r k j : List Ptr}
    (v : IsValid s (p ∷ []) r k j) where
  -- A SPAWN of the running fiber of a valid state, if it can run, mappings are fresh and the
  -- counts have room, neither traps nor faults. If the stack leaves no room for the record, or its
  -- mapping fails, or no thread-local block is created, the spawner goes behind the ready ones,
  -- answered with the null pointer. Else it goes there, answered with the new fiber, and behind it
  -- goes the new fiber, live, with the entry and argument asked for, the mapped stack and the block,
  -- its record at the end of the stack, at an address that was not mapped. The ring is as it was and
  -- the state is valid.
  pub handle_spawn-Spawns :
      (f : Fiber) (stack_length entry argument : ℕ)
      → s.fibers p ≡ some f
      → CanRun f
      → MapsFresh event s stack_length
      → length r + length k + length j + 2 < 2 ^ 32
      → Spawns event s p f stack_length entry argument r k j
  unfolding handle_spawn enqueued
  handle_spawn-Spawns f stack_length entry argument at can fresh small =
      elim (spawn-Spawned event s stack_length entry argument fresh) [
        | nothing cannot e ↦
            let f' : Fiber = answered f (pos 0) in
            let s1 : State = record s { fibers = update s.fibers p (some f') } in
            let at1 : s1.fibers p ≡ some f' = ground arith in
            let v1 : IsValid s1 (p ∷ []) r k j =
              write-IsValid v p f f' at (answered-IsMinor f (pos 0)) in
            let (queued, v2) = enqueue-IsValid v1 f' at1 can in
            no_fiber (enqueued p s1) cannot (rw (e, answer-ok s p f (pos 0) at, queued) refl) refl
              (refl, refl) v2
        | made q g bytes tcbs e new facts parts ↦
            let s0 : State = with_fiber s q g bytes tcbs in
            let v0 : IsValid s0 (q ∷ p ∷ []) r k j =
              with_fiber-IsValid q g bytes tcbs v new (omega arith) in
            child q g s0 e tcbs new facts parts refl (refl, refl) v0
      ]
    where
      swap : {t : State} {a b : Ptr} → IsValid t (a ∷ b ∷ []) r k j → IsValid t (b ∷ a ∷ []) r k j
      swap w = record {
        ready = w.ready;
        parked = w.parked;
        joining = w.joining;
        small = w.small;
        room = w.room;
        batch = w.batch;
        once = λ c. omega (arith, w.once c);
        known = w.known;
        runs = λ c h. w.runs c (omega arith);
        asker = w.asker;
        somewhere = λ c x there h. omega (arith, w.somewhere c x there h);
        joined = λ c x there h.
            let (kept, alive, waits) = w.joined c x there h in
            (kept, λ out. alive (omega arith), waits);
        one_target = w.one_target;
        waits_for = w.waits_for;
        no_null = w.no_null;
        owns = w.owns;
      }

      child :
          (q : Ptr) (g : Fiber) (s0 : State)
          → spawn event stack_length entry argument s ≡ ok q s0
          → (tcbs : ℕ → Tcb) → IsNew s q g tcbs
          → Starting entry argument g
          → IsMade event s stack_length q g
          → s0.fibers ≡ update s.fibers q (some g)
          → SameLog s s0
          → IsValid s0 (q ∷ p ∷ []) r k j
          → Spawns event s p f stack_length entry argument r k j
      child q g s0 e tcbs new facts parts is log v0 =
          let f' : Fiber = answered f (to_signed 63 q) in
          let ne : p ≢ q = ground (arith, new.fresh) in
          let at0 : s0.fibers p ≡ some f = rw is (ground arith) in
          let at0q : s0.fibers q ≡ some g = rw is (ground arith) in
          let s1 : State = record s0 { fibers = update s0.fibers p (some f') } in
          let at1 : s1.fibers p ≡ some f' = ground arith in
          let at1q : s1.fibers q ≡ some g = ground arith in
          let v1 : IsValid s1 (p ∷ q ∷ []) r k j =
            write-IsValid (swap v0) p f f' at0 (answered-IsMinor f (to_signed 63 q)) in
          let (queued, v2) = enqueue-IsValid v1 f' at1 can in
          let (queued', v3) = enqueue-IsValid v2 g at1q new.can in
          let real : (q == null) ≡ false = ground (arith, new.real) in
          new_child q g (enqueued q (enqueued p s1))
            (rw (e, answer-ok s0 p f (to_signed 63 q) at0, queued, real, queued') refl)
            (new.fresh, new.real) (ap (λ l. update l p (some (answered f (to_signed 63 q)))) is)
            facts parts log v3
