-- ===== src/Scheduler/Spawn/Fresh.antt =====
-- A new fiber on fresh mappings.
use libuc.Prelude.{
  ℕ, ◌+◌, ◌<◌, ◌^◌, ◌≡◌, ◌≢◌, arith, List, ◌∷◌, some, none, length, update, false, ℕ_discrete,
}
use libuc.System.{syscall_failed, to_address}
use libuc.ThreadLocal.{LocalBlock, Tcb, Store, created, block_create, place_x86_64}
use libuc.Machine.{Ptr, null, Fiber, State}
use libuc.Fiber.{Event, record_address}
use libuc.Scheduler.Chain.{times, Chain-update}
use libuc.Scheduler.Invariant.{CanRun, IsValid}

-- A mapping that mmap returns is fresh: no record of a fiber stands where the new one will, and no
-- block has the new block's thread pointer.
pub record MapsFresh (event : Event) (s : State) (stack_length : ℕ) : Type 0 where
  pub stack :
      syscall_failed (event.mmap_stack stack_length) ≡ false
      → (s.fibers (record_address (to_address (event.mmap_stack stack_length)) stack_length) ≡ none)
        × (record_address (to_address (event.mmap_stack stack_length)) stack_length ≢ null)
  pub block :
      (b : LocalBlock) (after : Store)
      → block_create s.layout place_x86_64 event.mmap_block
          (record { bytes = s.bytes; tcbs = s.tcbs })
        ≡ created b after
      → (b.thread_pointer ≢ 0)
        × ((a : Ptr) (f : Fiber) → s.fibers a ≡ some f → f.block.thread_pointer ≢ b.thread_pointer)

-- The state with a new fiber.
abbrev pub with_fiber : State → (q : Ptr) → Fiber → (ℕ → ℕ) → (ℕ → Tcb) → State
with_fiber s q g bytes tcbs = record s {
  fibers = update s.fibers q (some g);
  next = update s.next q null;
  bytes = bytes;
  tcbs = tcbs;
}

-- What the new record is.
pub record IsNew (s : State) (q : Ptr) (g : Fiber) (tcbs : ℕ → Tcb) : Type 0 where
  pub fresh : s.fibers q ≡ none
  pub real : q ≢ null
  pub can : CanRun g
  pub alone : g.joiner ≡ null
  pub owns : (g.block.thread_pointer ≢ 0) × ((tcbs g.block.thread_pointer).fiber ≡ q)
  pub others :
      (a : Ptr) (f : Fiber)
      → s.fibers a ≡ some f
      → tcbs f.block.thread_pointer ≡ s.tcbs f.block.thread_pointer

-- The new fiber is neither ready nor anywhere else yet: it is made ready next.
pub with_fiber-IsValid :
    {s : State} {u r k j : List Ptr} (q : Ptr) (g : Fiber) (bytes : ℕ → ℕ) (tcbs : ℕ → Tcb)
    → IsValid s u r k j
    → IsNew s q g tcbs
    → length r + length k + length j + length u + 1 < 2 ^ 32
    → IsValid (with_fiber s q g bytes tcbs) (q ∷ u) r k j
with_fiber-IsValid {s} {u} {r} {k} {j} q g bytes tcbs v n small = record {
  ready = record {
    chain = Chain-update s.next s.ready_head q null r (omega (arith, nowhere)) v.ready.chain;
    tail = v.ready.tail;
    count = v.ready.count;
  };
  parked = v.parked;
  joining = v.joining;
  small = omega arith;
  room = v.room;
  batch = v.batch;
  once = λ a. ground (arith, v.once a, nowhere);
  known = λ a h. let (x, there, can) = v.known a h in (x, still a x there, can);
  runs = λ a h. elim (ℕ_discrete a q) [
    | yes e ↦ (g, ground arith)
    | no ne ↦ let (x, there) = v.runs a (ground arith) in (x, still a x there)
  ];
  asker = λ a x there h. v.asker a x (before a x there (ground (arith, nowhere))) h;
  somewhere = λ a x there h. elim (ℕ_discrete a q) [
    | yes e ↦ ground (arith, nowhere)
    | no ne ↦ ground (arith, v.somewhere a x (before a x there ne) h)
  ];
  joined = λ a x there h. elim (ℕ_discrete a q) [
    | yes e ↦ absurd (ground (arith, n.alone))
    | no ne ↦
        let (kept, alive, waits) = v.joined a x (before a x there ne) h in
        (kept, λ out. alive (ground arith), waits)
  ];
  one_target = λ a b x y there here h e.
      v.one_target a b x y (before a x there (ground (arith, n.alone)))
        (before b y here (ground (arith, n.alone))) h e;
  waits_for = λ a h. let (t, x, there, e) = v.waits_for a h in (t, x, still t x there, e);
  no_null = ground (arith, v.no_null, n.real);
  owns = λ a x there. elim (ℕ_discrete a q) [
    | yes e ↦ ground (arith, n.owns)
    | no ne ↦
        let (set, names) = v.owns a x (before a x there ne) in
        (set, ground (arith, n.others a x (before a x there ne)))
  ];
}
  where
    still : (a : Ptr) (x : Fiber) → s.fibers a ≡ some x → update s.fibers q (some g) a ≡ some x
    still a x there = ground (arith, n.fresh)

    before :
        (a : Ptr) (x : Fiber) → update s.fibers q (some g) a ≡ some x → a ≢ q → s.fibers a ≡ some x
    before a x there ne = ground arith

    -- What is not mapped is in no list.
    nowhere : times q u + times q r + times q k + times q j ≡ 0
    nowhere = elim (ℕ_discrete (times q u) 0) [
      | no runs ↦ let (x, there) = v.runs q (omega arith) in absurd (ground (arith, n.fresh))
      | yes still_out ↦ elim (ℕ_discrete (times q r + times q k + times q j) 0) [
        | yes e ↦ omega arith
        | no waits ↦
            let (x, there, can) = v.known q (omega arith) in absurd (ground (arith, n.fresh))
      ]
    ]
