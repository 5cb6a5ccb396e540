-- ===== src/Scheduler/Join/Wait.antt =====
-- A fiber that waits for another, and a finished one that is taken.
use libuc.Prelude.{
  ◌+◌, ◌%◌, ◌^◌, ◌≡◌, ◌≢◌, refl, sym, ◌∙◌, arith, List, [], ◌∷◌, some, none, update, ℕ_discrete,
}
use libuc.Machine.{Ptr, null, Fiber, live, exited, State, ok, store}
use libuc.Scheduler.Chain.{times}
use libuc.Scheduler.Invariant.{CanRun, IsValid}
use libuc.Scheduler.Write.{release-IsValid}

pub store-ok :
    (s : State) (p : Ptr) (f g : Fiber)
    → s.fibers p ≡ some f
    → store p g s ≡ ok tt (record s { fibers = update s.fibers p (some g) })
unfolding store
store-ok s p f g at = ground arith

-- The state with `p` joining the target.
abbrev pub waiting_on : State → (target p : Ptr) → Fiber → State
waiting_on s target p g = record s {
  fibers = update s.fibers target (some (record g { joiner = p }));
  joining_count = (s.joining_count + 1) % 2 ^ 32;
}

-- Behind the write of the joiner, each record has one before.
record Before (s : State) (t p a : Ptr) (x : Fiber) : Type 0 where
  old : Fiber
  there : s.fibers a ≡ some old
  life : x.life ≡ old.life
  block : x.block ≡ old.block
  asks : x.request.fiber ≡ old.request.fiber
  other : a ≢ t → x.joiner ≡ old.joiner
  target : a ≡ t → x.joiner ≡ p

before :
    (s : State) (t p : Ptr) (g : Fiber)
    → s.fibers t ≡ some g
    → (a : Ptr) (x : Fiber) → update s.fibers t (some (record g { joiner = p })) a ≡ some x
    → Before s t p a x
before s t p g there a x at = elim (ℕ_discrete a t) [
  | yes e ↦ record {
    old = g;
    there = ground arith;
    life = ground arith;
    block = ground arith;
    asks = ground arith;
    other = λ ne. absurd (ne e);
    target = λ _. ground arith;
  }
  | no ne ↦ record {
    old = x;
    there = ground arith;
    life = refl;
    block = refl;
    asks = refl;
    other = λ _. refl;
    target = λ e. absurd (ne e);
  }
]

module _ {s : State} {p : Ptr} {r k j : List Ptr} (v : IsValid s (p ∷ []) r k j) (f : Fiber)
    (at : s.fibers p ≡ some f) (can : CanRun f) (own : f.request.fiber ≡ p) where
  -- The running fiber joins one that runs on.
  pub start_join :
      (t : Ptr) (g : Fiber)
      → s.fibers t ≡ some g
      → t ≢ p
      → g.joiner ≡ null
      → g.life ≡ live
      → IsValid (waiting_on s t p g) [] r k (p ∷ j)
  start_join t g there ne alone lives =
      let out : (times p r ≡ 0) × (times p k ≡ 0) × (times p j ≡ 0) = ground (arith, v.once p) in
      let real : p ≢ null = ground (arith, v.no_null) in
      record {
        ready = record { chain = v.ready.chain; tail = v.ready.tail; count = v.ready.count };
        parked = v.parked;
        joining = omega (arith, v.joining, v.small);
        small = omega (arith, v.small);
        room = v.room;
        batch = v.batch;
        once = λ a. ground (arith, v.once a);
        known = λ a h. elim (ℕ_discrete a p) [
          | yes e ↦ (f, ground arith, can)
          | no ne_p ↦
              let (x, at_a, can_a) = v.known a (ground arith) in
              elim (ℕ_discrete a t) [
                | yes e ↦ (record g { joiner = p }, ground arith, ground arith)
                | no ne_t ↦ (x, ground arith, can_a)
              ]
        ];
        runs = λ a h. absurd (omega arith);
        asker = λ a x at_a h.
            let o = before s t p g there a x at_a in
            elim (ℕ_discrete a p) [
              | yes e ↦ ground (arith, o.asks, o.there)
              | no ne_p ↦ o.asks ∙ v.asker a o.old o.there (ground arith)
            ];
        somewhere = λ a x at_a h.
            let o = before s t p g there a x at_a in
            ground (arith, v.somewhere a o.old o.there (λ e. h (o.life ∙ e)));
        joined = λ a x at_a h.
            let o = before s t p g there a x at_a in
            elim (ℕ_discrete a t) [
              | yes e ↦ ground (arith, o.life, o.there, o.target e)
              | no ne_t ↦
                  let same : x.joiner ≡ o.old.joiner = o.other ne_t in
                  let (kept, alive, waiting) = v.joined a o.old o.there (ground arith) in
                  let not_p : o.old.joiner ≢ p = ground arith in
                  (
                    ground (arith, o.life),
                    λ _. elim (ℕ_discrete a p) [
                      | yes e ↦ ground (arith, o.life, o.there)
                      | no ne_p ↦ o.life ∙ alive (ground arith)
                    ],
                    ground arith,
                  )
            ];
        one_target = λ a b x y at_a at_b h e.
            let oa = before s t p g there a x at_a in
            let ob = before s t p g there b y at_b in
            let no_p : (c : Ptr) (z : Fiber) → s.fibers c ≡ some z → z.joiner ≢ p =
              λ c z at_c is. absurd (ground (arith, v.joined c z at_c)) in
            elim (ℕ_discrete a t) [
              | yes ea ↦ elim (ℕ_discrete b t) [
                | yes eb ↦ ea ∙ sym eb
                | no nb ↦ absurd (no_p b ob.old ob.there (sym (ob.other nb) ∙ sym e ∙ oa.target ea))
              ]
              | no na ↦ elim (ℕ_discrete b t) [
                | yes eb ↦ absurd (no_p a oa.old oa.there (sym (oa.other na) ∙ e ∙ ob.target eb))
                | no nb ↦
                    v.one_target a b oa.old ob.old oa.there ob.there (ground (arith, oa.other na))
                      (sym (oa.other na) ∙ e ∙ ob.other nb)
              ]
            ];
        waits_for = λ a h. elim (ℕ_discrete a p) [
          | yes e ↦ (t, record g { joiner = p }, ground arith, sym e)
          | no ne_p ↦
              let (q, x, at_q, joins) = v.waits_for a (ground arith) in
              let (z, at_a, can_a) = v.known a (ground arith) in
              let other : q ≢ t = ground (arith, v.no_null) in (q, x, ground arith, joins)
        ];
        no_null = ground (arith, v.no_null);
        owns = λ a x at_a.
            let o = before s t p g there a x at_a in
            let (set, names) = v.owns a o.old o.there in
            (ground (arith, o.block), ground (arith, o.block));
      }

  -- The record of another fiber that has finished and that nobody joins is released.
  pub release_finished :
      (t : Ptr) (g : Fiber)
      → s.fibers t ≡ some g
      → t ≢ p
      → g.joiner ≡ null
      → g.life ≡ exited
      → IsValid (record s { fibers = update s.fibers t none }) (p ∷ []) r k j
  release_finished t g there ne alone over =
      release-IsValid v t g there alone idle (p ∷ []) (λ a. ground arith) (omega arith)
    where
      idle : times t r + times t k + times t j ≡ 0
      idle = elim (ℕ_discrete (times t r + times t k + times t j) 0) [
        | yes e ↦ e
        | no some_where ↦
            let (x, at_x, can_x) = v.known t (omega arith) in absurd (can_x.0 (ground arith))
      ]
