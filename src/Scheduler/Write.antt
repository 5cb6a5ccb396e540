-- ===== src/Scheduler/Write.antt =====
-- Writes to one record, and its release, keep the invariant.
use libuc.Prelude.{
  ℕ, ◌+◌, ◌≤◌, ◌≡◌, ◌≢◌, arith, List, some, none, length, update, ◌==◌, ℕ_discrete, if◌then◌else◌,
}
use libuc.Ring.{Ring, Sqe}
use libuc.Ring.Batch.{IsBatch}
use libuc.Machine.{Ptr, null, Fiber, exited, State}
use libuc.Scheduler.Chain.{times}
use libuc.Scheduler.Invariant.{IsValid}

-- A write that changes nothing that the invariant speaks of, but may detach a fiber that nobody
-- joins.
pub record IsMinor (f g : Fiber) : Type 0 where
  pub joiner : g.joiner ≡ f.joiner
  pub block : g.block ≡ f.block
  pub asker : g.request.fiber ≡ f.request.fiber
  pub rip : g.context.rip ≡ f.context.rip
  pub finished : f.life ≡ exited → g.life ≡ exited
  pub unfinished : g.life ≡ exited → f.life ≡ exited
  pub detaches : f.joiner ≢ null → g.life ≡ f.life

-- The ring may move under a valid state.
pub ring-IsValid :
    {s : State} {u r k j : List Ptr} (ring : Ring) (n : ℕ) (log : List Sqe)
    → IsValid s u r k j
    → IsBatch ring
    → ring.cq_entries ≡ s.ring.cq_entries
    → IsValid (record s { ring = ring; enters = n; submitted = log }) u r k j
ring-IsValid ring n log v b same = record {
  ready = record { chain = v.ready.chain; tail = v.ready.tail; count = v.ready.count };
  parked = v.parked;
  joining = v.joining;
  small = v.small;
  room = omega (arith, v.room);
  batch = b;
  once = v.once;
  known = v.known;
  runs = v.runs;
  asker = v.asker;
  somewhere = v.somewhere;
  joined = v.joined;
  one_target = v.one_target;
  waits_for = v.waits_for;
  no_null = v.no_null;
  owns = v.owns;
}

module _ {s : State} {u r k j : List Ptr} (v : IsValid s u r k j) where
  module _ (t : Ptr) (f g : Fiber) (at : s.fibers t ≡ some f) (minor : IsMinor f g) where
    -- Behind the write, each record has one before.
    record Old (a : Ptr) (w : Fiber) : Type 0 where
      old : Fiber
      there : s.fibers a ≡ some old
      change : IsMinor old w

    prior : (a : Ptr) (w : Fiber) → update s.fibers t (some g) a ≡ some w → Old a w
    prior a w there = elim (ℕ_discrete a t) [
      | yes e ↦
          let same : w ≡ g = ground arith in
          record { old = f; there = ground arith; change = rw same minor }
      | no ne ↦ record { old = w; there = ground arith; change = ground arith }
    ]

    new_of :
        (a : Ptr) (w : Fiber)
        → s.fibers a ≡ some w
        → (x : Fiber) × (update s.fibers t (some g) a ≡ some x) × IsMinor w x
    new_of a w there = elim (ℕ_discrete a t) [
      | yes e ↦ let same : w ≡ f = ground arith in (g, ground arith, rw same minor)
      | no ne ↦ (w, ground arith, ground arith)
    ]

    pub write-IsValid : IsValid (record s { fibers = update s.fibers t (some g) }) u r k j
    write-IsValid = record {
      ready = record { chain = v.ready.chain; tail = v.ready.tail; count = v.ready.count };
      parked = v.parked;
      joining = v.joining;
      small = v.small;
      room = v.room;
      batch = v.batch;
      once = v.once;
      known = λ a h.
          let (w, there, can) = v.known a h in
          let (x, now, change) = new_of a w there in
          (x, now, (λ e. can.0 (change.unfinished e), ground (arith, change.rip, can.1)));
      runs =
          λ a h. let (w, there) = v.runs a h in let (x, now, change) = new_of a w there in (x, now);
      asker = λ a w there h.
          let o = prior a w there in ground (arith, v.asker a o.old o.there h, o.change.asker);
      somewhere = λ a w there h.
          let o = prior a w there in v.somewhere a o.old o.there (λ e. h (o.change.finished e));
      joined = λ a w there h.
          let o = prior a w there in
          let busy : o.old.joiner ≢ null = ground (arith, o.change.joiner) in
          let (kept, alive, waiting) = v.joined a o.old o.there busy in
          let same : w.life ≡ o.old.life = o.change.detaches busy in
          (
            ground (arith, same),
            λ out. ground (arith, same, alive out),
            ground (arith, waiting, o.change.joiner),
          );
      one_target = λ a b w x there here h e.
          let o = prior a w there in
          let n = prior b x here in
          v.one_target a b o.old n.old o.there n.there (ground (arith, o.change.joiner))
            (ground (arith, o.change.joiner, n.change.joiner));
      waits_for = λ a h.
          let (q, w, there, e) = v.waits_for a h in
          let (x, now, change) = new_of q w there in (q, x, now, ground (arith, change.joiner));
      no_null = ground (arith, v.no_null);
      owns = λ a w there.
          let o = prior a w there in
          let (set, names) = v.owns a o.old o.there in
          (ground (arith, o.change.block), ground (arith, o.change.block));
    }

  -- A record that nobody joins and that is in no queue is given back; `u'` is what runs behind it.
  module _ (t : Ptr) (g : Fiber) (at : s.fibers t ≡ some g) (alone : g.joiner ≡ null)
      (idle : times t r + times t k + times t j ≡ 0) (u' : List Ptr)
      (fewer : (a : Ptr) → times a u' ≡ (if a == t then 0 else times a u))
      (shorter : length u' ≤ length u) where
    kept_from :
        (a : Ptr) (w : Fiber) → update s.fibers t none a ≡ some w → (s.fibers a ≡ some w) × (a ≢ t)
    kept_from a w there = elim (ℕ_discrete a t) [
      | yes e ↦ absurd (ground arith)
      | no ne ↦ (ground arith, ne)
    ]

    still : (a : Ptr) (w : Fiber) → s.fibers a ≡ some w → a ≢ t → update s.fibers t none a ≡ some w
    still a w there ne = ground arith

    pub release-IsValid : IsValid (record s { fibers = update s.fibers t none }) u' r k j
    release-IsValid = record {
      ready = record { chain = v.ready.chain; tail = v.ready.tail; count = v.ready.count };
      parked = v.parked;
      joining = v.joining;
      small = omega (arith, v.small);
      room = v.room;
      batch = v.batch;
      once = λ a. ground (arith, v.once a, fewer a);
      known = λ a h. let (w, there, can) = v.known a h in (w, still a w there (ground arith), can);
      runs = λ a h.
          let (w, there) = v.runs a (ground (arith, fewer a)) in
          (w, still a w there (ground (arith, fewer a)));
      asker = λ a w there h. v.asker a w (kept_from a w there).0 h;
      somewhere = λ a w there h.
          let (before, ne) = kept_from a w there in
          ground (arith, fewer a, v.somewhere a w before h);
      joined = λ a w there h.
          let (before, ne) = kept_from a w there in
          let (kept, alive, waiting) = v.joined a w before h in
          (kept, λ out. alive (ground (arith, fewer a)), waiting);
      one_target = λ a b w x there here h e.
          v.one_target a b w x (kept_from a w there).0 (kept_from b x here).0 h e;
      waits_for = λ a h.
          let (q, w, there, e) = v.waits_for a h in
          let (y, mapped, can) = v.known a (omega arith) in
          let ne : q ≢ t = ground (arith, v.no_null) in (q, w, still q w there ne, e);
      no_null = ground (arith, v.no_null);
      owns = λ a w there. v.owns a w (kept_from a w there).0;
    }
