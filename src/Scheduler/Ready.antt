-- ===== src/Scheduler/Ready.antt =====
-- The ready queue against a list: enqueue adds behind, dequeue takes the front.
use libuc.Prelude.{
  ◌+◌, ◌-◌, ◌%◌, ◌^◌, ◌≤◌, ◌<◌, ◌≡◌, ◌≢◌, sym, false, arith, List, [], ◌∷◌, ◌++◌, ◌==◌,
  if◌then◌else◌, update, length, length-append, some,
}
use libuc.Machine.{Ptr, null, Fiber, State, ok}
use libuc.Scheduler.{enqueue, dequeue}
use libuc.Scheduler.Chain.{
  times, last_from, last_from-append, times-last, Chain, Chain-update, Chain-snoc,
}

-- The record at a pointer is mapped.
abbrev pub Mapped : State → Ptr → Type 0
Mapped s p = (f : Fiber) × (s.fibers p ≡ some f)

-- The ready queue of `s` holds the pointers of the list, first to run first.
pub record IsReady (s : State) (xs : List Ptr) : Type 0 where
  pub chain : Chain s.next s.ready_head xs
  pub tail : s.ready_tail ≡ last_from null xs
  pub count : s.ready_count ≡ length xs

-- What an enqueue leaves.
unfoldable pub enqueued : Ptr → State → State
enqueued p s = record s {
  ready_count = (s.ready_count + 1) % 2 ^ 32;
  next =
      if s.ready_tail == null
      then update s.next p null
      else update (update s.next p null) s.ready_tail p;
  ready_head = if s.ready_tail == null then p else s.ready_head;
  ready_tail = p;
}

-- What a dequeue leaves.
unfoldable pub dequeued : State → State
dequeued s = record s {
  ready_head = s.next s.ready_head;
  ready_count = (s.ready_count + 2 ^ 32 - 1) % 2 ^ 32;
  ready_tail = if s.next s.ready_head == null then null else s.ready_tail;
  next = update s.next s.ready_head null;
}

last-ne-null :
    (next : Ptr → Ptr) (p x : Ptr) (xs : List Ptr) → Chain next p (x ∷ xs) → last_from x xs ≢ null
last-ne-null next p x [] (e, ne, c) = ne
last-ne-null next p x (y ∷ ys) (e, ne, c) = last-ne-null next (next x) y ys c

-- The steps of an enqueue on a well-formed queue.
module _ (s : State) (p : Ptr) (mapped : Mapped s p) where
  enqueue-ok :
      (xs : List Ptr)
      → IsReady s xs
      → ((a : Ptr) → 1 ≤ times a xs → Mapped s a)
      → enqueue p s ≡ ok tt (enqueued p s)
  unfolding enqueue enqueued
  enqueue-ok [] q known = ground (arith, q.tail, mapped.1)
  enqueue-ok (x ∷ xs) q known =
      let (f, at) = known (last_from x xs) (times-last x xs) in
      ground (arith, q.tail, mapped.1, at, last-ne-null s.next s.ready_head x xs q.chain)

  enqueued-IsReady :
      (xs : List Ptr)
      → IsReady s xs
      → ((a : Ptr) → times a xs ≤ 1)
      → times p xs ≡ 0
      → p ≢ null
      → length xs + 1 < 2 ^ 32
      → IsReady (enqueued p s) (xs ++ p ∷ [])
  unfolding enqueued
  enqueued-IsReady [] q once out live small = ground (arith, q.tail, q.count)
  enqueued-IsReady (x ∷ xs) q once out live small =
      let ne = last-ne-null s.next s.ready_head x xs q.chain in
      let busy : (s.ready_tail == null) ≡ false = ground (arith, q.tail) in
      let apart : Chain (update s.next p null) s.ready_head (x ∷ xs) =
        Chain-update s.next s.ready_head p null (x ∷ xs) out q.chain in
      let linked =
        Chain-snoc (update s.next p null) s.ready_head x xs p apart (once (last_from x xs)) live
          (ground arith) out in
      rw (busy, q.tail)
        (record {
          chain = linked;
          tail = sym (last_from-append x xs p);
          count = omega (arith, length-append (x ∷ xs) (p ∷ []), q.count);
        })

  -- An enqueue puts a fiber that is not queued behind the others, and counts it.
  pub enqueue-snoc :
      (xs : List Ptr)
      → IsReady s xs
      → ((a : Ptr) → 1 ≤ times a xs → Mapped s a)
      → ((a : Ptr) → times a xs ≤ 1)
      → times p xs ≡ 0
      → p ≢ null
      → length xs + 1 < 2 ^ 32
      → (enqueue p s ≡ ok tt (enqueued p s)) × IsReady (enqueued p s) (xs ++ p ∷ [])
  enqueue-snoc xs q known once out live small =
      (enqueue-ok xs q known, enqueued-IsReady xs q once out live small)

-- A dequeue takes the fiber at the front, whoever was enqueued first, and leaves the others in
-- order; the count never wraps.
pub dequeue-cons :
    (s : State) (p : Ptr) (xs : List Ptr)
    → IsReady s (p ∷ xs)
    → Mapped s p
    → times p xs ≡ 0
    → length (p ∷ xs) < 2 ^ 32
    → (dequeue s ≡ ok p (dequeued s)) × IsReady (dequeued s) xs
unfolding dequeue dequeued
dequeue-cons s p [] q (f, at) out small =
    (ground (arith, q.chain), ground (arith, q.chain, q.tail, q.count))
dequeue-cons s p (x ∷ xs) q (f, at) out small =
    let (head, ne, rest) = q.chain in
    let next_is : s.next s.ready_head ≡ x = ground arith in
    let apart : Chain (update s.next s.ready_head null) (s.next s.ready_head) (x ∷ xs) =
      Chain-update s.next (s.next s.ready_head) s.ready_head null (x ∷ xs) (ground arith)
        (rw head rest) in
    (
      ground arith,
      record { chain = apart; tail = ground (arith, q.tail, rest); count = omega (arith, q.count) },
    )
