-- ===== src/Scheduler/Invariant.antt =====
-- Where every fiber is: running, ready, parked on the ring, or joining another; and what the
-- records, the counts and the links say of it.
use libuc.Prelude.{ℕ, ◌+◌, ◌≤◌, ◌<◌, ◌^◌, ◌≡◌, ◌≢◌, List, some, none, length}
use libuc.Machine.{Ptr, null, Fiber, live, detached, exited, State}
use libuc.Fiber.Resume.{Owns}
use libuc.Ring.Batch.{IsBatch}
use libuc.Scheduler.Chain.{times}
use libuc.Scheduler.Ready.{IsReady, Mapped}

-- A fiber that some list waits for: it is not finished, and a resume runs it.
abbrev pub CanRun : Fiber → Type 0
CanRun f = (f.life ≢ exited) × (f.context.rip ≢ 0)

-- The batch, and what the kernel has read, are as they were.
abbrev pub SameLog : State → State → Type 0
SameLog s t = (t.ring ≡ s.ring) × (t.submitted ≡ s.submitted)

-- In how many places a fiber is: running, in the ready queue, parked, joining.
abbrev pub places : (running ready parked joining : List Ptr) → Ptr → ℕ
places u r k j a = times a u + times a r + times a k + times a j

-- The state with its fibers in four lists.
pub record IsValid (s : State) (u r k j : List Ptr) : Type 0 where
  pub ready : IsReady s r
  pub parked : s.parked_count ≡ length k
  pub joining : s.joining_count ≡ length j
  pub small : length r + length k + length j + length u < 2 ^ 32
  pub room : length k ≤ s.ring.cq_entries
  pub batch : IsBatch s.ring
  -- No fiber is in two places.
  pub once : (a : Ptr) → places u r k j a ≤ 1
  -- A fiber that waits is mapped and can run.
  pub known :
      (a : Ptr)
      → 1 ≤ times a r + times a k + times a j
      → (f : Fiber) × (s.fibers a ≡ some f) × CanRun f
  pub runs : (a : Ptr) → 1 ≤ times a u → Mapped s a
  -- A fiber that waits for an answer is the one that its request names.
  pub asker :
      (a : Ptr) (f : Fiber) → s.fibers a ≡ some f → 1 ≤ times a k + times a j → f.request.fiber ≡ a
  -- No fiber is lost: one that has not finished is somewhere.
  pub somewhere :
      (a : Ptr) (f : Fiber) → s.fibers a ≡ some f → f.life ≢ exited → places u r k j a ≡ 1
  -- Who is joined has not been detached, and has finished only if it is running its last turn.
  pub joined :
      (a : Ptr) (f : Fiber)
      → s.fibers a ≡ some f
      → f.joiner ≢ null
      → (f.life ≢ detached) × (times a u ≡ 0 → f.life ≡ live) × (times f.joiner j ≡ 1)
  -- A fiber joins one other at a time, and every one in the list does join a mapped fiber.
  pub one_target :
      (a b : Ptr) (f g : Fiber)
      → s.fibers a ≡ some f
      → s.fibers b ≡ some g
      → f.joiner ≢ null
      → f.joiner ≡ g.joiner
      → a ≡ b
  pub waits_for :
      (a : Ptr) → 1 ≤ times a j → (t : Ptr) × (g : Fiber) × (s.fibers t ≡ some g) × (g.joiner ≡ a)
  pub no_null : s.fibers null ≡ none
  pub owns : (a : Ptr) (f : Fiber) → s.fibers a ≡ some f → Owns s a f
