-- ===== src/Scheduler/Tests/States.antt =====
-- States of two fibers, the root and a child, and worlds for them.
use libuc.Prelude.{
  ℕ, zero, suc, ◌+◌, ◌*◌, pos, none, some, [], ◌∷◌, arith, refl, ℕ_discrete, length, update, slice,
}
use libuc.System.{syscall_failed}
use libuc.Ring.{zero_sqe, Cqe, Ring, Kernel}
use libuc.ThreadLocal.{ImageLayout, LocalBlock}
use libuc.Machine.{
  Ptr, null, Context, Ask, yields, returns, awaits, spawns, joins, process_exits, exited, Fiber,
  State,
}
use libuc.Fiber.{Event, zero_context, new_fiber}
use libuc.Scheduler.Account.{IsAccounted}
use libuc.Scheduler.Invariant.{CanRun, IsValid}
use libuc.Scheduler.Exit.{Unmaps}
use libuc.Ring.Submit.{IsCounted, IsQuietFrom}

abbrev pub empty_ring : Ring
empty_ring = record {
  ring_mapping = 0x9000;
  ring_mapping_length = 4096;
  sqes_mapping = 0xa000;
  sqes_mapping_length = 128;
  sqes = λ _. zero_sqe;
  cq_head = 0;
  cq_tail = 0;
  cqes = λ _. record { user_data = 0; res = pos 0; flags = 0 };
  descriptor = pos 3;
  sq_entries = 2;
  cq_entries = 4;
  cq_mask = 3;
  batch_count = 0;
}

abbrev pub plain_layout : ImageLayout
plain_layout = record { image = 0; image_size = 0; block_size = 0; alignment = 1 }

abbrev pub empty_state : State
empty_state = record {
  fibers = λ _. none;
  next = λ _. null;
  layout = some plain_layout;
  bytes = λ _. 0;
  tcbs = λ _. record { self = 0; fiber = 0 };
  thread_pointer = 0;
  ring = empty_ring;
  ready_head = null;
  ready_tail = null;
  ready_count = 0;
  parked_count = 0;
  joining_count = 0;
  resumes = 0;
  enters = 0;
  submitted = [];
}

abbrev pub running : Context
running = record zero_context { rip = 0x3000 }

-- A turn with this request; the mappings are at fresh addresses.
abbrev pub asks : ℕ → ℕ → Ask → Event
asks base pointer ask = record {
  request = some ask;
  saved = running;
  left_pointer = pointer;
  mmap_stack = λ _. pos (base * 4096);
  mmap_block = λ _. pos (base * 4096 + 2048);
  munmap = λ _ _. pos 0;
}

abbrev pub root_block : LocalBlock
root_block = record { mapping = 2048; mapping_length = 24; block = 2048; thread_pointer = 2048 }

abbrev pub root : Ptr
root = 1024

abbrev pub started : State
started = record empty_state {
  fibers = update (λ _. none) root (some (new_fiber root 0 1184 7 0 root_block));
  tcbs = update (λ _. record { self = 0; fiber = 0 }) 2048 (record { self = 2048; fiber = root });
  ready_head = root;
  ready_tail = root;
  ready_count = 1;
}

-- The root spawns a fiber, joins it; the child exits with 5; the root awaits, and exits with 9.
abbrev pub script : ℕ → Event
script zero = asks 2 2048 (spawns 1024 11 12)
script (suc zero) = asks 3 2048 (joins 0x2360)
script (suc (suc zero)) = asks 4 0x2800 (returns (pos 5))
script (suc (suc (suc zero))) = asks 5 2048 (awaits zero_sqe)
script _ = asks 6 2048 (process_exits (pos 9))

abbrev pub child : Ptr
child = 9056

abbrev pub child_block : LocalBlock
child_block = record { mapping = 10240; mapping_length = 24; block = 10240; thread_pointer = 10240 }

-- Two fibers that have asked before.
abbrev pub root_fiber : Fiber
root_fiber = record (new_fiber root 0 1184 7 0 root_block) {
  context = running;
  request = record { ask = yields; result = pos 0; fiber = root };
}

abbrev pub child_fiber : Fiber
child_fiber = record (new_fiber child 8192 1024 11 12 child_block) {
  context = running;
  request = record { ask = yields; result = pos 0; fiber = child };
}

abbrev pub pair : Fiber → Fiber → State
pair f g = record empty_state {
  fibers = update (update (λ _. none) root (some f)) child (some g);
  tcbs =
      update
        (update (λ _. record { self = 0; fiber = 0 }) 2048 (record { self = 2048; fiber = root }))
        10240 (record { self = 10240; fiber = child });
}

-- The root runs, and the child is ready.
abbrev pub root_runs : State
root_runs = record (pair root_fiber child_fiber) {
  ready_head = child;
  ready_tail = child;
  ready_count = 1;
}

pub root_runs-IsValid : IsValid root_runs (root ∷ []) (child ∷ []) [] []
unfolding new_fiber
root_runs-IsValid = record {
  ready = ground arith;
  parked = refl;
  joining = refl;
  small = ground arith;
  room = ground arith;
  batch = ground arith;
  once = λ a. ground arith;
  known = λ a h. (child_fiber, ground arith, ground arith);
  runs = λ a h. (root_fiber, ground arith);
  asker = λ a x there h. ground arith;
  somewhere = λ a x there h. ground arith;
  joined = λ a x there h. ground arith;
  one_target = λ a b x y there here h e. ground arith;
  waits_for = λ a h. absurd (ground arith);
  no_null = refl;
  owns = λ a x there. ground arith;
}

pub root_can : CanRun root_fiber
unfolding new_fiber
root_can = ground arith

-- The child has exited, and the root joins it.
abbrev pub child_over : Fiber
child_over = record child_fiber { joiner = root; life = exited; status = pos 5 }

abbrev pub child_ends : State
child_ends = record (pair root_fiber child_over) { joining_count = 1 }

pub child_ends-IsValid : IsValid child_ends (child ∷ []) [] [] (root ∷ [])
unfolding new_fiber
child_ends-IsValid = record {
  ready = ground arith;
  parked = refl;
  joining = refl;
  small = ground arith;
  room = ground arith;
  batch = ground arith;
  once = λ a. ground arith;
  known = λ a h. (root_fiber, ground arith, ground arith);
  runs = λ a h. (child_over, ground arith);
  asker = λ a x there h. ground arith;
  somewhere = λ a x there h. ground arith;
  joined = λ a x there h. ground arith;
  one_target = λ a b x y there here h e. ground arith;
  waits_for = λ a h. (child, child_over, ground arith, ground arith);
  no_null = refl;
  owns = λ a x there. ground arith;
}

-- The root is parked, and the child is ready.
abbrev pub root_parked : State
root_parked = record root_runs {
  parked_count = 1;
  submitted = record zero_sqe { user_data = root } ∷ [];
}

-- The kernel has read the root's entry and has not completed it.
pub root_parked-IsAccounted : IsAccounted [] root_parked (root ∷ [])
unfolding slice
root_parked-IsAccounted = record { adds_up = λ a. omega arith }

pub root_parked-IsValid : IsValid root_parked [] (child ∷ []) (root ∷ []) []
unfolding new_fiber
root_parked-IsValid = record {
  ready = ground arith;
  parked = refl;
  joining = refl;
  small = ground arith;
  room = ground arith;
  batch = ground arith;
  once = λ a. ground arith;
  known = λ a h. elim (ℕ_discrete a root) [
    | yes e ↦ (root_fiber, ground arith, ground arith)
    | no ne ↦ (child_fiber, ground arith, ground arith)
  ];
  runs = λ a h. absurd (ground arith);
  asker = λ a x there h. ground arith;
  somewhere = λ a x there h. ground arith;
  joined = λ a x there h. ground arith;
  one_target = λ a b x y there here h e. ground arith;
  waits_for = λ a h. absurd (ground arith);
  no_null = refl;
  owns = λ a x there. ground arith;
}

abbrev pub works : Event
works = asks 7 2048 yields

pub works-Unmaps : Unmaps works
unfolding syscall_failed
works-Unmaps address length = refl

abbrev pub completion : Cqe
completion = record { user_data = root; res = pos 77; flags = 1 }

abbrev pub obedient : Kernel
obedient n ring to_submit min_complete = record {
  result = pos to_submit;
  tail = ring.cq_tail;
  cqes = ring.cqes;
}

pub obedient-IsCounted : IsCounted obedient
obedient-IsCounted n ring to_submit min_complete = ground arith

pub obedient-IsQuietFrom : IsQuietFrom obedient 0
obedient-IsQuietFrom n ring to_submit min_complete h = refl
