-- ===== src/Start/Tests.antt =====
-- A process with one argument and one environment string, and its start.
mod Process
mod Root
use libuc.Auxv.{auxv_get}
use libuc.Auxv.Search.{lookup}
use libuc.Start.Walk.{InitialStack, find_auxv-auxv_get}
use libuc.Prelude.{
  ℕ, ◌∷◌, ◌≤◌, ◌^◌, ◌↔◌, ◌⊎◌, ◌≢◌, ◌≡◌, ◌==◌, refl, arith, pos, [], none, some, if◌then◌else◌,
}
use libuc.Bits.{align_down, ckd}
use libuc.System.{syscall_failed}
use libuc.Ring.{Ring, zero_sqe, Kernel}
use libuc.Ring.Create.{Setup, create, map_rings, check_mask, ring_lengths}
use libuc.ThreadLocal.{place_x86_64, block_create, create_in}
use libuc.Machine.{null, State, process_exits}
use libuc.Fiber.{Event, zero_context, record_address}
use libuc.Scheduler.{become}
use libuc.Scheduler.Spawn.{MapsFresh}
use libuc.Start.{find_auxv, environment_end}
use libuc.Start.Boot.{Boots, boot-Boots}

-- argc, argv with its null, envp with its null: the auxiliary vector begins at word 5.
abbrev words : ℕ → ℕ
words i =
    if i == 0
    then 1
    else if i == 1
    then 80
    else if i == 3
    then 90
    else if i == 5
    then 3
    else if i == 6
    then 64
    else 0

words-InitialStack : InitialStack words (80 ∷ []) (90 ∷ []) ((3, 64) ∷ [])
words-InitialStack = record {
  count = refl;
  fits = ground arith;
  arguments = (refl, ground arith, refl);
  environment = (refl, ground arith, refl);
  vector = (refl, ground arith, refl, refl);
}

find_auxv-auxv_get_example :
    (start : ℕ) × (find_auxv words 2 ≡ some (some start))
    × ((type : ℕ) → auxv_get words type 2 start ≡ some (lookup ((3, 64) ∷ []) type))
find_auxv-auxv_get_example =
    find_auxv-auxv_get words (80 ∷ []) (90 ∷ []) ((3, 64) ∷ []) 2 2 words-InitialStack
      (ground arith) (ground arith)

find_auxv_run : find_auxv words 2 ≡ some (some 5)
unfolding find_auxv environment_end
find_auxv_run = refl

abbrev pub ring : Ring
ring = record {
  ring_mapping = 0x9000;
  ring_mapping_length = 128;
  sqes_mapping = 0xa000;
  sqes_mapping_length = 128;
  sqes = λ _. zero_sqe;
  cq_head = 0;
  cq_tail = 0;
  cqes = λ _. record { user_data = 0; res = pos 0; flags = 0 };
  descriptor = pos 3;
  sq_entries = 2;
  cq_entries = 4;
  cq_mask = 3;
  batch_count = 0;
}

abbrev pub grants : Setup
grants = record {
  result = pos 3;
  params = record {
    sq_entries = 2;
    cq_entries = 4;
    features = 1;
    head_offset = 0;
    tail_offset = 4;
    mask_offset = 8;
    cqes_offset = 64;
  };
  mmap = λ length offset. if offset == 0 then pos 0x9000 else pos 0xa000;
  word = λ address. if address == 0x9008 then 3 else 0;
  cqes = λ address i. record { user_data = 0; res = pos 0; flags = 0 };
  sqes = λ address i. zero_sqe;
}

pub grants_run : (create grants).1 ≡ some ring
unfolding create map_rings check_mask ring_lengths ckd syscall_failed
grants_run = refl

abbrev pub fresh_state : State
fresh_state = record {
  fibers = λ _. none;
  next = λ _. null;
  layout = some (record { image = 0; image_size = 0; block_size = 0; alignment = 1 });
  bytes = λ _. 0;
  tcbs = λ _. record { self = 0; fiber = 0 };
  thread_pointer = 0;
  ring = ring;
  ready_head = null;
  ready_tail = null;
  ready_count = 0;
  parked_count = 0;
  joining_count = 0;
  resumes = 0;
  enters = 0;
  submitted = [];
}

abbrev pub first : Event
first = record {
  request = some (process_exits (pos 0));
  saved = record zero_context { rip = 0x3000 };
  left_pointer = 0x100000;
  mmap_stack = λ _. pos 0x200000;
  mmap_block = λ _. pos 0x100000;
  munmap = λ _ _. pos 0;
}

abbrev pub kernel : Kernel
kernel n r to_submit min_complete = record {
  result = pos to_submit;
  tail = r.cq_tail;
  cqes = r.cqes;
}
