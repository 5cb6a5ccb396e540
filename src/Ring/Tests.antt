-- ===== src/Ring/Tests.antt =====
-- Runs of the ring on two entries and four completions, with a kernel that takes one entry at a time.
use libuc.Prelude.{
  ℕ, ◌+◌, ◌-◌, ◌^◌, ◌≡◌, refl, arith, pos, ◌⊎◌, none, some, [], ◌∷◌, ◌++◌, ◌==◌, if◌then◌else◌,
  update, slice,
}
use libuc.Ring.{Sqe, zero_sqe, Cqe, Ring, Reply, Kernel, with_reply, submit, reap}
use libuc.Bits.{ckd}
use libuc.System.{syscall_failed}
use libuc.Ring.Create.{Setup, mapped, create, map_rings, check_mask, ring_lengths}
use libuc.Ring.Create.Balance.{Balanced, create-Balanced}
use libuc.Ring.Batch.{IsBatch}
use libuc.Ring.Submit.{Delivers, IsCounted, IsQuietFrom, submit-Delivers}
use libuc.Ring.Queue.{IsQueue, queued, reap-queued}
use libuc.Ring.Queue.Post.{Drains, post-Drains}

abbrev entry : ℕ → Sqe
entry n = record zero_sqe { opcode = n }

abbrev completion : ℕ → Cqe
completion n = record { user_data = n; res = pos 0; flags = 0 }

-- Two entries wait in the batch; the words of the completion queue are about to wrap.
abbrev full_ring : Ring
full_ring = record {
  ring_mapping = 0x9000;
  ring_mapping_length = 4096;
  sqes_mapping = 0xa000;
  sqes_mapping_length = 128;
  sqes = entry;
  cq_head = 2 ^ 32 - 1;
  cq_tail = 1;
  cqes = completion;
  descriptor = pos 3;
  sq_entries = 2;
  cq_entries = 4;
  cq_mask = 3;
  batch_count = 2;
}

abbrev one_by_one : Kernel
one_by_one n ring to_submit min_complete = record {
  result = pos (if to_submit == 0 then 0 else 1);
  tail = ring.cq_tail;
  cqes = ring.cqes;
}

full_ring-IsBatch : IsBatch full_ring
full_ring-IsBatch = record { room = ground arith; small = ground arith }

full_ring-IsQueue : IsQueue full_ring
full_ring-IsQueue = record {
  head = ground arith;
  tail = ground arith;
  order = 2;
  order_small = ground arith;
  entries = refl;
  mask = refl;
  room = ground arith;
}

-- The two completions behind the wrap are read in order.
queued_full : queued full_ring ≡ completion 3 ∷ completion 0 ∷ []
unfolding slice
queued_full = refl

one_by_one-IsCounted : IsCounted one_by_one
one_by_one-IsCounted n ring to_submit min_complete = ground arith

one_by_one-IsQuietFrom : IsQuietFrom one_by_one 0
one_by_one-IsQuietFrom n ring to_submit min_complete h = refl

submit-Delivers_example : Delivers full_ring 0 (submit one_by_one 3 0 full_ring 0)
submit-Delivers_example =
    submit-Delivers one_by_one 0 one_by_one-IsCounted one_by_one-IsQuietFrom 3 0 full_ring 0
      full_ring-IsBatch (ground arith)

reap-queued_example :
    ((queued full_ring ≡ []) × (reap full_ring ≡ none))
    ⊎ ((c : Cqe) × (ring' : Ring) × (reap full_ring ≡ some (c, ring'))
        × (queued full_ring ≡ c ∷ queued ring')
        × IsQueue ring')
reap-queued_example = reap-queued full_ring full_ring-IsQueue

abbrev posted : Reply
posted = record { result = pos 0; tail = 2; cqes = update completion 1 (completion 9) }

post-Drains_example : Drains (with_reply full_ring posted) (queued full_ring ++ completion 9 ∷ [])
post-Drains_example =
    post-Drains full_ring full_ring-IsQueue posted (completion 9) (ground arith) refl refl

-- A kernel that grants two entries and four completions.
abbrev grants : Setup
grants = record {
  result = pos 3;
  params = record {
    sq_entries = 2;
    cq_entries = 4;
    features = 1;
    head_offset = 0;
    tail_offset = 4;
    mask_offset = 8;
    cqes_offset = 64;
  };
  mmap = λ length offset. pos (0x9000 + offset);
  word = λ address. if address == 0x9008 then 3 else 0;
  cqes = λ address. completion;
  sqes = λ address. entry;
}

create-Balanced_example : Balanced grants (create grants)
create-Balanced_example = create-Balanced grants

-- It gives a ring, with both mappings made.
create_run : (create grants).0 ≡ mapped 0x9000 128 ∷ mapped 0x10009000 128 ∷ []
unfolding create map_rings check_mask ring_lengths ckd syscall_failed
create_run = refl
