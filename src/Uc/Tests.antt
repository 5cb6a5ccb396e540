-- ===== src/Uc/Tests.antt =====
-- The second ring on a kernel that takes one entry at a time.
use libuc.Prelude.{
  some, ◌≡◌, ◌==◌, refl, pos, none, if◌then◌else◌, [], arith, update, ℕ, ◌∷◌, ℕ_discrete, slice,
}
use libuc.Ring.{zero_sqe, Ring, Kernel, submit, Cqe}
use libuc.Ring.Submit.{IsCounted}
use libuc.Uc.Operation.{
  Operation, Reactor, prepared, in_flight, complete, completed, Transfer, asks_next, dispatch,
  handle_completion, handle_next, put_in_flight, submit_first,
}
use libuc.Uc.Operation.Next.{Nexts, handle_next-Nexts}
use libuc.Uc.Ring.{append, ring_submit, ring_reap, pass}
use libuc.Ring.Create.{Setup, create}
use libuc.Uc.Ring.Create.{ring_create, ring_create-create}
use libuc.Uc.Ring.Same.{ring_submit-submit}
use libuc.Uc.Operation.Trace.{Minds, Serves, begins, dispatches, completes, Balances}
use libuc.Uc.Operation.Trace.Balance.{Serves-Balances}
use libuc.System.{syscall_failed}

abbrev full_ring : Ring
full_ring = record {
  ring_mapping = 0x9000;
  ring_mapping_length = 4096;
  sqes_mapping = 0xa000;
  sqes_mapping_length = 128;
  sqes = λ n. record zero_sqe { opcode = n };
  cq_head = 1;
  cq_tail = 1;
  cqes = λ n. record { user_data = n; res = pos 0; flags = 0 };
  descriptor = pos 3;
  sq_entries = 2;
  cq_entries = 4;
  cq_mask = 3;
  batch_count = 2;
}

abbrev one_by_one : Kernel
one_by_one n ring to_submit min_complete = record {
  result = pos (if to_submit == 0 then 0 else 1);
  tail = ring.cq_tail;
  cqes = ring.cqes;
}

ring_submit-submit_example :
    ring_submit one_by_one 3 0 full_ring 0 ≡ submit one_by_one 3 0 full_ring 0
ring_submit-submit_example = ring_submit-submit one_by_one 3 0 full_ring 0

-- The batch is full and no completion waits.
full_run : (append full_ring ≡ none) × (ring_reap full_ring ≡ none)
unfolding append ring_reap
full_run = (refl, refl)

abbrev operation : Operation
operation = record { owner = 0; submission = zero_sqe; result = pos 0; flags = 0; state = prepared }

abbrev reactor : Reactor
reactor = record {
  operations = update (λ _. none) 64 (some operation);
  ring = full_ring;
  enters = 0;
  submitted = [];
}

one_by_one-IsCounted : IsCounted one_by_one
one_by_one-IsCounted n ring to_submit min_complete = ground arith

handle_next-Nexts_example : Nexts one_by_one 3 32 64 operation reactor
handle_next-Nexts_example =
    handle_next-Nexts one_by_one 3 0 one_by_one-IsCounted (λ n ring to_submit min_complete h. refl)
      32 64 operation reactor refl (record { room = ground arith; small = ground arith })
      (ground arith) (ground arith)

-- A completion that announces more leaves the operation in flight.
completed_run :
    ((completed
        (record { user_data = 64; res = pos 1; flags = 2 })
        (record operation { state = in_flight })).state
      ≡ in_flight)
    × ((completed
          (record { user_data = 64; res = pos 1; flags = 0 })
          (record operation { state = in_flight })).state
        ≡ complete)
unfolding completed
completed_run = (refl, refl)

-- Its last completion.
abbrev last_one : Cqe
last_one = record { user_data = 64; res = pos 7; flags = 0 }

-- A grant of the kernel, and a creation.
abbrev grants : Setup
grants = record {
  result = pos 3;
  params = record {
    sq_entries = 2;
    cq_entries = 4;
    features = 1;
    head_offset = 0;
    tail_offset = 4;
    mask_offset = 8;
    cqes_offset = 64;
  };
  mmap = λ length offset. if offset == 0 then pos 0x9000 else pos 0xa000;
  word = λ address. if address == 0x9008 then 3 else 0;
  cqes = λ address i. record { user_data = 0; res = pos 0; flags = 0 };
  sqes = λ address i. zero_sqe;
}

ring_create-create_example : ring_create grants ≡ create grants
ring_create-create_example = ring_create-create grants

-- A queue of one entry and two operations: the second dispatch submits the first one's entry, which
-- the kernel then completes.
abbrev short_reactor : Reactor
short_reactor = record {
  operations = update (update (λ _. none) 64 (some operation)) 65 (some operation);
  ring = record full_ring { sq_entries = 1; batch_count = 0 };
  enters = 0;
  submitted = [];
}

abbrev asks_own : (scheduled value : ℕ) → Reactor → Transfer × Reactor
asks_own scheduled value r = (asks_next scheduled, r)

asks_own-Minds : Minds asks_own
asks_own-Minds = record {
  ring = λ scheduled value r. refl;
  submitted = λ scheduled value r. refl;
  in_flight_kept = λ scheduled value r p. refl;
}

short_reactor-Balances : Balances 1 [] short_reactor
unfolding slice
short_reactor-Balances = record {
  fits = record { room = ground arith; small = ground arith };
  slots = refl;
  balance = λ p. elim (ℕ_discrete p 65) [
    | yes e ↦ rw e refl
    | no ne ↦ elim (ℕ_discrete p 64) [ yes e ↦ rw e refl | no ne' ↦ ground arith ]
  ];
}

short_reactor-Serves :
    (after : Reactor) × Serves one_by_one 3 asks_own short_reactor (64 ∷ []) after
unfolding dispatch handle_completion handle_next put_in_flight submit_first append ring_submit pass
    syscall_failed completed
short_reactor-Serves = (
  _,
  completes (dispatches (dispatches (begins short_reactor) 64 0 refl) 65 0 refl) last_one refl refl,
)

Serves-Balances_example : Balances 1 (64 ∷ []) short_reactor-Serves.0
Serves-Balances_example =
    Serves-Balances one_by_one 3 0 1 one_by_one-IsCounted (λ n ring to_submit min_complete h. refl)
      (ground arith) (ground arith) asks_own asks_own-Minds short_reactor-Serves.1
      short_reactor-Balances
