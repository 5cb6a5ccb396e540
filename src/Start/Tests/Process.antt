-- ===== src/Start/Tests/Process.antt =====
-- A process whose program has one header, which is no thread-local segment, and whose root ends it.
use libuc.Prelude.{
  ◌<◌, ◌^◌, ℕ, ◌≡◌, ◌∙◌, ◌==◌, ap, sym, refl, arith, ℤ, pos, true, [], ◌∷◌, none, some, Option,
  List, if◌then◌else◌,
}
use libuc.Bits.{align_down, ckd}
use libuc.System.{syscall_failed}
use libuc.Ring.{Ring}
use libuc.Ring.Submit.{IsCounted, IsQuietFrom}
use libuc.Ring.Create.{create, map_rings, check_mask, ring_lengths}
use libuc.ThreadLocal.{Header, read_layout, scan, layout_of, place_x86_64, block_create, create_in}
use libuc.Machine.{Ptr, process_exits, State, Outcome, ok}
use libuc.Fiber.{spawn, spawn_on, new_fiber, record_address, context_make, resume}
use libuc.Scheduler.{become, enqueue}
use libuc.Scheduler.Reactor.{turn, turns}
use libuc.Scheduler.Dispatch.{WellBehaved}
use libuc.Scheduler.Rounds.{Rounded, begin, again, Cooperates}
use libuc.Scheduler.Spawn.{MapsFresh}
use libuc.Start.{prepare, enter_root}
use libuc.Start.Walk.{InitialStack}
use libuc.Start.Process.{laid_out, Starts, libuc_start-Starts}
use libuc.Start.Tests.{grants, grants_run, fresh_state, first, kernel}

-- argc, argv with its null, envp with its null, and AT_PHDR, AT_PHENT, AT_PHNUM and AT_NULL.
abbrev words : ℕ → ℕ
words i =
    if i == 0
    then 1
    else if i == 1
    then 80
    else if i == 3
    then 90
    else if i == 5
    then 3
    else if i == 6
    then 64
    else if i == 7
    then 4
    else if i == 8
    then 56
    else if i == 9
    then 5
    else if i == 10
    then 1
    else 0

abbrev pairs : List (ℕ × ℕ)
pairs = (3, 64) ∷ (4, 56) ∷ (5, 1) ∷ []

words-InitialStack : InitialStack words (80 ∷ []) (90 ∷ []) pairs
words-InitialStack = record {
  count = refl;
  fits = ground arith;
  arguments = (refl, ground arith, refl);
  environment = (refl, ground arith, refl);
  vector = (refl, ground arith, refl, (refl, ground arith, refl, (refl, ground arith, refl, refl)));
}

abbrev headers : (address : ℕ) → ℕ → Header
headers address i = record { p_type = 1; p_vaddr = 0; p_filesz = 0; p_memsz = 0; p_align = 8 }

abbrev blank : State
blank = record fresh_state { layout = none }

abbrev before : State
before = laid_out headers pairs blank

-- The layout is the one of a program with no thread-local segment.
before_is : before ≡ fresh_state
unfolding read_layout scan layout_of ckd
before_is = refl

abbrev state_of : {A : Type 0} → Outcome A → State
state_of (ok a t) = t
state_of _ = blank

abbrev ready_state : State
ready_state = state_of (prepare grants first 7 8 fresh_state)

prepare_run : prepare grants first 7 8 fresh_state ≡ ok true ready_state
unfolding prepare enter_root become create map_rings check_mask ring_lengths spawn spawn_on
    record_address align_down block_create create_in place_x86_64 ckd syscall_failed enqueue
    new_fiber context_make
prepare_run = refl

abbrev status_of : Outcome (Option ℤ) → Option ℤ
status_of (ok status t) = status
status_of _ = none

turns_run :
    status_of (turns kernel (λ _. first) 1 ready_state.ready_count ready_state) ≡ some (pos 0)
unfolding turns turn resume prepare enter_root become create map_rings check_mask ring_lengths spawn
    spawn_on record_address align_down block_create create_in place_x86_64 ckd syscall_failed
    enqueue new_fiber context_make
turns_run = refl

first-WellBehaved : (t : State) → WellBehaved 0 1 (λ _. first) t
unfolding syscall_failed
first-WellBehaved t p r k j f v at = record {
  ask = process_exits (pos 0);
  asked = refl;
  code = ground arith;
  keeps = tt;
  unmaps = λ address length. refl;
  allowed = tt;
}

-- Its first turn ends the process.
one_round :
    (s t u : State) (d by_then : List Ptr)
    → ready_state ≡ s
    → Rounded kernel (λ _. first) 1 s d t by_then
    → turns kernel (λ _. first) 1 t.ready_count t ≡ ok none u
    → ⊥
one_round s t u d by_then same (begin v by_now) e =
    ground
      (arith, ap (λ x. status_of (turns kernel (λ _. first) 1 x.ready_count x)) same, turns_run, e)
one_round s t u d by_then same (again v w x y by_now later e f rest) g =
    ground
      (arith, ap (λ x. status_of (turns kernel (λ _. first) 1 x.ready_count x)) same, turns_run, e)

kernel-IsCounted : IsCounted kernel
kernel-IsCounted n r to_submit min_complete = ground arith

kernel-IsQuietFrom : IsQuietFrom kernel 0
kernel-IsQuietFrom n r to_submit min_complete h = refl

ready_state-Cooperates :
    (t : State)
    → prepare grants first 7 8 before ≡ ok true t
    → Cooperates kernel (λ _. first) 1 0 t []
ready_state-Cooperates t e =
    let same : ready_state ≡ t =
      ap state_of (sym prepare_run ∙ ap (prepare grants first 7 8) (sym before_is) ∙ e) in
    record {
      behaves = λ v u by_then there turned. first-WellBehaved u;
      answers = λ v u by_then there f. absurd (one_round t v u [] by_then same there f);
    }

before-MapsFresh : MapsFresh first (become grants before).1 8388608
unfolding read_layout scan layout_of become create map_rings check_mask ring_lengths record_address
    align_down block_create create_in place_x86_64 ckd syscall_failed
before-MapsFresh = record {
  stack = λ h. (refl, ground arith);
  block = λ b after h. (ground arith, λ a f there. absurd (ground arith));
}

grants-small : (r : Ring) → (create grants).1 ≡ some r → r.sq_entries < 2 ^ 32
grants-small r e = ground (arith, grants_run, e)

libuc_start-Starts_example :
    Starts words headers grants first kernel (λ _. first) 2 4 1 3 7 8 blank before
libuc_start-Starts_example =
    libuc_start-Starts words headers grants first kernel (λ _. first) 2 4 1 3 7 8 (80 ∷ [])
      (90 ∷ []) pairs words-InitialStack (ground arith) (ground arith) blank 0 kernel-IsCounted
      kernel-IsQuietFrom refl (λ a. refl) grants-small before-MapsFresh ready_state-Cooperates
