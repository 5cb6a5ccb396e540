-- ===== src/Scheduler/Tests/Whole.antt =====
-- The rounds of that run, each with what may follow it.
use mathlib.Core.Path.{subst}
use libuc.Prelude.{◌++◌, pos, none, some, List, [], ◌∷◌, ◌≡◌, refl, ◌∙◌, ap, sym, arith}
use libuc.Machine.{Ptr, State, ok}
use libuc.Scheduler.Reactor.{turn, turns, poll}
use libuc.Scheduler.Dispatch.{Turned, start, next, WellBehaved}
use libuc.Scheduler.Poll.{reaped, Answering}
use libuc.Scheduler.Rounds.{Rounded, begin, again, Runs, run-Runs}
use libuc.Scheduler.Tests.States.{
  root, child, root_parked, root_parked-IsValid, root_parked-IsAccounted,
}
use libuc.Scheduler.Tests.Rounds.{goes_on_once, quits-WellBehaved, state_of, status_of}
use libuc.Scheduler.Tests.Answered.{
  posts, posts-IsCounted, posts-IsQuietFrom, yielded, polled_state, polled, first_turn, second_turn,
  first_turns, first_poll, third_turn, third_turns, polled_resumes, yielded_resumes,
  yielded-Answering, root_parked-WellBehaved,
}

-- A state whose turn ends the process leads to no other.
ends_here :
    (s t : State)
    → s.resumes ≡ 1
    → status_of (turn posts goes_on_once 1 s) ≡ some (pos 3)
    → Turned posts goes_on_once 1 s t
    → WellBehaved 0 1 goes_on_once t
ends_here s t one ends (start v) = quits-WellBehaved s one
ends_here s t one ends (next v w x e rest) = absurd (ground (arith, ends, e))

first_round :
    (t : State) → Turned posts goes_on_once 1 root_parked t → WellBehaved 0 1 goes_on_once t
first_round t (start s) = root_parked-WellBehaved
first_round t (next s u w e rest) = behind u (ap state_of (sym first_turn ∙ e)) rest
  where
    behind :
        (u : State) → yielded ≡ u → Turned posts goes_on_once 1 u t → WellBehaved 0 1 goes_on_once t
    behind u same there =
        ends_here u t (ap (λ x. x.resumes) (sym same) ∙ yielded_resumes)
          (ap (λ x. status_of (turn posts goes_on_once 1 x)) (sym same) ∙ second_turn) there

-- The one state that a round leads to.
after_round :
    (t u : State)
    → turns posts goes_on_once 1 root_parked.ready_count root_parked ≡ ok none t
    → poll posts goes_on_once 1 t ≡ ok tt u
    → polled ≡ u
after_round t u e f =
    let same : yielded ≡ t = ap state_of (sym first_turns ∙ e) in
    ap polled_state (sym first_poll ∙ ap (poll posts goes_on_once 1) same ∙ f)

second_round :
    (s t u : State) (d by_then : List Ptr)
    → polled ≡ s
    → Rounded posts goes_on_once 1 s d t by_then
    → Turned posts goes_on_once 1 t u
    → WellBehaved 0 1 goes_on_once u
second_round s t u d by_then same (begin v by_now) there =
    ends_here s u (ap (λ x. x.resumes) (sym same) ∙ polled_resumes)
      (ap (λ x. status_of (turn posts goes_on_once 1 x)) (sym same) ∙ third_turn) there
second_round s t u d by_then same (again v w x y by_now later e f rest) there = absurd (
    ground (
      arith,
      ap (λ x. status_of (turns posts goes_on_once 1 x.ready_count x)) same,
      third_turns,
      e,
    ))

no_third :
    (s t u : State) (d by_then : List Ptr)
    → polled ≡ s
    → Rounded posts goes_on_once 1 s d t by_then
    → turns posts goes_on_once 1 t.ready_count t ≡ ok none u
    → Answering posts 1 0 u by_then
no_third s t u d by_then same (begin v by_now) e = absurd (
    ground (
      arith,
      ap (λ x. status_of (turns posts goes_on_once 1 x.ready_count x)) same,
      third_turns,
      e,
    ))
no_third s t u d by_then same (again v w x y by_now later e f rest) g = absurd (
    ground (
      arith,
      ap (λ x. status_of (turns posts goes_on_once 1 x.ready_count x)) same,
      third_turns,
      e,
    ))

pub root_parked-behaves :
    (s t u : State) (d by_then : List Ptr)
    → root_parked ≡ s
    → Rounded posts goes_on_once 1 s d t by_then
    → Turned posts goes_on_once 1 t u
    → WellBehaved 0 1 goes_on_once u
root_parked-behaves s t u d by_then same (begin v by_now) there =
    first_round u (subst (λ x. Turned posts goes_on_once 1 x u) (sym same) there)
root_parked-behaves s t u d by_then same (again v w x y by_now later e f rest) there =
    second_round x t u (by_now ++ reaped posts 1 w) by_then
      (after_round w x (ap (λ x. turns posts goes_on_once 1 x.ready_count x) same ∙ e) f) rest there

pub root_parked-answers :
    (s t u : State) (d by_then : List Ptr)
    → root_parked ≡ s
    → [] ≡ d
    → Rounded posts goes_on_once 1 s d t by_then
    → turns posts goes_on_once 1 t.ready_count t ≡ ok none u
    → Answering posts 1 0 u by_then
root_parked-answers s t u d by_then same none_so_far (begin v by_now) e =
    yielded-Answering u d
      (ap state_of
        (sym first_turns ∙ ap (λ x. turns posts goes_on_once 1 x.ready_count x) same ∙ e))
      none_so_far
root_parked-answers s t u d by_then same none_so_far (again v w x y by_now later e f rest) g =
    no_third x t u (by_now ++ reaped posts 1 w) by_then
      (after_round w x (ap (λ x. turns posts goes_on_once 1 x.ready_count x) same ∙ e) f) rest g

run-Runs_example : Runs posts goes_on_once 1 2 root_parked []
run-Runs_example =
    run-Runs posts goes_on_once 1 0 posts-IsCounted posts-IsQuietFrom 2 root_parked [] (child ∷ [])
      (root ∷ []) [] root_parked-IsValid root_parked-IsAccounted
      (record {
        behaves = λ t u by_then there. root_parked-behaves root_parked t u [] by_then refl there;
        answers =
            λ t u by_then there. root_parked-answers root_parked t u [] by_then refl refl there;
      })
