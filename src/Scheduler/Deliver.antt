-- ===== src/Scheduler/Deliver.antt =====
-- A completion, and the turn of the fiber that it answers.
use mathlib.Core.Path.{subst}
use mathlib.Core.List.{append_assoc}
use libuc.Prelude.{
  ℕ, ◌+◌, ◌≡◌, ◌≢◌, ◌∙◌, refl, sym, ap, arith, ℤ, false, ◌==◌, List, [], ◌∷◌, ◌++◌, Option, some,
  ℕ_discrete, update,
}
use libuc.System.{syscall_failed}
use libuc.Ring.{Ring, Sqe, Cqe, Kernel, returned, submit}
use libuc.Ring.Queue.{queued}
use libuc.Ring.Submit.{IsCounted, IsQuietFrom}
use libuc.Machine.{Ptr, State, exited, ok}
use libuc.Fiber.{Event}
use libuc.Scheduler.Chain.{times, times-append}
use libuc.Scheduler.Reactor.{poll}
use libuc.Scheduler.Invariant.{IsValid}
use libuc.Scheduler.Account.{IsAccounted, answers_to, others, times-others}
use libuc.Scheduler.Spec.{Thread}
use libuc.Scheduler.Spec.Order.{Awaits}
use libuc.Scheduler.View.{thread, view, seen}
use libuc.Scheduler.Drain.{give, given_all}
use libuc.Scheduler.Dispatch.{Turned, WellBehaved}
use libuc.Scheduler.Fair.{GetsTurn, seen-result, turns-GetsTurn}
use libuc.Scheduler.Poll.{Answering, waits_for, Reaps, poll-Reaps}

answers_to-append : (cs ds : List Cqe) → answers_to (cs ++ ds) ≡ answers_to cs ++ answers_to ds
answers_to-append [] ds = refl
answers_to-append (c ∷ cs) ds = ap (λ l. c.user_data ∷ l) (answers_to-append cs ds)

-- A thread that no completion names is as it was.
given_all-apart :
    (cs : List Cqe) (threads : Ptr → Option Thread) (w : Ptr)
    → times w (answers_to cs) ≡ 0
    → given_all cs threads w ≡ threads w
given_all-apart [] threads w out = refl
given_all-apart (c ∷ cs) threads w out =
    let threads' : Ptr → Option Thread =
      update threads c.user_data (give c.res (threads c.user_data)) in
    given_all-apart cs threads' w (ground arith) ∙ ground arith

-- The last completion that names a thread is its answer.
given_all-Awaits :
    (before : List Cqe) (c : Cqe) (behind : List Cqe) (threads : Ptr → Option Thread) (x : Thread)
    → times c.user_data (answers_to behind) ≡ 0
    → threads c.user_data ≡ some x
    → x.life ≢ exited
    → Awaits (given_all (before ++ c ∷ behind) threads) c.user_data c.res
given_all-Awaits [] c behind threads x last at lives =
    let threads' : Ptr → Option Thread =
      update threads c.user_data (give c.res (threads c.user_data)) in
    let here : threads' c.user_data ≡ some (record x { answer = c.res }) = ground arith in
    (
      record x { answer = c.res },
      given_all-apart behind threads' c.user_data last ∙ here,
      lives,
      refl,
    )
given_all-Awaits (d ∷ before) c behind threads x last at lives =
    elim (ℕ_discrete c.user_data d.user_data) [
      | yes e ↦
          given_all-Awaits before c behind
            (update threads d.user_data (give d.res (threads d.user_data)))
            (record x { answer = d.res }) last (ground arith) lives
      | no ne ↦
          given_all-Awaits before c behind
            (update threads d.user_data (give d.res (threads d.user_data))) x last (ground arith)
            lives
    ]

-- What the completion `c`, behind and before others, comes to: the poll that reaps it, and the turn of
-- its fiber in the dispatch loop behind.
pub record Delivered (enter : Kernel) (events : ℕ → Event) (fuel : ℕ) (s : State) (r : List Ptr)
    (before : List Cqe) (c : Cqe) (behind : List Cqe) : Type 0 where
  pub after : State
  pub polls : poll enter events fuel s ≡ ok tt after
  pub turn :
      GetsTurn enter events fuel after
        (r ++ answers_to before)
        c.user_data
        (answers_to behind)
        c.res

module _ (enter : Kernel) (events : ℕ → Event) (fuel quiet : ℕ) (counted : IsCounted enter)
    (still : IsQuietFrom enter quiet) {answered : List Ptr} (before : List Cqe) (c : Cqe)
    (behind : List Cqe) where
  -- Behind the reap loop the fiber is ready, with the completion's result as its answer.
  reaped-GetsTurn :
      (s : State) (r k j : List Ptr) (cs : List Cqe)
      → IsValid s [] r k j
      → (p : Reaps enter events fuel answered s r k j cs) → cs ≡ before ++ c ∷ behind
      → ((u : State) → Turned enter events fuel p.drained.after u → WellBehaved quiet fuel events u)
      → GetsTurn enter events fuel p.drained.after
          (r ++ answers_to before)
          c.user_data
          (answers_to behind)
          c.res
  reaped-GetsTurn s r k j cs v p posted behaves =
      let w : Ptr = c.user_data in
      let d = p.drained in
      let split : answers_to cs ≡ answers_to before ++ w ∷ answers_to behind =
        ap answers_to posted ∙ answers_to-append before (c ∷ behind) in
      let named : times w (answers_to cs)
          ≡ times w (answers_to before) + times w (w ∷ answers_to behind) =
        ap (times w) split ∙ times-append w (answers_to before) (w ∷ answers_to behind) in
      let in_k : times w (others cs k) + times w (answers_to cs) ≡ times w k =
        times-others w cs k p.for_parked in
      let last : times w (answers_to behind) ≡ 0 = ground (arith, v.once w) in
      let (f, there, can) = p.valid.known w (ground arith) in
      let waits : Awaits (seen d.after) w c.res =
        subst (λ threads. Awaits threads w c.res)
          (ap (λ l. given_all l (seen p.submitted)) (sym posted) ∙ sym d.answers)
          (given_all-Awaits before c behind (seen p.submitted) (thread f) last (ap view there)
            can.0) in
      let v' : IsValid d.after [] ((r ++ answers_to before) ++ w ∷ answers_to behind) (others cs k)
          j =
        subst (λ l. IsValid d.after [] l (others cs k) j)
          (ap (λ l. r ++ l) split
            ∙ sym (append_assoc r (answers_to before) (w ∷ answers_to behind)))
          d.valid in
      let (g, at, able) =
        v'.known w
          (ground (arith, times-append w (r ++ answers_to before) (w ∷ answers_to behind))) in
      subst
        (λ answer.
          GetsTurn enter events fuel d.after (r ++ answers_to before) w (answers_to behind) answer)
        (seen-result d.after w g c.res at waits)
        (turns-GetsTurn enter events fuel quiet counted still (answered ++ answers_to cs) d.after
          (r ++ answers_to before) (answers_to behind) (others cs k) j w g v' p.account at behaves)

  -- A fiber that has awaited an operation goes on with its result. In a valid state with parked fibers
  -- that are accounted for, if the submit of the poll succeeds, the poll ends; and each completion that
  -- the kernel has posted by then, behind and before others, gives its fiber a turn in the next dispatch
  -- loop, behind the fibers that are ready and those that the earlier completions answer, with the
  -- completion's result as its answer: unless a turn before it ends the process or traps. The conditions
  -- are those of a poll, and those of a turn at each state that the next loop leads to.
  pub poll-Delivered :
      (s : State) (r k j : List Ptr)
      → IsValid s [] r k j
      → IsAccounted answered s k
      → Answering enter fuel quiet s answered
      → (s.parked_count == 0) ≡ false
      → (result : ℤ) (ring : Ring) (read : List Sqe) (n : ℕ)
      → submit enter fuel s.enters s.ring (waits_for s) ≡ returned result ring read n
      → syscall_failed result ≡ false
      → queued ring ≡ before ++ c ∷ behind
      → ((t u : State)
          → poll enter events fuel s ≡ ok tt t
          → Turned enter events fuel t u
          → WellBehaved quiet fuel events u)
      → Delivered enter events fuel s r before c behind
  poll-Delivered s r k j v h a some_parked result ring read n e fine posted behaves =
      let p =
        poll-Reaps enter events fuel quiet counted still s answered r k j result ring read n v h a
          some_parked e fine in
      record {
        after = p.drained.after;
        polls = p.polls;
        turn =
            reaped-GetsTurn s r k j (queued ring) v p posted
              (λ u. behaves p.drained.after u p.polls);
      }
