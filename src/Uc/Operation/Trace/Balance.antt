-- ===== src/Uc/Operation/Trace/Balance.antt =====
-- An operation is submitted once, over any sequence of the scheduler's calls.
use mathlib.Core.Path.{subst}
use libuc.Prelude.{ℕ, ◌+◌, ◌<◌, ◌≡◌, refl, ap, sym, ◌∙◌, arith, List, [], ◌++◌, Option, none, some}
use libuc.Ring.{Cqe, Kernel}
use libuc.Ring.Submit.{IsCounted, IsQuietFrom}
use libuc.Scheduler.Chain.{times, times-append}
use libuc.Uc.Operation.{
  Operation, in_flight, Reactor, Step, goes, traps, faults, lacks_fuel, Transfer, returns, yields,
  asks_next, handle_next, dispatch, handle_completion,
}
use libuc.Uc.Operation.Next.{Nexts, unchanged, refused, queued, handle_next-Nexts}
use libuc.Uc.Operation.Completion.{delivered}
use libuc.Uc.Operation.Trace.{flying, ends, Minds, Serves, begins, dispatches, completes, Balances}
use libuc.Uc.Operation.Trace.Change.{queued-Balances, flying-delivered, flies}

-- An end of a step that is no trap.
abbrev gone : Reactor → Step → Reactor
gone r (goes after) = after
gone r traps = r
gone r faults = r
gone r lacks_fuel = r

goes-injective : {r s : Reactor} → goes r ≡ goes s → r ≡ s
goes-injective {r} e = ap (gone r) e

module _ (enter : Kernel) (fuel quiet size : ℕ) (counted : IsCounted enter)
    (still : IsQuietFrom enter quiet) (enough : quiet + size < fuel) (slots : 0 < size)
    (resume : (scheduled value : ℕ) → Reactor → Transfer × Reactor) (minds : Minds resume)
    (ended : List ℕ) where
  next-Balances :
      (scheduled p : ℕ) (r after : Reactor)
      → Balances size ended r
      → handle_next enter fuel scheduled p r ≡ goes after
      → Balances size ended after
  unfolding handle_next
  next-Balances scheduled p r after b e = by_operation (r.operations p) refl
    where
      by_step :
          (operation : Operation)
          → r.operations p ≡ some operation
          → Nexts enter fuel scheduled p operation r
          → Balances size ended after
      by_step operation at (unchanged started same) =
          subst (Balances size ended) (goes-injective (sym same ∙ e)) b
      by_step operation at (refused fresh full result ring read n e' fails trapped) =
          absurd (ground (arith, sym trapped ∙ e))
      by_step operation at (queued after' fresh same ops grown fits kept) =
          subst (Balances size ended) (goes-injective (sym same ∙ e)) (
            queued-Balances size scheduled p ended operation r after' b at fresh ops grown fits
              kept)

      by_operation : (x : Option Operation) → r.operations p ≡ x → Balances size ended after
      by_operation none at = absurd (ground (arith, at, e))
      by_operation (some operation) at = by_step operation at (
          handle_next-Nexts enter fuel quiet counted still scheduled p operation r at b.fits
            (omega (arith, b.slots, b.fits.room)) (omega (arith, b.slots)))

  resumed-Balances :
      (scheduled value : ℕ) (r : Reactor)
      → Balances size ended r
      → Balances size ended (resume scheduled value r).1
  resumed-Balances scheduled value r b =
      let ring = minds.ring scheduled value r in
      let submitted = minds.submitted scheduled value r in
      record {
        fits = rw ring b.fits;
        slots = rw ring b.slots;
        balance = λ p.
            rw (ring, submitted)
              (ap (λ n. n + times p ended) (minds.in_flight_kept scheduled value r p)
                ∙ b.balance p);
      }

  dispatch-Balances :
      (scheduled value : ℕ) (r after : Reactor)
      → Balances size ended r
      → dispatch enter fuel resume scheduled value r ≡ goes after
      → Balances size ended after
  unfolding dispatch
  dispatch-Balances scheduled value r after b e = by_transfer (resume scheduled value r).0 refl
    where
      resumed : Balances size ended (resume scheduled value r).1
      resumed = resumed-Balances scheduled value r b

      resumed_is :
          dispatch enter fuel resume scheduled value r ≡ goes (resume scheduled value r).1
          → Balances size ended after
      resumed_is same = subst (Balances size ended) (goes-injective (sym same ∙ e)) resumed

      asked :
          {p : ℕ}
          → (resume scheduled value r).0 ≡ asks_next p
          → dispatch enter fuel resume scheduled value r
            ≡ handle_next enter fuel scheduled p (resume scheduled value r).1
      asked to = rw (dispatch, to) refl

      by_transfer : (t : Transfer) → (resume scheduled value r).0 ≡ t → Balances size ended after
      by_transfer returns to = resumed_is (rw (dispatch, to) refl)
      by_transfer yields to = resumed_is (rw (dispatch, to) refl)
      by_transfer (asks_next p) to =
          next-Balances scheduled p (resume scheduled value r).1 after resumed (sym (asked to) ∙ e)

  delivered-Balances :
      (c : Cqe) (operation : Operation) (r : Reactor)
      → Balances size ended r
      → r.operations c.user_data ≡ some operation
      → operation.state ≡ in_flight
      → Balances size (ends c ++ ended) (delivered c operation r)
  delivered-Balances c operation r b at flies = record {
    fits = b.fits;
    slots = b.slots;
    balance = λ p. omega (
      arith,
      times-append p (ends c) ended,
      flying-delivered c operation r at flies p,
      b.balance p,
    );
  }

module _ (enter : Kernel) (fuel quiet size : ℕ) (counted : IsCounted enter)
    (still : IsQuietFrom enter quiet) (enough : quiet + size < fuel) (slots : 0 < size)
    (resume : (scheduled value : ℕ) → Reactor → Transfer × Reactor) (minds : Minds resume) where
  completed-Balances :
      (ended : List ℕ) (c : Cqe) (r after : Reactor)
      → Balances size ended r
      → flying c.user_data r ≡ 1
      → handle_completion enter fuel resume c r ≡ goes after
      → Balances size (ends c ++ ended) after
  unfolding handle_completion
  completed-Balances ended c r after b one e =
      let (operation, at, in_air) = flies (r.operations c.user_data) one in
      let resumes : handle_completion enter fuel resume c r
          ≡ dispatch enter fuel resume operation.owner c.user_data (delivered c operation r) =
        rw (handle_completion, at) refl in
      dispatch-Balances enter fuel quiet size counted still enough slots resume minds
        (ends c ++ ended) operation.owner c.user_data (delivered c operation r) after
        (delivered-Balances enter fuel quiet size counted still enough slots resume minds ended c
          operation r b at in_air)
        (sym resumes ∙ e)

  -- In every order of dispatches and completions that does not trap, an operation is submitted once:
  -- what the kernel has read and the batch together have as many entries tagged with it as
  -- completions have ended it, and one more if it is in flight; and the batch fits the queue. The
  -- conditions: it is so at the start, the fibers leave the ring and what is in flight to the
  -- scheduler, the kernel completes what is in flight, its counts are as documented, and there are
  -- slots, and fuel for the interrupts to come and a full batch.
  pub Serves-Balances :
      {start : Reactor} {ended : List ℕ} {after : Reactor}
      → Serves enter fuel resume start ended after
      → Balances size [] start
      → Balances size ended after
  Serves-Balances (begins r) b = b
  Serves-Balances {ended = ended} {after} (dispatches {r = r} before scheduled value e) b =
      dispatch-Balances enter fuel quiet size counted still enough slots resume minds ended
        scheduled value r after (Serves-Balances before b) e
  Serves-Balances {after = after} (completes {ended = ended} {r = r} before c one e) b =
      completed-Balances ended c r after (Serves-Balances before b) one e
