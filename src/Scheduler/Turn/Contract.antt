-- ===== src/Scheduler/Turn/Contract.antt =====
-- What a turn may do and what it may trap on: the contract of each request.
use mathlib.Core.Path.{subst}
use libuc.Prelude.{ℕ, ◌≡◌, ◌≢◌, ◌⊎◌, ℤ, List, [], ◌∷◌, Option, some, none, true, update}
use libuc.System.{syscall_failed}
use libuc.Ring.{Ring, Sqe, Kernel, returned, submit}
use libuc.Machine.{
  Ptr, null, Ask, awaits, joins, detaches, process_exits, Fiber, State, detached, Outcome, ok, trap,
  fault, out_of_fuel, and_then,
}
use libuc.Scheduler.Invariant.{IsValid}
use libuc.Scheduler.Account.{IsAccounted}
use libuc.Scheduler.Spec.{Thread, Abstract, asking, Does, Turns, turns}
use libuc.Scheduler.Spec.Order.{Turns-ready}
use libuc.Scheduler.View.{seen, Shows}
use libuc.Scheduler.Turn.Safe.{IsSafe}

-- The kernel refuses a full batch.
pub record Refused (enter : Kernel) (fuel : ℕ) (s : State) : Type 0 where
  pub full : s.ring.batch_count ≡ s.ring.sq_entries
  pub result : ℤ
  pub ring : Ring
  pub read : List Sqe
  pub entered : ℕ
  pub submits : submit enter fuel s.enters s.ring 0 ≡ returned result ring read entered
  pub fails : syscall_failed result ≡ true

-- The handle of a fiber that somebody joins or that is detached.
abbrev pub IsTaken : State → Ptr → Type 0
IsTaken s target =
    (g : Fiber) × (s.fibers target ≡ some g) × ((g.joiner ≢ null) ⊎ (g.life ≡ detached))

-- What a request traps on.
abbrev pub Breaks : Kernel → (fuel : ℕ) → State → Ptr → Ask → Type 0
Breaks enter fuel s p (joins target) = (target ≡ p) ⊎ IsTaken s target
Breaks enter fuel s p (detaches target) = IsTaken s target
Breaks enter fuel s p (awaits sqe) =
    (sqe.flags ≢ 0) ⊎ (s.parked_count ≡ s.ring.cq_entries) ⊎ Refused enter fuel s
Breaks enter fuel s p _ = ⊥

module _ (enter : Kernel) (fuel : ℕ) (answered : List Ptr) (s : State) (p : Ptr) (t : Thread)
    (r k j : List Ptr) (ask : Ask) where
  -- A command does what the request of the running thread may lead to, or traps on a broken contract.
  abbrev pub Follows : Outcome (Unit {0}) → Type 0
  Follows (ok done u) =
      (b : Abstract) × Does (seen s) p t r k j ask b × Shows u b × IsAccounted answered u b.parked
  Follows trap = Breaks enter fuel s p ask
  Follows fault = ⊥
  Follows out_of_fuel = ⊥

  -- And so does the switch, where a process exit gives its status.
  abbrev pub Meets : Outcome (Option ℤ) → Type 0
  Meets (ok none u) =
      (b : Abstract) × Does (seen s) p t r k j ask b × Shows u b × IsAccounted answered u b.parked
  Meets (ok (some code) u) = ask ≡ process_exits code
  Meets trap = Breaks enter fuel s p ask
  Meets fault = ⊥
  Meets out_of_fuel = ⊥

  pub goes_on : (o : Outcome (Unit {0})) → Follows o → Meets (and_then o (λ _ u. ok none u))
  goes_on (ok done u) h = h
  goes_on trap h = h
  goes_on fault h = h
  goes_on out_of_fuel h = h

module _ (enter : Kernel) (fuel : ℕ) (answered : List Ptr) (s : State) (a : Abstract)
    (p : Ptr) where
  -- Where a turn leads from a state that stands for `a`, with `p` in front; `s` is the state behind
  -- the resume.
  abbrev pub Stepped : Ask → Outcome (Option ℤ) → Type 0
  Stepped ask (ok none t) =
      (b : Abstract) × Turns a p ask b × Shows t b × IsAccounted answered t b.parked
  Stepped ask (ok (some code) t) = ask ≡ process_exits code
  Stepped ask trap = Breaks enter fuel s p ask
  Stepped ask fault = ⊥
  Stepped ask out_of_fuel = ⊥

  pub Meets-Stepped :
      (r : List Ptr) (t : Thread) (ask : Ask) (o : Outcome (Option ℤ))
      → a.ready ≡ p ∷ r
      → a.threads p ≡ some t
      → seen s ≡ update a.threads p (some (asking ask t))
      → Meets enter fuel answered s p (asking ask t) r a.parked a.joining ask o
      → Stepped ask o
  Meets-Stepped r t ask (ok none u) front at is (b, does, shows, h) = (
    b,
    turns t r front at
        (subst (λ threads. Does threads p (asking ask t) r a.parked a.joining ask b) is does),
    shows,
    h,
  )
  Meets-Stepped r t ask (ok (some code) u) front at is h = h
  Meets-Stepped r t ask trap front at is h = h
  Meets-Stepped r t ask fault front at is h = h
  Meets-Stepped r t ask out_of_fuel front at is h = h

  pub Stepped-IsSafe :
      (r : List Ptr) (ask : Ask) (o : Outcome (Option ℤ))
      → a.ready ≡ p ∷ r
      → Stepped ask o
      → IsSafe answered r o
  Stepped-IsSafe r ask (ok none t) front (b, step, shows, h) =
      let (more, is) = Turns-ready a b p r ask front step in
      (more, b.parked, b.joining, subst (λ l. IsValid t [] l b.parked b.joining) is shows.valid, h)
  Stepped-IsSafe r ask (ok (some code) t) front h = tt
  Stepped-IsSafe r ask trap front h = tt
  Stepped-IsSafe r ask fault front h = h
  Stepped-IsSafe r ask out_of_fuel front h = h
