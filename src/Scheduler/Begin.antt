-- ===== src/Scheduler/Begin.antt =====
-- The start of a scheduler.
use libuc.Prelude.{◌<◌, ◌^◌, ◌≡◌, refl, ap, slice, arith, true, [], none, some}
use mathlib.Core.List.{append-nil}
use libuc.Ring.{Ring}
use libuc.Ring.Create.{Setup, Created, create}
use libuc.Ring.Create.Balance.{Balanced, IsCreated, create-Balanced}
use libuc.Machine.{Ptr, State}
use libuc.Scheduler.{become}
use libuc.Scheduler.Account.{names, IsAccounted}
use libuc.Scheduler.Invariant.{IsValid}

created_ring :
    (kernel : Setup) (o : Created) (ring : Ring)
    → o.1 ≡ some ring
    → Balanced kernel o
    → IsCreated kernel ring
created_ring kernel (calls, none) ring e b = absurd (ground arith)
created_ring kernel (calls, some made) ring e b = let same : made ≡ ring = cc in rw (← same) b.1

-- If the ring is created, its entries fit 32 bits and no fiber was made before, become returns
-- true and leaves a valid state with no fiber anywhere and the ring that was created, whose batch
-- is empty: every entry that the kernel had read counts as answered.
pub become-IsValid :
    (kernel : Setup) (s : State) (ring : Ring)
    → (create kernel).1 ≡ some ring
    → ring.sq_entries < 2 ^ 32
    → ((a : Ptr) → s.fibers a ≡ none)
    → ((become kernel s).0 ≡ true)
      × ((become kernel s).1.ring ≡ ring)
      × IsValid (become kernel s).1 [] [] [] []
      × IsAccounted (names s.submitted) (become kernel s).1 []
unfolding become slice
become-IsValid kernel s ring e small clear =
    let made : IsCreated kernel ring =
      created_ring kernel (create kernel) ring e (create-Balanced kernel) in
    rw (e, become)
      (
        refl,
        refl,
        record {
          ready = record { chain = refl; tail = refl; count = refl };
          parked = refl;
          joining = refl;
          small = ground arith;
          room = omega arith;
          batch = record { room = omega (arith, made.batch); small = small };
          once = λ a. omega arith;
          known = λ a h. absurd (omega arith);
          runs = λ a h. absurd (omega arith);
          asker = λ a f at h. absurd (omega arith);
          somewhere = λ a f at h. absurd (ground (arith, clear a));
          joined = λ a f at h. absurd (ground (arith, clear a));
          one_target = λ a b f g at here h same. absurd (ground (arith, clear a));
          waits_for = λ a h. absurd (omega arith);
          no_null = clear 0;
          owns = λ a f at. absurd (ground (arith, clear a));
        },
        record {
          adds_up = λ a.
              let empty : slice ring.sqes 0 ring.batch_count ≡ [] =
                ap (slice ring.sqes 0) made.batch in
              rw (empty, append-nil s.submitted) (omega arith);
        },
      )
