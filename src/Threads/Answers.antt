-- ===== src/Threads/Answers.antt =====
-- The answers that the scheduler gives, read back.
use libuc.Prelude.{
  ℕ, ◌^◌, ◌<◌, ◌≡◌, refl, arith, pos, negsuc, none, some, ◌==◌, if◌then◌else◌, to_unsigned,
  to_signed,
}
use libuc.Machine.{Ptr, null, spawns}
use libuc.Threads.{start, thrd_success, thrd_nomem, thrd_create, thrd_join}

-- thrd_create asks for a stack of 256 KiB with the function and argument. A pointer within the
-- word survives the `long` in which the scheduler answers: thrd_nomem and nothing stored for the
-- null pointer, else success and the new fiber's record stored.
pub thrd_create-to_signed :
    (func arg : ℕ) (spawned : Ptr)
    → spawned < 2 ^ 64
    → ((thrd_create func arg).ask ≡ spawns 262144 func arg)
      × ((thrd_create func arg).finish (to_signed 63 spawned)
          ≡ (if spawned == null then (thrd_nomem, none) else (thrd_success, some spawned)))
unfolding thrd_create start
thrd_create-to_signed func arg spawned word = (refl, ground (arith, back))
  where
    back : to_unsigned 64 (to_signed 63 spawned) ≡ spawned
    back = ground arith

-- For a status that is an int, thrd_join succeeds and stores it, unless the pointer for it is
-- null.
pub thrd_join_status :
    (thr : Ptr) (res n : ℕ)
    → n < 2 ^ 31
    → ((thrd_join thr res).finish (pos n) ≡ (thrd_success, if res == 0 then none else some (pos n)))
      × ((thrd_join thr res).finish (negsuc n)
          ≡ (thrd_success, if res == 0 then none else some (negsuc n)))
unfolding thrd_join
thrd_join_status thr res n small = ground arith
