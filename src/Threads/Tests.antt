-- ===== src/Threads/Tests.antt =====
-- A thread that was made, and one that is joined.
use libuc.Prelude.{◌≡◌, refl, arith, pos, none, some, ◌==◌, if◌then◌else◌, to_signed}
use libuc.Machine.{spawns, null, yields, exits}
use libuc.Threads.{
  thrd_create, thrd_success, thrd_nomem, thrd_equal, thrd_detach, thrd_yield, thrd_exit,
}
use libuc.Threads.Answers.{thrd_create-to_signed}

thrd_create-to_signed_example :
    ((thrd_create 7 8).ask ≡ spawns 262144 7 8)
    × ((thrd_create 7 8).finish (to_signed 63 0xffffffffffff0000) ≡ (
        if 0xffffffffffff0000 == null
        then (thrd_nomem, none)
        else (thrd_success, some 0xffffffffffff0000)))
thrd_create-to_signed_example = thrd_create-to_signed 7 8 0xffffffffffff0000 (ground arith)

-- Equality is 1 or 0; the others ask and report success.
others_run :
    (thrd_equal 3 3 ≡ 1)
    × (thrd_equal 3 4 ≡ 0)
    × ((thrd_detach 3).finish (pos 0) ≡ thrd_success)
    × (thrd_yield ≡ yields)
    × (thrd_exit (pos 2) ≡ exits (pos 2))
unfolding thrd_equal thrd_detach thrd_yield thrd_exit
others_run = (refl, refl, refl, refl, refl)
