-- ===== src/Uc/Ring/Same.antt =====
-- The two rings do the same.
use mathlib.Core.Path.{fun_ext}
use libuc.Prelude.{
  ℕ, zero, suc, ◌+◌, ◌-◌, ◌%◌, ◌^◌, ◌≡◌, refl, ap, ◌∙◌, arith, ℤ, inl, inr, slice, ◌==◌,
  to_unsigned, Bool-cases,
}
use libuc.Memory.Copy.{memmove-moved, copy_up-moved}
use libuc.System.{syscall_failed}
use libuc.Ring.{
  Sqe, Ring, Kernel, Submitted, after_reading, is_eintr, with_reply, keep_remainder, took,
  after_enter, submit,
}
use libuc.Uc.Ring.{shift_unsubmitted, pass, ring_submit}

-- The loop that moves the remainder down is the memmove of the other ring.
pub shift_unsubmitted-keep_remainder :
    (ring : Ring) (submitted : ℕ) → shift_unsubmitted ring submitted ≡ keep_remainder ring submitted
unfolding shift_unsubmitted keep_remainder
shift_unsubmitted-keep_remainder ring submitted =
    ap
      (λ (cells : ℕ → Sqe). record ring {
        sqes = cells;
        batch_count = (ring.batch_count + 2 ^ 32 - submitted) % 2 ^ 32;
      })
      (fun_ext λ a. ground (
        arith,
        copy_up-moved ring.sqes 0 submitted 0 ((ring.batch_count + 2 ^ 32 - submitted) % 2 ^ 32) a
            (inl (omega arith)),
        memmove-moved ring.sqes 0 submitted ((ring.batch_count + 2 ^ 32 - submitted) % 2 ^ 32) a,
      ))

pass-after_enter :
    (ring : Ring) (result : ℤ) (n : ℕ) (next : Ring → Submitted)
    → pass ring result n next ≡ after_enter ring result n next
unfolding pass after_enter took
pass-after_enter ring result n next = elim (Bool-cases (is_eintr result)) [
  | inl again ↦ rw (again, pass, after_enter) refl
  | inr other ↦ elim (Bool-cases (syscall_failed result)) [
    | inl fails ↦ rw (other, fails, pass, after_enter) refl
    | inr fine ↦ elim (Bool-cases (to_unsigned 32 result == ring.batch_count)) [
      | inl all ↦ rw (other, fine, all, pass, after_enter, took) refl
      | inr short ↦
          rw (other, fine, short, pass, after_enter, took)
            (ap (λ r. after_reading (slice ring.sqes 0 (to_unsigned 32 result)) (next r))
              (shift_unsubmitted-keep_remainder ring (to_unsigned 32 result)))
    ]
  ]
]

-- The submit loops of the two rings return the same, for every kernel and whatever it answers.
pub ring_submit-submit :
    (enter : Kernel) (fuel n : ℕ) (ring : Ring) (min_complete : ℕ)
    → ring_submit enter fuel n ring min_complete ≡ submit enter fuel n ring min_complete
unfolding ring_submit submit
ring_submit-submit enter zero n ring min_complete = refl
ring_submit-submit enter (suc fuel) n ring min_complete =
    pass-after_enter _ _ _ _
    ∙ ap
        (λ next.
          after_enter (with_reply ring (enter n ring ring.batch_count min_complete))
            (enter n ring ring.batch_count min_complete).result (n + 1) next)
        (fun_ext λ r. ring_submit-submit enter fuel (n + 1) r min_complete)
