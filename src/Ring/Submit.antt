-- ===== src/Ring/Submit.antt =====
-- The submit loop: what the kernel reads, what stays in the batch, and that the loop ends.
use mathlib.Core.List.{append_assoc, append-nil}
use libuc.Prelude.{
  ℕ, zero, suc, ◌+◌, ◌-◌, ◌≤◌, ◌<◌, ◌≡◌, refl, ◌∙◌, ap, sym, arith, ℤ, pos, negsuc, true, false,
  List, ◌++◌, ◌==◌, slice, leb, Bool-cases, dec_lt, inl, inr, ◌^◌, ◌%◌,
}
use mathlib.Core.Path.{subst}
use libuc.System.{syscall_failed}
use libuc.Ring.{
  Ring, Sqe, Reply, Kernel, Submitted, returned, out_of_fuel, after_reading, is_eintr, with_reply,
  keep_remainder, took, after_enter, submit,
}
use libuc.Ring.Batch.{batch, IsBatch, keep_remainder-batch}

-- What io_uring_enter documents of its result: an error number, or how many of the entries it
-- took. It takes none only of an empty batch.
abbrev pub Counts : (to_submit : ℕ) → ℤ → Type 0
Counts to_submit (pos count) = (count ≤ to_submit) × (count ≡ 0 → to_submit ≡ 0)
Counts to_submit (negsuc e) = e < 4095

abbrev pub IsCounted : Kernel → Type 0
IsCounted enter =
    (n : ℕ) (ring : Ring) (to_submit min_complete : ℕ)
    → Counts to_submit (enter n ring to_submit min_complete).result

-- From the io_uring_enter numbered `quiet` on, no signal interrupts one.
abbrev pub IsQuietFrom : Kernel → ℕ → Type 0
IsQuietFrom enter quiet =
    (n : ℕ) (ring : Ring) (to_submit min_complete : ℕ)
    → quiet ≤ n
    → is_eintr (enter n ring to_submit min_complete).result ≡ false

-- Neither a submit nor the kernel changes these.
pub record SameShape (ring ring' : Ring) : Type 0 where
  pub sq_entries : ring'.sq_entries ≡ ring.sq_entries
  pub cq_entries : ring'.cq_entries ≡ ring.cq_entries
  pub cq_mask : ring'.cq_mask ≡ ring.cq_mask
  pub cq_head : ring'.cq_head ≡ ring.cq_head

pub record Delivery (ring : Ring) (result : ℤ) (ring' : Ring) (read : List Sqe) : Type 0 where
  pub in_order : read ++ batch ring' ≡ batch ring
  pub whole : syscall_failed result ≡ false → ring'.batch_count ≡ 0
  pub valid : IsBatch ring'
  pub shape : SameShape ring ring'

abbrev pub Delivers : Ring → ℕ → Submitted → Type 0
Delivers ring n (returned result ring' read n') = Delivery ring result ring' read × (n ≤ n')
Delivers ring n out_of_fuel = ⊥

-- A pass that leaves the loop to `next`, after the kernel read the first entries.
after_reading-Delivers :
    (ring rest : Ring) (read : List Sqe) (n : ℕ) (s : Submitted)
    → read ++ batch rest ≡ batch ring
    → SameShape ring rest
    → Delivers rest n s
    → Delivers ring n (after_reading read s)
after_reading-Delivers ring rest read n (returned result ring' more n') e same (d, le) = (
  record {
    in_order = append_assoc read more (batch ring') ∙ ap (λ l. read ++ l) d.in_order ∙ e;
    whole = d.whole;
    valid = d.valid;
    shape = ground arith;
  },
  le,
)
after_reading-Delivers ring rest read n out_of_fuel e same d = d

keep_remainder-SameShape : (ring : Ring) (k : ℕ) → SameShape ring (keep_remainder ring k)
unfolding keep_remainder
keep_remainder-SameShape ring k = ground arith

-- What the next pass of the loop is known to do.
abbrev Goes : (quiet fuel n : ℕ) → (Ring → Submitted) → Type 0
Goes quiet fuel n next =
    (r : Ring) → IsBatch r → (quiet - n) + r.batch_count < fuel → Delivers r n (next r)

-- Each pass that goes round again has one interrupt less to come, or a smaller batch.
module _ (quiet fuel n : ℕ) (ring : Ring) (next : Ring → Submitted) (v : IsBatch ring)
    (enough : (quiet - n) + ring.batch_count ≤ fuel) (rec : Goes quiet fuel (n + 1) next) where
  interrupted :
      (result : ℤ)
      → (quiet ≤ n → is_eintr result ≡ false)
      → is_eintr result ≡ true
      → Delivers ring (n + 1) (next ring)
  interrupted result calm e = rec ring v (omega (arith, before))
    where
      before : n < quiet
      before = elim (dec_lt n quiet) [ yes lt ↦ lt | no ge ↦ absurd (ground (arith, calm)) ]

  took-Delivers :
      (result : ℤ) (count : ℕ)
      → count ≤ ring.batch_count
      → (count ≡ 0 → ring.batch_count ≡ 0)
      → Delivers ring (n + 1) (took ring result count (n + 1) next)
  unfolding took slice
  took-Delivers result count le some_read = elim (Bool-cases (count == ring.batch_count)) [
    | inl all ↦
        let size : count ≡ ring.batch_count = ground arith in
        rw (all, took)
          (
            record {
              in_order = append-nil (slice ring.sqes 0 count) ∙ ap (slice ring.sqes 0) size;
              whole = λ _. refl;
              valid = omega arith;
              shape = ground arith;
            },
            omega arith,
          )
    | inr short ↦
        let (split, left, valid) = keep_remainder-batch ring count v le in
        rw (short, took)
          (after_reading-Delivers ring (keep_remainder ring count) (slice ring.sqes 0 count) (n + 1)
            (next (keep_remainder ring count)) split (keep_remainder-SameShape ring count)
            (rec (keep_remainder ring count) valid (ground arith)))
  ]

  submit_pass :
      (result : ℤ)
      → Counts ring.batch_count result
      → (quiet ≤ n → is_eintr result ≡ false)
      → Delivers ring (n + 1) (after_enter ring result (n + 1) next)
  unfolding after_enter syscall_failed
  submit_pass (negsuc e) counts calm = elim (Bool-cases (e == 3)) [
    | inl again ↦ rw (again, after_enter) (interrupted (negsuc e) calm again)
    | inr other ↦
        let fails : leb (suc e) 4095 ≡ true = ground arith in
        rw (other, fails, after_enter)
          (
            record { in_order = refl; whole = λ f. cc; valid = v; shape = ground arith },
            omega arith,
          )
  ]
  submit_pass (pos count) (le, some_read) calm =
      let narrow : count % 2 ^ 32 ≡ count = omega arith in
      subst (λ c. Delivers ring (n + 1) (took ring (pos count) c (n + 1) next)) (sym narrow)
        (took-Delivers (pos count) count le some_read)

-- The reply changes only the kernel's side of the ring.
with_reply-Delivers :
    (ring : Ring) (reply : Reply) (n : ℕ) (s : Submitted)
    → Delivers (with_reply ring reply) (n + 1) s
    → Delivers ring n s
with_reply-Delivers ring reply n (returned result ring' read n') (d, le) = (
  record {
    in_order = d.in_order;
    whole = d.whole;
    valid = d.valid;
    shape = ground (arith, d.shape);
  },
  omega arith,
)
with_reply-Delivers ring reply n out_of_fuel d = d

module _ (enter : Kernel) (quiet : ℕ) (counted : IsCounted enter)
    (still : IsQuietFrom enter quiet) where
  -- With a batch that fits the queue, a kernel whose counts are as documented, and no interrupt
  -- from some io_uring_enter on, a submit ends within one io_uring_enter for each interrupt to
  -- come and each entry of the batch, and one more. What the kernel read and then what is left in
  -- the batch is the batch, in order; a result that is no failure leaves nothing; the batch still
  -- fits, and the sizes and the head are as they were.
  pub submit-Delivers :
      (fuel n : ℕ) (ring : Ring) (min_complete : ℕ)
      → IsBatch ring
      → (quiet - n) + ring.batch_count < fuel
      → Delivers ring n (submit enter fuel n ring min_complete)
  unfolding submit
  submit-Delivers zero n ring min_complete v enough = absurd (omega arith)
  submit-Delivers (suc fuel) n ring min_complete v enough =
      let reply : Reply = enter n ring ring.batch_count min_complete in
      let next : Ring → Submitted = λ r. submit enter fuel (n + 1) r min_complete in
      with_reply-Delivers ring reply n
        (after_enter (with_reply ring reply) reply.result (n + 1) next)
        (submit_pass quiet fuel n (with_reply ring reply) next (omega arith) (omega arith)
          (λ r w lt. submit-Delivers fuel (n + 1) r min_complete w lt) reply.result
          (counted n ring ring.batch_count min_complete)
          (still n ring ring.batch_count min_complete))
