-- ===== src/Memory/Compare/Lexicographic.antt =====
-- The three loops of memcmp against the comparison of the bytes one by one.
use libuc.Prelude.{
  ℕ, zero, suc, ◌+◌, ◌-◌, ◌*◌, ◌≤◌, ◌<◌, ◌≡◌, refl, ap, sym, ◌∙◌, arith, inl, inr, ◌==◌, ltb,
  Bool-cases, some,
}
use libuc.Bits.Differ.{bit_or-eq-zero, bit_xor-eq-zero_iff}
use libuc.Memory.Compare.{
  load_le, scalar, reduce_or_xor, compare_tail, compare_words, skip_blocks, memcmp,
}
use libuc.Memory.Compare.Words.{
  compare_bytes, bswap-load_le, compare_bytes-same, compare_bytes-differ,
}

compare_tail-compare_bytes :
    (m : ℕ → ℕ) (l r i k : ℕ) → compare_tail m l r i k ≡ compare_bytes m (l + i) (r + i) k
unfolding compare_tail compare_bytes
compare_tail-compare_bytes m l r i zero = refl
compare_tail-compare_bytes m l r i (suc k) =
    let left : l + (i + 1) ≡ l + i + 1 = omega arith in
    let right : r + (i + 1) ≡ r + i + 1 = omega arith in
    rw (compare_tail-compare_bytes m l r (i + 1) k, left, right) refl

module _ (m : ℕ → ℕ) (bytes : (a : ℕ) → m a < 256) where
  -- Scalars that do not differ anywhere hold equal bytes.
  reduce_or_xor-same :
      (k l r rest : ℕ)
      → reduce_or_xor m l r k ≡ 0
      → compare_bytes m l r (8 * k + rest) ≡ compare_bytes m (l + 8 * k) (r + 8 * k) rest
  unfolding reduce_or_xor scalar
  reduce_or_xor-same zero l r rest e =
      let size : 8 * 0 + rest ≡ rest = omega arith in
      let left : l + 8 * 0 ≡ l = omega arith in
      let right : r + 8 * 0 ≡ r = omega arith in rw (size, left, right) refl
  reduce_or_xor-same (suc k) l r rest e =
      let (first, others) = bit_or-eq-zero _ _ e in
      let size : 8 * suc k + rest ≡ 8 + (8 * k + rest) = omega arith in
      let left : l + 8 * suc k ≡ l + 8 + 8 * k = omega arith in
      let right : r + 8 * suc k ≡ r + 8 + 8 * k = omega arith in
      rw (size, left, right)
        (compare_bytes-same m bytes 8 l r (8 * k + rest) ((bit_xor-eq-zero_iff _ _).0 first)
          ∙ reduce_or_xor-same k (l + 8) (r + 8) rest others)

  compare_words-compare_bytes :
      (fuel l r n : ℕ) → n < fuel → compare_words m fuel l r n ≡ some (compare_bytes m l r n)
  unfolding compare_words scalar
  compare_words-compare_bytes zero l r n enough = absurd (omega arith)
  compare_words-compare_bytes (suc fuel) l r n enough = elim (Bool-cases (ltb n 8)) [
    | inl short ↦
        let left : l + 0 ≡ l = omega arith in
        let right : r + 0 ≡ r = omega arith in
        rw (short, compare_words)
          (ap some (rw (left, right) at (compare_tail-compare_bytes m l r 0 n)))
    | inr long ↦
        let size : 8 + (n - 8) ≡ n = ground arith in
        elim (Bool-cases (load_le m l 8 == load_le m r 8)) [
          | inl same ↦
              rw (long, same, compare_words)
                (compare_words-compare_bytes fuel (l + 8) (r + 8) (n - 8) (ground arith)
                  ∙ ap some
                      (sym (rw size at (compare_bytes-same m bytes 8 l r (n - 8) (ground arith)))))
          | inr other ↦
              rw (long, other, bswap-load_le m bytes 8 l, bswap-load_le m bytes 8 r, compare_words)
                (ap some
                  (sym (rw size at (compare_bytes-differ m bytes 8 l r (n - 8) (ground arith)))))
        ]
  ]

  -- Where the block loop stops, the comparison is still to be decided.
  record Skipped (fuel l r n : ℕ) : Type 0 where
    l' : ℕ
    r' : ℕ
    left : ℕ
    runs : skip_blocks m fuel l r n ≡ some (l', r', left)
    shorter : left ≤ n
    same : compare_bytes m l' r' left ≡ compare_bytes m l r n

  skip_blocks-Skipped : (fuel l r n : ℕ) → n < fuel → Skipped fuel l r n
  unfolding skip_blocks
  skip_blocks-Skipped zero l r n enough = absurd (omega arith)
  skip_blocks-Skipped (suc fuel) l r n enough = elim (Bool-cases (ltb n 64)) [
    | inl short ↦ record {
      l' = l;
      r' = r;
      left = n;
      runs = rw (short, skip_blocks) refl;
      shorter = omega arith;
      same = refl;
    }
    | inr long ↦ elim (Bool-cases (reduce_or_xor m l r 8 == 0)) [
      | inr differs ↦ record {
        l' = l;
        r' = r;
        left = n;
        runs = rw (long, differs, skip_blocks) refl;
        shorter = omega arith;
        same = refl;
      }
      | inl equal ↦
          let size : 8 * 8 + (n - 64) ≡ n = ground arith in
          let rest = skip_blocks-Skipped fuel (l + 64) (r + 64) (n - 64) (ground arith) in
          record {
            l' = rest.l';
            r' = rest.r';
            left = rest.left;
            runs = rw (long, equal, skip_blocks) rest.runs;
            shorter = omega (arith, rest.shorter);
            same = rest.same ∙ sym (rw size at (reduce_or_xor-same 8 l r (n - 64) (ground arith)));
          }
    ]
  ]

  -- On a memory of bytes, with fuel for each byte and one more, memcmp ends, and returns -1, 0 or 1
  -- as the first string is less than, equal to or greater than the second in the lexicographic order
  -- of their bytes.
  pub memcmp-compare_bytes :
      (fuel lhs rhs n : ℕ) → n < fuel → memcmp m fuel lhs rhs n ≡ some (compare_bytes m lhs rhs n)
  unfolding memcmp
  memcmp-compare_bytes fuel lhs rhs n enough =
      let s = skip_blocks-Skipped fuel lhs rhs n enough in
      rw (s.runs, memcmp)
        (compare_words-compare_bytes fuel s.l' s.r' s.left (omega (arith, s.shorter))
          ∙ ap some s.same)
