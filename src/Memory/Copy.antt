-- ===== src/Memory/Copy.antt =====
-- What a copy and a fill leave in every cell, inside the destination and outside it.
use libuc.Prelude.{
  ℕ, zero, suc, ◌+◌, ◌-◌, ◌≤◌, ◌≡◌, ◌⊎◌, inl, inr, ◌&&◌, arith, ℤ, to_unsigned, ltb, leb,
  if◌then◌else◌, update, Bool-cases,
}
use libuc.Memory.{copy_up, copy_down, memcpy, memmove, fill_up, memset}

-- The reference: the cells of the destination hold what the source held before.
abbrev pub moved {ℓ} : {A : Type ℓ} → (ℕ → A) → (dst src n : ℕ) → ℕ → A
moved m dst src n a = if leb dst a && ltb a (dst + n) then m (src + (a - dst)) else m a

-- The reference for a fill.
abbrev pub filled {ℓ} : {A : Type ℓ} → (ℕ → A) → ℕ → A → ℕ → ℕ → A
filled m dst v n a = if leb dst a && ltb a (dst + n) then v else m a

module _ {A : Type 0} where
  -- Upwards, a cell of the source is read before the loop can reach it as destination.
  pub copy_up-moved :
      (m : ℕ → A) (dst src i k a : ℕ)
      → (dst ≤ src) ⊎ (src + i + k ≤ dst)
      → copy_up m dst src i k a
        ≡ (if leb (dst + i) a && ltb a (dst + i + k) then m (src + (a - dst)) else m a)
  unfolding copy_up
  copy_up-moved m dst src i zero a h = ground arith
  copy_up-moved m dst src i (suc k) a h =
      ground
        (arith, copy_up-moved (update m (dst + i) (m (src + i))) dst src (i + 1) k a (omega arith))

  copy_down-moved :
      (m : ℕ → A) (dst src i a : ℕ) → src ≤ dst → copy_down m dst src i a ≡ moved m dst src i a
  unfolding copy_down
  copy_down-moved m dst src zero a h = ground arith
  copy_down-moved m dst src (suc i) a h =
      ground (arith, copy_down-moved (update m (dst + i) (m (src + i))) dst src i a h)

  -- memcpy between ranges that do not overlap leaves in each cell of the destination what the
  -- source held, and leaves every other cell.
  pub memcpy-moved :
      (m : ℕ → A) (dst src n a : ℕ)
      → (dst + n ≤ src) ⊎ (src + n ≤ dst)
      → memcpy m dst src n a ≡ moved m dst src n a
  unfolding memcpy
  memcpy-moved m dst src n a h = ground (arith, copy_up-moved m dst src 0 n a (omega arith))

  -- memmove leaves in each cell of the destination what the source held before the call, however
  -- the two overlap, and leaves every other cell.
  pub memmove-moved : (m : ℕ → A) (dst src n a : ℕ) → memmove m dst src n a ≡ moved m dst src n a
  unfolding memmove
  memmove-moved m dst src n a = elim (Bool-cases (ltb dst src)) [
    | inl below ↦ rw below (ground (arith, copy_up-moved m dst src 0 n a (inl (ground arith))))
    | inr above ↦ rw above (copy_down-moved m dst src n a (ground arith))
  ]

  fill_up-filled :
      (m : ℕ → A) (dst : ℕ) (v : A) (i k a : ℕ)
      → fill_up m dst v i k a ≡ (if leb (dst + i) a && ltb a (dst + i + k) then v else m a)
  unfolding fill_up
  fill_up-filled m dst v i zero a = ground arith
  fill_up-filled m dst v i (suc k) a =
      ground (arith, fill_up-filled (update m (dst + i) v) dst v (i + 1) k a)

-- `memset` leaves the low byte of the value in the whole range, and every other byte alone.
pub memset-filled :
    (m : ℕ → ℕ) (dst : ℕ) (value : ℤ) (n a : ℕ)
    → memset m dst value n a ≡ filled m dst (to_unsigned 8 value) n a
unfolding memset
memset-filled m dst value n a = ground (arith, fill_up-filled m dst (to_unsigned 8 value) 0 n a)
