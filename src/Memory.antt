-- ===== src/Memory.antt =====
-- memcpy, memmove and memset of src/string: the loops over an array of cells. A cell is a byte for
-- the C callers; `Ring` moves whole submission entries by the same function. An address is an
-- index, and an object does not wrap round the address space.
pub mod Copy
pub mod Compare
mod Tests
use libuc.Prelude.{ℕ, zero, suc, ◌+◌, ◌-◌, ◌%◌, ◌^◌, ℤ, to_unsigned, ltb, if◌then◌else◌, update}

-- `for (i = ...; i < n; i++) d[i] = s[i]`, with `k` rounds left.
pub copy_up {ℓ} : {A : Type ℓ} → (ℕ → A) → (dst src i k : ℕ) → ℕ → A
copy_up m dst src i zero = m
copy_up m dst src i (suc k) = copy_up (update m (dst + i) (m (src + i))) dst src (i + 1) k

-- `for (i = n; i > 0; i--) d[i - 1] = s[i - 1]`
pub copy_down {ℓ} : {A : Type ℓ} → (ℕ → A) → (dst src i : ℕ) → ℕ → A
copy_down m dst src zero = m
copy_down m dst src (suc i) = copy_down (update m (dst + i) (m (src + i))) dst src i

unfoldable pub memcpy {ℓ} : {A : Type ℓ} → (ℕ → A) → (dst src n : ℕ) → ℕ → A
unfolding copy_up
memcpy m dst src n = copy_up m dst src 0 n

unfoldable pub memmove {ℓ} : {A : Type ℓ} → (ℕ → A) → (dst src n : ℕ) → ℕ → A
unfolding copy_up copy_down
memmove m dst src n = if ltb dst src then copy_up m dst src 0 n else copy_down m dst src n

pub fill_up {ℓ} : {A : Type ℓ} → (ℕ → A) → ℕ → A → (i k : ℕ) → ℕ → A
fill_up m dst v i zero = m
fill_up m dst v i (suc k) = fill_up (update m (dst + i) v) dst v (i + 1) k

-- The value is converted to `unsigned char` for each cell.
unfoldable pub memset : (ℕ → ℕ) → ℕ → ℤ → ℕ → ℕ → ℕ
unfolding fill_up
memset m dst value n = fill_up m dst (to_unsigned 8 value) 0 n
