-- ===== src/System/Errors.antt =====
-- The range of errors.
use libuc.Prelude.{
  ℕ, ℤ, pos, negsuc, neg_part, ◌≡◌, ◌<◌, ◌≤◌, ◌^◌, arith, true, ◌↔◌, neg_ℕ, is_negative, ◌+◌,
  if◌then◌else◌,
}
use libuc.System.{syscall_failed, errno_result}

-- A result is a failure exactly when it is the negation of an error number from 1 to 4095.
pub syscall_failed_iff :
    (z : ℤ) → (syscall_failed z ≡ true) ↔ ((e : ℕ) × (0 < e) × (e ≤ 4095) × (z ≡ neg_ℕ e))
unfolding syscall_failed
syscall_failed_iff (pos n) = (λ h. absurd (ground arith), λ h. ground arith)
syscall_failed_iff (negsuc n) =
    (λ h. (n + 1, ground arith, ground arith, ground arith), λ h. ground arith)

-- A failure whose number fits an int becomes -1 with errno set to its number; anything that is not
-- negative is returned, errno untouched.
pub errno_result_lem :
    (errno res : ℤ)
    → neg_part res < 2 ^ 31
    → errno_result errno res
      ≡ (if is_negative res then (pos (neg_part res), negsuc 0) else (errno, res))
unfolding errno_result
errno_result_lem errno res h = ground arith
