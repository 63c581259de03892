-- ===== src/Delivery/Retry.antt =====
-- The retry schedule of `next_attempt_time`, against the arithmetic that it stands for: with no
-- overflow, the backoff doubles with each attempt and stops at the policy's maximum.
use native.Mathlib.Nat.{pow-le-pow_right}
use myc.Common.{ℕ, ◌+◌, ◌-◌, ◌*◌, ◌^◌, min, ◌≤◌, ◌≡◌, ◌↔◌, true, ok, arith, i64_max}
use myc.Delivery.Types.{Job}
use myc.Delivery.Rows.{job_rows_valid}
use myc.Delivery.Resolve.{maximum_delay, next_attempt_time}

-- The exact backoff before the attempt after the `n`-th.
abbrev pub backoff : Job → ℕ → ℕ
backoff j n = min (j.initial_backoff_ms * 2 ^ (n - 1)) j.maximum_backoff_ms

doubling_bound : (k : ℕ) → k ≤ 31 → 2 ^ k ≤ 2 ^ 31
doubling_bound k h = pow-le-pow_right (omega arith) h

backoff_fits : (a p : ℕ) → a ≤ 300_000 → p ≤ 2 ^ 31 → a * p ≤ 300_000 * 2 ^ 31
backoff_fits a p h k = grind arith

-- A stored job's delay after each of its attempts is the exact backoff: no 64-bit overflow.
pub maximum_delay-backoff :
    (j : Job) (n : ℕ) → job_rows_valid j ≡ true → n ≤ 32 → maximum_delay j n ≡ backoff j n
unfolding maximum_delay job_rows_valid
maximum_delay-backoff j n v h =
    let small : j.initial_backoff_ms ≤ 300_000 = ground arith in
    ground (
      arith,
      doubling_bound (n - 1) (omega arith),
      backoff_fits j.initial_backoff_ms (2 ^ (n - 1)) small (doubling_bound (n - 1) (omega arith)),
    )

-- On a stored job, and after one of its attempts, `next_attempt_time` succeeds exactly when the
-- jitter is at most the exact backoff and the sum is an instant that the database can hold; the
-- result is that sum.
pub next_attempt_time_iff :
    (j : Job) (n jitter observed_at next : ℕ)
    → job_rows_valid j ≡ true
    → n ≤ 32
    → (next_attempt_time j n jitter observed_at ≡ ok next) ↔ (
        (next ≡ observed_at + jitter)
        × (jitter ≤ backoff j n)
        × (1 ≤ observed_at + jitter)
        × (observed_at + jitter ≤ i64_max))
unfolding next_attempt_time
next_attempt_time_iff j n jitter observed_at next v h = (
  λ e. ground (arith, maximum_delay-backoff j n v h),
  λ e. ground (arith, maximum_delay-backoff j n v h),
)
