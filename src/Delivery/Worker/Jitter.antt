-- ===== src/Delivery/Worker/Jitter.antt =====
-- The worker's jitter is one that the state accepts.
use myc.Common.{
  Bool-cases, inl, inr, ◌⊎◌, ℕ, ◌+◌, ◌%◌, ◌≤◌, ◌≡◌, refl, true, false, ok, arith, leb, ◌||◌,
}
use myc.Delivery.Types.{AttemptOutcome, Job, retry_jitter_new}
use myc.Delivery.Rows.{job_rows_valid}
use myc.Delivery.Resolve.{maximum_delay}
use myc.Delivery.Retry.{backoff, maximum_delay-backoff}
use myc.Delivery.Worker.{delivery_retry_jitter, worker_maximum_delay, outcome_is_delivered}

worker_delay-eq : (j : Job) (n : ℕ) → worker_maximum_delay j n ≡ maximum_delay j n
unfolding worker_maximum_delay maximum_delay
worker_delay-eq j n = refl

backoff_small : (j : Job) (n : ℕ) → job_rows_valid j ≡ true → backoff j n ≤ 300_000
unfolding job_rows_valid
backoff_small j n v = let small : j.maximum_backoff_ms ≤ 300_000 = ground arith in omega arith

-- On a stored job, after one of its attempts, for any outcome and any entropy, the worker gets a
-- jitter. It is at most the exact backoff after this attempt, and it is 0 if the artifact was delivered
-- or no attempt is left.
pub delivery_retry_jitter_accepted :
    (j : Job) (n : ℕ) (outcome : AttemptOutcome) (entropy : ℕ)
    → job_rows_valid j ≡ true
    → n ≤ 32
    → (jitter : ℕ) × (delivery_retry_jitter j n outcome entropy ≡ ok jitter)
      × (jitter ≤ backoff j n)
      × ((outcome_is_delivered outcome || leb j.max_attempts n) ≡ false ⊎ (jitter ≡ 0))
unfolding delivery_retry_jitter retry_jitter_new
delivery_retry_jitter_accepted j n outcome entropy v h =
    elim (Bool-cases (outcome_is_delivered outcome || leb j.max_attempts n)) [
      | inl none_left ↦ (0, ground arith, omega arith, inr refl)
      | inr retries ↦
          let jitter = entropy % (worker_maximum_delay j n + 1) in
          let e = worker_delay-eq j n in
          let e' = maximum_delay-backoff j n v h in
          let small = backoff_small j n v in
          (jitter, ground arith, omega (arith, e, e'), inl retries)
    ]
