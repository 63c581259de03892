-- ===== src/Delivery/Claim/Invariant.antt =====
-- A claim keeps the invariant of the job.
use myc.Common.{ℕ, ◌<◌, ◌≡◌, Bool, ok, arith, on_first-All}
use myc.Delivery.Types.{Digest, RelayId, Target, Job, Claim, binding}
use myc.Delivery.Rows.{read_job}
use myc.Delivery.Statements.{on_target, has_relay}
use myc.Delivery.Invariant.{History-Settled, TargetInv, JobInv}
use myc.Delivery.Claim.{lease_attempt, claim_on_target, mark_job_active, claim_target}
use myc.Delivery.Claim.Lease.{lease_attempt-eq-ok, lease_attempt_claimable}

module _ (derive : Digest → ℕ → ℕ → Digest → Digest) (in_use : Digest → Bool) where
  lease_attempt-TargetInv :
      (job : Job) (nonce claimed_at : ℕ) (t : Target) (c : Claim) (t' : Target)
      → lease_attempt derive in_use job nonce claimed_at t ≡ ok (c, t')
      → t.attempt_count < job.max_attempts
      → TargetInv job.max_attempts t
      → TargetInv job.max_attempts t'
  lease_attempt-TargetInv job nonce claimed_at t c t' h room v = ground (
    arith,
    lease_attempt-eq-ok derive in_use job nonce claimed_at t c t' h,
    History-Settled t.status t.active_attempt_id t.attempts v.history
        (lease_attempt_claimable derive in_use job nonce claimed_at t c t' h),
  )

  claim_on_target-TargetInv :
      (job : Job) (nonce claimed_at : ℕ) (t : Target) (c : Claim) (t' : Target)
      → claim_on_target derive in_use job nonce claimed_at t ≡ ok (c, t')
      → TargetInv job.max_attempts t
      → TargetInv job.max_attempts t'
  unfolding claim_on_target
  claim_on_target-TargetInv job nonce claimed_at t c t' h v =
      ground (arith, lease_attempt-TargetInv job nonce claimed_at t c t')

  -- A claim keeps the invariant of the job.
  pub claim_target-JobInv :
      (relay_id : RelayId) (nonce claimed_at : ℕ) (j : Job) (c : Claim) (j' : Job)
      → claim_target derive in_use relay_id nonce claimed_at j ≡ ok (c, j')
      → JobInv j
      → JobInv j'
  unfolding claim_target read_job on_target mark_job_active
  claim_target-JobInv relay_id nonce claimed_at j c j' h v = ground (
    arith,
    on_first-All (TargetInv j.max_attempts) (has_relay relay_id) binding
        (claim_on_target derive in_use j nonce claimed_at) j.targets c j'.targets
        (claim_on_target-TargetInv j nonce claimed_at),
  )
