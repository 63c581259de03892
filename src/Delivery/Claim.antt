-- ===== src/Delivery/Claim.antt =====
-- `claim_target` of src/state_delivery.rs. `derive_attempt_id`, and the test whether a row of the
-- database has an id already (`in_use`), are arguments.
pub mod Lease
pub mod Invariant
use myc.Common.{
  ℕ, ◌+◌, Bool, not, ◌&&◌, ◌||◌, none, some, ◌∷◌, Result, ok, err, ◌>>=◌, ok_or, ltb, leb, ◌==◌,
  is_some, is_none, is_some_and, any, if◌then◌else◌, checked_add,
}
use myc.Delivery.Types.{
  Digest, RelayId, OperationError, binding, storage, JobStatus, TargetStatus, AttemptStatus,
  Attempt, Target, Job, Claim, claimed, exact_replay, not_ready, terminal, is_terminal, is_pending,
  target_is_delivered, target_is_exhausted, target_is_claimable,
}
use myc.Delivery.Rows.{read_job, attempts_check}
use myc.Delivery.Statements.{
  update_one, update_any, target_legal, job_legal, read_attempt, read_attempt_by_nonce, on_target,
  fit_time,
}

-- INSERT_ATTEMPT_SQL, with the CHECKs, the primary key and the two UNIQUE constraints.
unfoldable pub insert_attempt : (Digest → Bool) → Attempt → Target → Result OperationError Target
unfolding any
insert_attempt in_use a t =
    if in_use a.id
      || any (λ b. b.id == a.id || b.number == a.number || b.nonce == a.nonce) t.attempts
      || not (attempts_check a)
    then err storage
    else ok (record t { attempts = a ∷ t.attempts })

-- CLAIM_TARGET_SQL.
unfoldable pub lease_target : ℕ → ℕ → Digest → ℕ → Target → Result OperationError Target
unfolding update_one
lease_target attempt_number old_count attempt_id claimed_at =
    update_one
      (λ t.
        t.attempt_count == old_count && target_is_claimable t.status && is_none t.active_attempt_id)
      target_legal
      (λ t. record t {
        attempt_count = attempt_number;
        status = TargetStatus.leased;
        active_attempt_id = some attempt_id;
        next_attempt_at = none;
        updated_at = claimed_at;
      })

-- MARK_JOB_ACTIVE_SQL.
unfoldable pub mark_job_active : ℕ → Job → Result OperationError Job
unfolding update_any
mark_job_active claimed_at =
    update_any (λ j. is_pending j.status) job_legal
      (λ j. record j { status = JobStatus.active; updated_at = claimed_at })

abbrev pub leased_attempt : Digest → ℕ → Digest → ℕ → ℕ → Attempt
leased_attempt id number nonce leased_at lease_expires_at = record {
  id = id;
  number = number;
  nonce = nonce;
  status = AttemptStatus.leased;
  leased_at = leased_at;
  lease_expires_at = lease_expires_at;
  submitted_at = none;
  resolved_at = none;
  reason = none;
}

module _ (derive_attempt_id : Digest → ℕ → ℕ → Digest → Digest) (in_use : Digest → Bool) where
  -- The part of `claim_target` that writes the lease, with its read of the new attempt.
  unfoldable pub lease_attempt : Job → Digest → ℕ → Target → Result OperationError (Claim × Target)
  unfolding insert_attempt lease_target
  lease_attempt job nonce claimed_at target = do
    let attempt_number = target.attempt_count + 1
    lease_expires_value ← ok_or (checked_add claimed_at job.attempt_deadline_ms) binding
    lease_expires ← fit_time lease_expires_value
    let attempt_id = derive_attempt_id job.id target.index attempt_number nonce
    inserted ←
        insert_attempt in_use
          (leased_attempt attempt_id attempt_number nonce claimed_at lease_expires) target
    leased ← lease_target attempt_number target.attempt_count attempt_id claimed_at inserted
    found ← read_attempt leased attempt_id
    attempt ← ok_or found binding
    ok (claimed attempt, leased)

  abbrev pub claim_unseen : Job → Digest → ℕ → Target → Result OperationError (Claim × Target)
  claim_unseen job nonce claimed_at target =
      if is_some target.active_attempt_id
        || is_some_and target.next_attempt_at (λ next. ltb claimed_at next)
      then ok (not_ready, target)
      else (if target_is_delivered target.status
            || target_is_exhausted target.status
            || leb job.max_attempts target.attempt_count
          then ok (terminal, target)
          else lease_attempt job nonce claimed_at target)

  -- The part of `claim_target` on the target's rows.
  unfoldable pub claim_on_target :
      Job → Digest → ℕ → Target → Result OperationError (Claim × Target)
  claim_on_target job nonce claimed_at target = read_attempt_by_nonce target nonce >>= λ existing.
      elim existing [
        | some attempt ↦ ok (exact_replay attempt, target)
        | none ↦ claim_unseen job nonce claimed_at target
      ]

  abbrev pub activate : ℕ → Claim → Job → Result OperationError Job
  activate claimed_at (claimed _) job = mark_job_active claimed_at job
  activate claimed_at _ job = ok job

  -- The part of `claim_target` on a job that has not ended.
  unfoldable pub claim_live : RelayId → Digest → ℕ → Job → Result OperationError (Claim × Job)
  claim_live relay_id nonce claimed_at job = do
    r ← on_target relay_id (claim_on_target job nonce claimed_at) job
    active ← activate claimed_at r.0 r.1
    ok (r.0, active)

  unfoldable pub claim_target : RelayId → Digest → ℕ → Job → Result OperationError (Claim × Job)
  unfolding claim_live
  claim_target relay_id nonce claimed_at row = do
    job ← read_job row
    if is_terminal job.status then ok (terminal, job) else claim_live relay_id nonce claimed_at job
