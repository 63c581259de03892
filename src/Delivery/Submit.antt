-- ===== src/Delivery/Submit.antt =====
-- `mark_submitted` of src/state_delivery.rs.
pub mod Invariant
use myc.Common.{
  ℕ, not, ◌&&◌, ◌||◌, some, Result, ok, err, ◌>>=◌, ok_or, ltb, leb, ◌==◌, is_some_of, update_first,
  if◌then◌else◌,
}
use myc.Delivery.Types.{
  Digest, RelayId, OperationError, binding, storage, TargetStatus, AttemptStatus, Attempt, Target,
  Job, target_is_leased, attempt_is_leased, attempt_is_submitted,
}
use myc.Delivery.Rows.{read_job}
use myc.Delivery.Statements.{update_one, attempt_legal, target_legal, read_attempt, on_target}

-- MARK_ATTEMPT_SUBMITTED_SQL.
unfoldable pub submit_attempt : Digest → ℕ → Target → Result OperationError Target
unfolding update_one
submit_attempt attempt_id submitted_at target =
    update_first (λ a. a.id == attempt_id) storage
      (update_one (λ a. attempt_is_leased a.status && leb submitted_at a.lease_expires_at)
        attempt_legal
        (λ a. record a { status = AttemptStatus.submitted; submitted_at = some submitted_at }))
      target.attempts
    >>= λ attempts. ok (record target { attempts = attempts })

-- MARK_TARGET_SUBMITTED_SQL.
unfoldable pub submit_target : Digest → ℕ → Target → Result OperationError Target
unfolding update_one
submit_target attempt_id submitted_at =
    update_one (λ t. is_some_of t.active_attempt_id attempt_id && target_is_leased t.status)
      target_legal (λ t. record t { status = TargetStatus.submitted; updated_at = submitted_at })

unfoldable pub submit_on_target : Digest → ℕ → Target → Result OperationError (Attempt × Target)
unfolding submit_attempt submit_target
submit_on_target attempt_id submitted_at target = do
  found ← read_attempt target attempt_id
  attempt ← ok_or found binding
  if attempt_is_submitted attempt.status
      then (if is_some_of attempt.submitted_at submitted_at
          then ok (attempt, target)
          else err binding)
      else (if not (attempt_is_leased attempt.status)
            || ltb submitted_at attempt.leased_at
            || ltb attempt.lease_expires_at submitted_at
            || not (is_some_of target.active_attempt_id attempt_id)
            || not (target_is_leased target.status)
          then err binding
          else (submit_attempt attempt_id submitted_at target >>= λ t.
              submit_target attempt_id submitted_at t >>= λ t'.
              read_attempt t' attempt_id >>= λ again. ok_or again binding >>= λ a'. ok (a', t')))

unfoldable pub mark_submitted : RelayId → Digest → ℕ → Job → Result OperationError (Attempt × Job)
mark_submitted relay_id attempt_id submitted_at row = do
  job ← read_job row
  on_target relay_id (submit_on_target attempt_id submitted_at) job
