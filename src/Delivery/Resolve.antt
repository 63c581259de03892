-- ===== src/Delivery/Resolve.antt =====
-- How an attempt ends: `record_outcome`, `recover_expired`, `resolve_attempt_and_target` and
-- `next_attempt_time` of src/state_delivery.rs.
pub mod Invariant
pub mod Reread
pub mod Replay
use myc.Common.{
  ℕ, ◌-◌, min, Bool, true, false, not, ◌&&◌, ◌||◌, Option, none, some, Result, ok, err, ◌>>=◌,
  ok_or, ltb, ◌==◌, is_some_of, is_some_and, update_first, if◌then◌else◌, checked_add,
  saturating_mul, checked_shl_one, unwrap_or, u64_max,
}
use myc.Delivery.Types.{
  Digest, RelayId, OperationError, binding, storage, TargetStatus, AttemptStatus, AttemptOutcome,
  Reason, Attempt, Target, Job, target_is_leased, target_is_submitted, attempt_is_leased,
  attempt_is_submitted, attempt_is_resolved,
}
use myc.Delivery.Rows.{read_job}
use myc.Delivery.Statements.{
  update_one, attempt_legal, target_legal, read_attempt, on_target, fit_time,
}
use myc.Delivery.Finalize.{finalize_job_if_terminal}

abbrev pub attempt_status_eq : AttemptStatus → AttemptStatus → Bool
attempt_status_eq AttemptStatus.leased AttemptStatus.leased = true
attempt_status_eq AttemptStatus.submitted AttemptStatus.submitted = true
attempt_status_eq AttemptStatus.delivered AttemptStatus.delivered = true
attempt_status_eq AttemptStatus.failed AttemptStatus.failed = true
attempt_status_eq AttemptStatus.unknown AttemptStatus.unknown = true
attempt_status_eq _ _ = false

abbrev pub reason_eq : Option Reason → Reason → Bool
reason_eq (some Reason.accepted) Reason.accepted = true
reason_eq (some Reason.relay_rejected) Reason.relay_rejected = true
reason_eq (some Reason.transport_failed) Reason.transport_failed = true
reason_eq (some Reason.lease_expired_before_submit) Reason.lease_expired_before_submit = true
reason_eq (some Reason.acknowledgement_lost) Reason.acknowledgement_lost = true
reason_eq _ _ = false

-- `MycDeliveryAttemptOutcome::status`.
unfoldable pub outcome_status : AttemptOutcome → AttemptStatus
outcome_status AttemptOutcome.delivered = AttemptStatus.delivered
outcome_status AttemptOutcome.relay_rejected = AttemptStatus.failed
outcome_status AttemptOutcome.transport_failed = AttemptStatus.failed
outcome_status AttemptOutcome.unknown_acknowledgement = AttemptStatus.unknown

-- `MycDeliveryAttemptOutcome::reason`.
unfoldable pub outcome_reason : AttemptOutcome → Reason
outcome_reason AttemptOutcome.delivered = Reason.accepted
outcome_reason AttemptOutcome.relay_rejected = Reason.relay_rejected
outcome_reason AttemptOutcome.transport_failed = Reason.transport_failed
outcome_reason AttemptOutcome.unknown_acknowledgement = Reason.acknowledgement_lost

-- The backoff of `next_attempt_time`: doubled with each attempt, up to the policy's maximum.
unfoldable pub maximum_delay : Job → ℕ → ℕ
maximum_delay job attempt_number =
    let exponent = min (attempt_number - 1) 31 in
    let factor = unwrap_or (checked_shl_one exponent) u64_max in
    min (saturating_mul job.initial_backoff_ms factor) job.maximum_backoff_ms

unfoldable pub next_attempt_time : Job → ℕ → ℕ → ℕ → Result OperationError ℕ
next_attempt_time job attempt_number jitter observed_at =
    if ltb (maximum_delay job attempt_number) jitter
    then err binding
    else (ok_or (checked_add observed_at jitter) binding >>= fit_time)

-- The `match terminal` of `resolve_attempt_and_target`: the target's status and its next time.
unfoldable pub resolution :
    Job → ℕ → Bool → AttemptStatus → ℕ → ℕ → Result OperationError (TargetStatus × Option ℕ)
resolution job number remaining AttemptStatus.delivered jitter observed_at =
    ok (TargetStatus.delivered, none)
resolution job number true AttemptStatus.failed jitter observed_at =
    next_attempt_time job number jitter observed_at >>= λ next.
    ok (TargetStatus.retryable, some next)
resolution job number false AttemptStatus.failed jitter observed_at =
    ok (TargetStatus.exhausted, none)
resolution job number true AttemptStatus.unknown jitter observed_at =
    next_attempt_time job number jitter observed_at >>= λ next. ok (TargetStatus.unknown, some next)
resolution job number false AttemptStatus.unknown jitter observed_at =
    ok (TargetStatus.unknown, none)
resolution job number _ _ jitter observed_at = err binding

abbrev pub is_failed_or_unknown : AttemptStatus → Bool
is_failed_or_unknown AttemptStatus.failed = true
is_failed_or_unknown AttemptStatus.unknown = true
is_failed_or_unknown _ = false

-- RESOLVE_ATTEMPT_SQL.
unfoldable pub resolve_attempt :
    Digest → AttemptStatus → AttemptStatus → Reason → ℕ → Target → Result OperationError Target
unfolding update_one
resolve_attempt attempt_id prior terminal reason observed_at target =
    update_first (λ a. a.id == attempt_id) storage
      (update_one (λ a. attempt_status_eq a.status prior) attempt_legal
        (λ a. record a { status = terminal; resolved_at = some observed_at; reason = some reason }))
      target.attempts
    >>= λ attempts. ok (record target { attempts = attempts })

abbrev pub target_status_is_prior : AttemptStatus → TargetStatus → Bool
target_status_is_prior AttemptStatus.leased status = target_is_leased status
target_status_is_prior AttemptStatus.submitted status = target_is_submitted status
target_status_is_prior _ status = false

-- RESOLVE_TARGET_SQL; a prior status other than these two is a binding error.
unfoldable pub resolve_target :
    Digest → AttemptStatus → TargetStatus → Option ℕ → ℕ → Target → Result OperationError Target
unfolding update_one
resolve_target attempt_id prior target_status next_attempt observed_at target =
    if attempt_is_resolved prior
    then err binding
    else update_one
        (λ t. is_some_of t.active_attempt_id attempt_id && target_status_is_prior prior t.status)
        target_legal
        (λ t. record t {
          status = target_status;
          active_attempt_id = none;
          next_attempt_at = next_attempt;
          updated_at = observed_at;
        })
        target

unfoldable pub resolve_attempt_and_target :
    Job
    → Attempt
    → AttemptStatus
    → AttemptStatus
    → Reason
    → ℕ
    → ℕ
    → Target
    → Result OperationError Target
unfolding resolve_attempt resolve_target
resolve_attempt_and_target job attempt prior terminal reason jitter observed_at target = do
  resolved ← resolve_attempt attempt.id prior terminal reason observed_at target
  let remaining = ltb target.attempt_count job.max_attempts
  if not (remaining && is_failed_or_unknown terminal) && not (jitter == 0)
      then err binding
      else (resolution job attempt.number remaining terminal jitter observed_at >>= λ r.
          resolve_target attempt.id prior r.0 r.1 observed_at resolved)

-- The status that an outcome wants of the attempt.
unfoldable pub required_prior : AttemptOutcome → AttemptStatus → AttemptStatus
required_prior AttemptOutcome.delivered status = AttemptStatus.submitted
required_prior AttemptOutcome.unknown_acknowledgement status = AttemptStatus.submitted
required_prior AttemptOutcome.relay_rejected status = AttemptStatus.submitted
required_prior AttemptOutcome.transport_failed status = status

-- The tests of `record_outcome` on an attempt that is still open.
unfoldable pub outcome_refused : AttemptOutcome → Digest → ℕ → Attempt → Target → Bool
unfolding required_prior
outcome_refused outcome attempt_id observed_at attempt target =
    let prior = required_prior outcome attempt.status in
    not (attempt_status_eq attempt.status prior)
    || not (attempt_is_leased prior || attempt_is_submitted prior)
    || not (is_some_of target.active_attempt_id attempt_id)
    || ltb observed_at attempt.leased_at
    || is_some_and attempt.submitted_at (λ submitted_at. ltb observed_at submitted_at)
    || ltb attempt.lease_expires_at observed_at

-- The part of `record_outcome` on the target's rows; the flag says that the attempt was resolved now,
-- and not by an earlier call.
unfoldable pub outcome_on_target :
    Job → Digest → AttemptOutcome → ℕ → ℕ → Target → Result OperationError (Bool × Target)
unfolding outcome_status outcome_reason outcome_refused required_prior
outcome_on_target job attempt_id outcome jitter observed_at target = do
  found ← read_attempt target attempt_id
  attempt ← ok_or found binding
  if attempt_is_resolved attempt.status
      then (if attempt_status_eq attempt.status (outcome_status outcome)
            && reason_eq attempt.reason (outcome_reason outcome)
            && is_some_of attempt.resolved_at observed_at
          then ok (false, target)
          else err binding)
      else (if outcome_refused outcome attempt_id observed_at attempt target
          then err binding
          else (resolve_attempt_and_target job attempt (required_prior outcome attempt.status)
                (outcome_status outcome) (outcome_reason outcome) jitter observed_at target
              >>= λ t. ok (true, t)))

abbrev pub finalize_if : Bool → ℕ → Job → Result OperationError Job
finalize_if true observed_at job = finalize_job_if_terminal observed_at job
finalize_if false observed_at job = ok job

unfoldable pub record_outcome :
    RelayId → Digest → AttemptOutcome → ℕ → ℕ → Job → Result OperationError Job
record_outcome relay_id attempt_id outcome jitter observed_at row = do
  job ← read_job row
  r ← on_target relay_id (outcome_on_target job attempt_id outcome jitter observed_at) job
  finalize_if r.0 observed_at r.1

-- What an expired lease becomes.
unfoldable pub expired_resolution : AttemptStatus → AttemptStatus × Reason
expired_resolution AttemptStatus.leased = (AttemptStatus.failed, Reason.lease_expired_before_submit)
expired_resolution _ = (AttemptStatus.unknown, Reason.acknowledgement_lost)

-- The part of `recover_expired` on the target's rows.
unfoldable pub recover_on_target :
    Job → Digest → ℕ → ℕ → Target → Result OperationError (Bool × Target)
unfolding expired_resolution
recover_on_target job attempt_id jitter observed_at target = do
  found ← read_attempt target attempt_id
  attempt ← ok_or found binding
  if attempt_is_resolved attempt.status
      then ok (false, target)
      else (if not (ltb attempt.lease_expires_at observed_at)
            || not (is_some_of target.active_attempt_id attempt_id)
          then err binding
          else (let r = expired_resolution attempt.status in
              resolve_attempt_and_target job attempt attempt.status r.0 r.1 jitter observed_at
                target
              >>= λ t. ok (true, t)))

unfoldable pub recover_expired : RelayId → Digest → ℕ → ℕ → Job → Result OperationError Job
recover_expired relay_id attempt_id jitter observed_at row = do
  job ← read_job row
  r ← on_target relay_id (recover_on_target job attempt_id jitter observed_at) job
  finalize_if r.0 observed_at r.1
