-- ===== src/Delivery/Rows.antt =====
-- What a read of src/state_delivery.rs admits (`parse_attempt`, `parse_target`, `read_job_rows`), and
-- what the schema of src/state_catalog.rs lets a write do: the CHECKs of the three delivery tables
-- and their BEFORE UPDATE triggers.
use myc.Common.{
  ℕ, suc, ◌+◌, Bool, true, false, not, ◌&&◌, ◌||◌, Option, none, some, List, [], ◌∷◌, Result, ok,
  err, ltb, leb, ◌==◌, in_range, is_some, is_none, same, bytes_eq, length, all, if◌then◌else◌,
  valid_time, i64_max,
}
use myc.Delivery.Types.{
  Digest, RelayId, OperationError, binding, JobStatus, TargetStatus, AttemptStatus, Reason, Attempt,
  Target, Job, StateError, target_max_count, attempt_max_count, relay_id_max_bytes, is_terminal,
  target_is_unknown, target_is_retryable, target_is_active,
}

is_lowercase : ℕ → Bool
is_lowercase = in_range b'a' b'z'

is_digit : ℕ → Bool
is_digit = in_range b'0' b'9'

last_is : (ℕ → Bool) → List ℕ → Bool
last_is test [] = false
last_is test (b ∷ []) = test b
last_is test (b ∷ c ∷ bs) = last_is test (c ∷ bs)

has_double_underscore : List ℕ → Bool
has_double_underscore [] = false
has_double_underscore (b ∷ []) = false
has_double_underscore (b ∷ c ∷ bs) = (b == b'_' && c == b'_') || has_double_underscore (c ∷ bs)

first_is : (ℕ → Bool) → List ℕ → Bool
first_is test [] = false
first_is test (b ∷ bs) = test b

-- The test of `MycDeliveryRelayId::new`.
unfoldable pub valid_relay_id : List ℕ → Bool
unfolding is_lowercase is_digit last_is has_double_underscore first_is all
valid_relay_id bytes =
    leb (length bytes) relay_id_max_bytes
    && first_is is_lowercase bytes
    && last_is (λ b. is_lowercase b || is_digit b) bytes
    && all (λ b. is_lowercase b || is_digit b || b == b'_') bytes
    && not (has_double_underscore bytes)

-- `MycDeliveryRelayId::new`.
unfoldable pub relay_id_new : List ℕ → Result StateError RelayId
relay_id_new bytes = if valid_relay_id bytes then ok bytes else err StateError.invalid_relay_id

abbrev pub optional_time_valid : Option ℕ → Bool
optional_time_valid none = true
optional_time_valid (some t) = valid_time t

abbrev pub reason_is_accepted : Option Reason → Bool
reason_is_accepted (some Reason.accepted) = true
reason_is_accepted _ = false

abbrev pub reason_is_acknowledgement_lost : Option Reason → Bool
reason_is_acknowledgement_lost (some Reason.acknowledgement_lost) = true
reason_is_acknowledgement_lost _ = false

-- The reasons of an attempt that failed with nothing submitted.
abbrev pub reason_is_unsubmitted : Option Reason → Bool
reason_is_unsubmitted (some Reason.transport_failed) = true
reason_is_unsubmitted (some Reason.lease_expired_before_submit) = true
reason_is_unsubmitted _ = false

-- The reasons of an attempt that failed after it was submitted.
abbrev pub reason_is_refused : Option Reason → Bool
reason_is_refused (some Reason.relay_rejected) = true
reason_is_refused (some Reason.transport_failed) = true
reason_is_refused _ = false

-- The `match status` of `parse_attempt`.
abbrev pub attempt_evidence : AttemptStatus → Option ℕ → Option ℕ → Option Reason → Bool
attempt_evidence AttemptStatus.leased submitted resolved reason =
    is_none submitted && is_none resolved && is_none reason
attempt_evidence AttemptStatus.submitted submitted resolved reason =
    is_some submitted && is_none resolved && is_none reason
attempt_evidence AttemptStatus.delivered submitted resolved reason =
    is_some submitted && is_some resolved && reason_is_accepted reason
attempt_evidence AttemptStatus.failed submitted resolved reason = is_some resolved && is_some reason
attempt_evidence AttemptStatus.unknown submitted resolved reason =
    is_some submitted && is_some resolved && reason_is_acknowledgement_lost reason

unfoldable pub parse_attempt : Attempt → Result OperationError Attempt
parse_attempt a =
    if in_range 1 attempt_max_count a.number
      && valid_time a.leased_at
      && valid_time a.lease_expires_at
      && optional_time_valid a.submitted_at
      && optional_time_valid a.resolved_at
      && ltb a.leased_at a.lease_expires_at
      && attempt_evidence a.status a.submitted_at a.resolved_at a.reason
    then ok a
    else err binding

-- The test of `parse_target`.
unfoldable pub target_row_valid : Target → Bool
target_row_valid t =
    valid_relay_id t.relay_id
    && leb t.attempt_count attempt_max_count
    && optional_time_valid t.next_attempt_at
    && valid_time t.updated_at
    && same (target_is_active t.status) (is_some t.active_attempt_id)
    && not (target_is_retryable t.status && is_none t.next_attempt_at)
    && not (
        not (target_is_retryable t.status)
        && not (target_is_unknown t.status)
        && is_some t.next_attempt_at)

unfoldable pub indices_from : ℕ → List Target → Bool
indices_from i [] = true
indices_from i (t ∷ ts) = t.index == i && indices_from (suc i) ts

unknown_scheduled : ℕ → Target → Bool
unknown_scheduled max_attempts t =
    not (target_is_unknown t.status) || is_some t.next_attempt_at || t.attempt_count == max_attempts

-- The test of `read_job_rows`, with that of `parse_target` on each target.
unfoldable pub job_rows_valid : Job → Bool
unfolding indices_from unknown_scheduled all
job_rows_valid j =
    leb 1 j.required_acknowledgements
    && in_range 1 attempt_max_count j.max_attempts
    && leb 1 j.initial_backoff_ms
    && leb j.initial_backoff_ms j.maximum_backoff_ms
    && leb j.maximum_backoff_ms 300_000
    && in_range 1 30_000 j.attempt_deadline_ms
    && valid_time j.created_at
    && valid_time j.updated_at
    && optional_time_valid j.finalized_at
    && all target_row_valid j.targets
    && in_range 1 target_max_count (length j.targets)
    && indices_from 0 j.targets
    && same (is_terminal j.status) (is_some j.finalized_at)
    && all (unknown_scheduled j.max_attempts) j.targets

unfoldable pub read_job : Job → Result OperationError Job
read_job j = if job_rows_valid j then ok j else err binding

-- The status columns of the CHECK on `delivery_attempts`.
abbrev pub attempt_columns : AttemptStatus → Option ℕ → Option ℕ → Option Reason → Bool
attempt_columns AttemptStatus.failed submitted resolved reason =
    is_some resolved && (reason_is_refused reason || reason_is_unsubmitted reason)
attempt_columns status submitted resolved reason = attempt_evidence status submitted resolved reason

abbrev pub optional_between : ℕ → ℕ → Option ℕ → Bool
optional_between lo hi none = true
optional_between lo hi (some t) = in_range lo hi t

-- The CHECKs of `delivery_attempts`.
unfoldable pub attempts_check : Attempt → Bool
attempts_check a =
    in_range 1 32 a.number
    && in_range 1 i64_max a.leased_at
    && in_range (a.leased_at + 1) i64_max a.lease_expires_at
    && optional_between a.leased_at a.lease_expires_at a.submitted_at
    && optional_between a.leased_at i64_max a.resolved_at
    && attempt_columns a.status a.submitted_at a.resolved_at a.reason

abbrev pub same_optional : Option ℕ → Option ℕ → Bool
same_optional none none = true
same_optional (some a) (some b) = a == b
same_optional _ _ = false

-- The transitions of the trigger `delivery_attempts_guard_update`.
abbrev pub attempt_transition : AttemptStatus → AttemptStatus → Attempt → Attempt → Bool
attempt_transition AttemptStatus.leased AttemptStatus.submitted old new =
    is_some new.submitted_at && is_none new.resolved_at && is_none new.reason
attempt_transition AttemptStatus.leased AttemptStatus.failed old new =
    is_none new.submitted_at && is_some new.resolved_at && reason_is_unsubmitted new.reason
attempt_transition AttemptStatus.submitted AttemptStatus.delivered old new =
    same_optional new.submitted_at old.submitted_at
    && is_some new.resolved_at
    && reason_is_accepted new.reason
attempt_transition AttemptStatus.submitted AttemptStatus.failed old new =
    same_optional new.submitted_at old.submitted_at
    && is_some new.resolved_at
    && reason_is_refused new.reason
attempt_transition AttemptStatus.submitted AttemptStatus.unknown old new =
    same_optional new.submitted_at old.submitted_at
    && is_some new.resolved_at
    && reason_is_acknowledgement_lost new.reason
attempt_transition _ _ old new = false

unfoldable pub attempts_guard_update : Attempt → Attempt → Bool
attempts_guard_update old new =
    new.id == old.id
    && new.number == old.number
    && new.nonce == old.nonce
    && new.leased_at == old.leased_at
    && new.lease_expires_at == old.lease_expires_at
    && attempt_transition old.status new.status old new

-- The CHECK of `delivery_targets` on the status, the active attempt and the next time.
abbrev pub target_columns : TargetStatus → Option Digest → Option ℕ → Bool
target_columns TargetStatus.leased active next = is_some active && is_none next
target_columns TargetStatus.submitted active next = is_some active && is_none next
target_columns TargetStatus.retryable active next = is_none active && is_some next
target_columns TargetStatus.unknown active next = is_none active
target_columns _ active next = is_none active && is_none next

unfoldable pub targets_check : Target → Bool
targets_check t =
    leb t.index 31
    && in_range 1 64 (length t.relay_id)
    && leb t.attempt_count 32
    && optional_between 1 i64_max t.next_attempt_at
    && in_range 1 i64_max t.updated_at
    && target_columns t.status t.active_attempt_id t.next_attempt_at

abbrev pub target_resolution : TargetStatus → Option ℕ → Bool
target_resolution TargetStatus.retryable next = is_some next
target_resolution TargetStatus.unknown next = true
target_resolution TargetStatus.delivered next = is_none next
target_resolution TargetStatus.exhausted next = is_none next
target_resolution _ next = false

abbrev pub target_resolved : Target → Target → Bool
target_resolved old new =
    new.attempt_count == old.attempt_count
    && is_none new.active_attempt_id
    && target_resolution new.status new.next_attempt_at

abbrev pub target_claimed : Target → Target → Bool
target_claimed old new =
    new.attempt_count == old.attempt_count + 1
    && is_some new.active_attempt_id
    && is_none new.next_attempt_at

-- The transitions of the trigger `delivery_targets_guard_update`.
abbrev pub target_transition : TargetStatus → TargetStatus → Target → Target → Bool
target_transition TargetStatus.pending TargetStatus.leased old new = target_claimed old new
target_transition TargetStatus.retryable TargetStatus.leased old new = target_claimed old new
target_transition TargetStatus.unknown TargetStatus.leased old new = target_claimed old new
target_transition TargetStatus.leased TargetStatus.submitted old new =
    new.attempt_count == old.attempt_count
    && same_optional new.active_attempt_id old.active_attempt_id
    && is_none new.next_attempt_at
target_transition TargetStatus.leased _ old new = target_resolved old new
target_transition TargetStatus.submitted _ old new = target_resolved old new
target_transition _ _ old new = false

unfoldable pub targets_guard_update : Target → Target → Bool
unfolding bytes_eq
targets_guard_update old new =
    new.index == old.index
    && bytes_eq new.relay_id old.relay_id
    && same new.required old.required
    && leb old.updated_at new.updated_at
    && target_transition old.status new.status old new

-- The CHECK of `delivery_jobs` on the columns that an UPDATE writes.
unfoldable pub jobs_check : Job → Bool
jobs_check j =
    in_range j.created_at i64_max j.updated_at
    && optional_between j.created_at i64_max j.finalized_at
    && same (is_terminal j.status) (is_some j.finalized_at)

abbrev pub job_transition : JobStatus → JobStatus → Option ℕ → Bool
job_transition JobStatus.pending JobStatus.active finalized = is_none finalized
job_transition JobStatus.pending JobStatus.pending finalized = false
job_transition JobStatus.pending _ finalized = is_some finalized
job_transition JobStatus.active JobStatus.delivered finalized = is_some finalized
job_transition JobStatus.active JobStatus.failed finalized = is_some finalized
job_transition JobStatus.active JobStatus.unknown finalized = is_some finalized
job_transition _ _ finalized = false

-- The trigger `delivery_jobs_guard_update`, on the columns that the UPDATEs of the program write:
-- the others are the same row's.
unfoldable pub jobs_guard_update : Job → Job → Bool
jobs_guard_update old new =
    leb old.updated_at new.updated_at && job_transition old.status new.status new.finalized_at
