-- ===== src/Delivery/Types.antt =====
-- The durable records of src/state_delivery.rs. A row's foreign key is its place in the tree: a job
-- holds its targets in the order of their index, and a target holds its attempts, newest first.
pub use myc.Common.{Digest}
use myc.Common.{ℕ, Bool, true, false, Option, List, Result, ok, err, ltb, if◌then◌else◌, valid_time}

-- The bytes of a relay's configured name.
abbrev pub RelayId : Type 0
RelayId = List ℕ

pub data StateError : Type 0 where
  invalid_time invalid_relay_id invalid_policy invalid_retry_jitter : StateError

pub data OperationError : Type 0 where
  binding storage : OperationError

pub data PolicyMode : Type 0 where
  at_least_one_required all_required required_quorum : PolicyMode

pub data SourceKind : Type 0 where
  signer_response discovery_handler : SourceKind

pub record Source : Type 0 where
  pub kind : SourceKind
  pub id : Digest

pub data JobStatus : Type 0 where
  pending active delivered failed unknown : JobStatus

pub data TargetStatus : Type 0 where
  pending leased submitted delivered retryable unknown exhausted : TargetStatus

pub data AttemptStatus : Type 0 where
  leased submitted delivered failed unknown : AttemptStatus

pub data AttemptOutcome : Type 0 where
  delivered relay_rejected transport_failed unknown_acknowledgement : AttemptOutcome

pub data Reason : Type 0 where
  accepted relay_rejected transport_failed lease_expired_before_submit : Reason
  acknowledgement_lost : Reason

pub record Attempt : Type 0 where
  pub id : Digest
  pub number : ℕ
  pub nonce : Digest
  pub status : AttemptStatus
  pub leased_at : ℕ
  pub lease_expires_at : ℕ
  pub submitted_at : Option ℕ
  pub resolved_at : Option ℕ
  pub reason : Option Reason

pub record Target : Type 0 where
  pub index : ℕ
  pub relay_id : RelayId
  pub required : Bool
  pub attempt_count : ℕ
  pub status : TargetStatus
  pub active_attempt_id : Option Digest
  pub next_attempt_at : Option ℕ
  pub updated_at : ℕ
  pub attempts : List Attempt

pub record Job : Type 0 where
  pub id : Digest
  pub source : Source
  pub artifact_digest : Digest
  pub policy_mode : PolicyMode
  pub required_acknowledgements : ℕ
  pub max_attempts : ℕ
  pub initial_backoff_ms : ℕ
  pub maximum_backoff_ms : ℕ
  pub attempt_deadline_ms : ℕ
  pub status : JobStatus
  pub created_at : ℕ
  pub updated_at : ℕ
  pub finalized_at : Option ℕ
  pub targets : List Target

pub data Claim : Type 0 where
  claimed exact_replay : Attempt → Claim
  not_ready terminal : Claim

abbrev pub target_max_count : ℕ
target_max_count = 32

abbrev pub attempt_max_count : ℕ
attempt_max_count = 32

abbrev pub relay_id_max_bytes : ℕ
relay_id_max_bytes = 64

abbrev pub retry_jitter_max_ms : ℕ
retry_jitter_max_ms = 300_000

-- The status tests of `matches!`, `==` and the SQL `IN` lists.
abbrev pub is_terminal : JobStatus → Bool
is_terminal JobStatus.pending = false
is_terminal JobStatus.active = false
is_terminal _ = true

abbrev pub is_pending : JobStatus → Bool
is_pending JobStatus.pending = true
is_pending _ = false

abbrev pub target_is_leased : TargetStatus → Bool
target_is_leased TargetStatus.leased = true
target_is_leased _ = false

abbrev pub target_is_submitted : TargetStatus → Bool
target_is_submitted TargetStatus.submitted = true
target_is_submitted _ = false

abbrev pub target_is_delivered : TargetStatus → Bool
target_is_delivered TargetStatus.delivered = true
target_is_delivered _ = false

abbrev pub target_is_exhausted : TargetStatus → Bool
target_is_exhausted TargetStatus.exhausted = true
target_is_exhausted _ = false

abbrev pub target_is_unknown : TargetStatus → Bool
target_is_unknown TargetStatus.unknown = true
target_is_unknown _ = false

abbrev pub target_is_retryable : TargetStatus → Bool
target_is_retryable TargetStatus.retryable = true
target_is_retryable _ = false

abbrev pub target_is_active : TargetStatus → Bool
target_is_active TargetStatus.leased = true
target_is_active TargetStatus.submitted = true
target_is_active _ = false

abbrev pub target_is_claimable : TargetStatus → Bool
target_is_claimable TargetStatus.pending = true
target_is_claimable TargetStatus.retryable = true
target_is_claimable TargetStatus.unknown = true
target_is_claimable _ = false

abbrev pub attempt_is_leased : AttemptStatus → Bool
attempt_is_leased AttemptStatus.leased = true
attempt_is_leased _ = false

abbrev pub attempt_is_submitted : AttemptStatus → Bool
attempt_is_submitted AttemptStatus.submitted = true
attempt_is_submitted _ = false

abbrev pub attempt_is_delivered : AttemptStatus → Bool
attempt_is_delivered AttemptStatus.delivered = true
attempt_is_delivered _ = false

abbrev pub attempt_is_resolved : AttemptStatus → Bool
attempt_is_resolved AttemptStatus.leased = false
attempt_is_resolved AttemptStatus.submitted = false
attempt_is_resolved _ = true

-- `MycDeliveryTimeUnixMs::new`.
unfoldable pub time_new : ℕ → Result StateError ℕ
time_new value = if valid_time value then ok value else err StateError.invalid_time

-- `MycDeliveryRetryJitter::new`.
unfoldable pub retry_jitter_new : ℕ → Result StateError ℕ
retry_jitter_new value_ms =
    if ltb retry_jitter_max_ms value_ms then err StateError.invalid_retry_jitter else ok value_ms
