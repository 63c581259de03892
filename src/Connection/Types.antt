-- ===== src/Connection/Types.antt =====
-- The records of src/state_connection.rs and the rows of its tables. A connection's row holds the codes
-- of its `connection_permissions`, one list for each scope. A client's public key, an id, a digest and
-- a nonce are numbers.
use myc.Common.{ℕ, Bool, Option, List, ◌==◌}
use myc.Governance.Audit.{Digest, AuditKind, AuditLog, RequestRow}
use myc.Connection.Permissions.{Permission}

pub data ConnectionError : Type 0 where
  binding storage : ConnectionError

pub data AdmissionPolicy : Type 0 where
  trusted explicit_approval denied : AdmissionPolicy

pub data Decision : Type 0 where
  pending_approval challenged allowed denied : Decision

-- The `reason_code` of a decision.
pub data DecisionReason : Type 0 where
  explicit_approval_required trusted_client policy_denied : DecisionReason
  operator_approved operator_denied : DecisionReason
  authorization_challenge_required authorization_challenge_authorized : DecisionReason
  authorization_challenge_expired : DecisionReason

pub data Status : Type 0 where
  pending active denied expired : Status

abbrev pub status_index : Status → ℕ
status_index Status.pending = 0
status_index Status.active = 1
status_index Status.denied = 2
status_index Status.expired = 3

abbrev pub status_eq : Status → Status → Bool
status_eq a b = status_index a == status_index b

abbrev pub decision_index : Decision → ℕ
decision_index Decision.pending_approval = 0
decision_index Decision.challenged = 1
decision_index Decision.allowed = 2
decision_index Decision.denied = 3

abbrev pub decision_eq : Decision → Decision → Bool
decision_eq a b = decision_index a == decision_index b

abbrev pub policy_index : AdmissionPolicy → ℕ
policy_index AdmissionPolicy.trusted = 0
policy_index AdmissionPolicy.explicit_approval = 1
policy_index AdmissionPolicy.denied = 2

abbrev pub policy_eq : AdmissionPolicy → AdmissionPolicy → Bool
policy_eq a b = policy_index a == policy_index b

-- `MycConnectionAdmissionPolicy::decision`.
abbrev pub policy_decision : AdmissionPolicy → Decision
policy_decision AdmissionPolicy.trusted = Decision.allowed
policy_decision AdmissionPolicy.explicit_approval = Decision.pending_approval
policy_decision AdmissionPolicy.denied = Decision.denied

-- `MycConnectionDecision::reason`.
abbrev pub decision_reason : Decision → DecisionReason
decision_reason Decision.pending_approval = explicit_approval_required
decision_reason Decision.allowed = trusted_client
decision_reason Decision.denied = policy_denied
decision_reason Decision.challenged = authorization_challenge_required

-- A row of `connections` with its rows of `connection_permissions`.
pub record ConnectionRow : Type 0 where
  pub id : Digest
  pub nonce : Digest
  pub client_public_key : ℕ
  pub requested_digest : Digest
  pub policy_generation : ℕ
  pub status : Status
  pub created_at : ℕ
  pub updated_at : ℕ
  pub authorized_until : Option ℕ
  pub requested : List (List ℕ)
  pub granted : List (List ℕ)

-- A row of `nip46_request_decisions`.
pub record DecisionRow : Type 0 where
  pub operation_id : Digest
  pub connection_id : Option Digest
  pub decision : Decision
  pub reason : DecisionReason
  pub policy_generation : ℕ
  pub requested_digest : Digest
  pub challenge_id : Option Digest
  pub decided_at : ℕ

pub data ChallengeState : Type 0 where
  pending authorized expired : ChallengeState

-- A row of `connection_auth_challenges`. Its URL is its bytes.
pub record ChallengeRow : Type 0 where
  pub id : Digest
  pub nonce : Digest
  pub connection_id : Digest
  pub operation_id : Digest
  pub policy_generation : ℕ
  pub url : List ℕ
  pub state : ChallengeState
  pub issued_at : ℕ
  pub expires_at : ℕ
  pub resolved_at : Option ℕ

pub record Store : Type 0 where
  pub connections : List ConnectionRow
  pub decisions : List DecisionRow
  pub challenges : List ChallengeRow
  pub log : AuditLog

-- `MycConnectionRecord`.
pub record ConnectionRecord : Type 0 where
  pub id : Digest
  pub client_public_key : ℕ
  pub requested_permissions : List Permission
  pub granted_permissions : List Permission
  pub policy_generation : ℕ
  pub status : Status
  pub created_at : ℕ
  pub updated_at : ℕ
  pub authorized_until : Option ℕ

pub record PersistedDecision : Type 0 where
  pub connection_id : Option Digest
  pub decision : Decision
  pub policy_generation : ℕ
  pub requested_digest : Digest
  pub challenge_id : Option Digest
  pub decided_at : ℕ
  pub admission_policy : Option AdmissionPolicy

-- `MycConnectionDecisionRecord`.
pub record DecisionRecord : Type 0 where
  pub operation_id : Digest
  pub connection : Option ConnectionRecord
  pub decision : Decision
  pub policy_generation : ℕ
  pub decided_at : ℕ

-- `MycConnectionOperatorDecision`.
pub data OperatorDecision : Type 0 where
  approve : List Permission → Option ℕ → OperatorDecision
  deny : OperatorDecision

-- What `Url::parse` says of a text, as far as it is asked.
pub record ParsedUrl : Type 0 where
  pub is_https : Bool
  pub is_http : Bool
  pub is_loopback : Bool
  pub has_username : Bool
  pub has_password : Bool
  pub has_fragment : Bool
  pub as_str : List ℕ

-- What the transactions take from elsewhere: SHA-256 of the ids and of a permission set, the crate's
-- `Url::parse`, and the rows of `nip46_requests`.
pub record Context : Type 0 where
  pub derive_audit_id : Digest → AuditKind → Digest
  pub derive_connection_id : ℕ → Digest → Digest
  pub derive_challenge_id : Digest → Digest → Digest → Digest
  pub permission_digest : List Permission → Digest
  pub parse_url : List ℕ → Option ParsedUrl
  pub requests : List RequestRow
