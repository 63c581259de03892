-- ===== src/Governance/Audit/Records.antt =====
-- The records, kinds, outcomes and reasons of the audit log, and the rows of its tables.
use myc.Common.{ℕ, Digest, Bool, true, false, ◌==◌, Option, none, some, List}

pub data AuditKind : Type 0 where
  connection_admission connection_operator_decision connection_expiry : AuditKind
  challenge_creation challenge_authorization governance_compaction : AuditKind

pub data AuditOutcome : Type 0 where
  succeeded rejected failed : AuditOutcome

pub data AuditReason : Type 0 where
  trusted approval_required policy_denied operator_approved operator_denied : AuditReason
  connection_expired challenge_required challenge_authorized challenge_expired : AuditReason
  rate_limited compacted : AuditReason

abbrev pub kind_index : AuditKind → ℕ
kind_index connection_admission = 0
kind_index connection_operator_decision = 1
kind_index connection_expiry = 2
kind_index challenge_creation = 3
kind_index challenge_authorization = 4
kind_index governance_compaction = 5

abbrev pub outcome_index : AuditOutcome → ℕ
outcome_index succeeded = 0
outcome_index rejected = 1
outcome_index failed = 2

abbrev pub reason_index : AuditReason → ℕ
reason_index trusted = 0
reason_index approval_required = 1
reason_index policy_denied = 2
reason_index operator_approved = 3
reason_index operator_denied = 4
reason_index connection_expired = 5
reason_index challenge_required = 6
reason_index challenge_authorized = 7
reason_index challenge_expired = 8
reason_index rate_limited = 9
reason_index compacted = 10

abbrev pub kind_eq : AuditKind → AuditKind → Bool
kind_eq a b = kind_index a == kind_index b

abbrev pub outcome_eq : AuditOutcome → AuditOutcome → Bool
outcome_eq a b = outcome_index a == outcome_index b

abbrev pub audit_reason_eq : AuditReason → AuditReason → Bool
audit_reason_eq a b = reason_index a == reason_index b

-- `==` of two `Option`s of digests.
abbrev pub optional_eq : Option Digest → Option Digest → Bool
optional_eq none none = true
optional_eq (some a) (some b) = a == b
optional_eq _ _ = false

pub data RequestMethod : Type 0 where
  connect get_public_key get_session_capability sign_event nip04_encrypt : RequestMethod
  nip04_decrypt nip44_encrypt nip44_decrypt ping switch_relays logout : RequestMethod

abbrev pub is_connect : RequestMethod → Bool
is_connect connect = true
is_connect _ = false

-- A row of `nip46_requests`, as far as it is read here and in src/state_connection.rs.
pub record RequestRow : Type 0 where
  pub operation_id : Digest
  pub correlation : Digest
  pub client_public_key : ℕ
  pub method : RequestMethod
  pub received_at : ℕ

-- A row of `operation_audit`.
pub record AuditRow : Type 0 where
  pub sequence : ℕ
  pub audit_id : Digest
  pub correlation : Digest
  pub kind : AuditKind
  pub outcome : AuditOutcome
  pub reason : AuditReason
  pub occurred_at : ℕ

-- A row of `nip46_request_audit`.
pub record RequestAuditRow : Type 0 where
  pub operation_id : Digest
  pub kind : AuditKind
  pub sequence : ℕ

pub record AuditLog : Type 0 where
  pub next_sequence : ℕ
  pub rows : List AuditRow
  pub request_rows : List RequestAuditRow

pub record AuditRecord : Type 0 where
  pub sequence : ℕ
  pub correlation_id : Digest
  pub operation_id : Option Digest
  pub kind : AuditKind
  pub outcome : AuditOutcome
  pub reason : AuditReason
  pub occurred_at : ℕ

pub record AuditEvidence : Type 0 where
  pub correlation : Digest
  pub occurred_at : ℕ
  pub operation_id : Option Digest

abbrev pub request_bound : AuditKind → Bool
request_bound connection_admission = true
request_bound challenge_creation = true
request_bound challenge_authorization = true
request_bound _ = false
