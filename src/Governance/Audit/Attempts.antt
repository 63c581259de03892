-- ===== src/Governance/Audit/Attempts.antt =====
-- `govern_rate_attempt` of src/state_governance.rs: the attempt on the rate windows and its record in
-- the audit log.
pub mod Refused
use myc.Common.{
  ℕ, Bool, true, false, not, ◌&&◌, ◌||◌, Option, none, some, List, Result, ok, err, ◌>>=◌, ltb,
  ◌==◌, length, if◌then◌else◌,
}
use myc.Governance.Rates.{
  GovernanceError, binding, RateClass, RatePolicy, RateRow, Subject, govern_subjects,
}
use myc.Governance.Audit.{
  Digest, AuditKind, AuditOutcome, AuditReason, RequestRow, AuditLog, AuditRecord, AuditEvidence,
  record_audit, read_audit_by_id, kind_eq, outcome_eq, audit_reason_eq, optional_eq,
}

abbrev pub class_index : RateClass → ℕ
class_index RateClass.connection_admission = 0
class_index RateClass.challenge_creation = 1
class_index RateClass.challenge_authorization = 2

abbrev pub class_eq : RateClass → RateClass → Bool
class_eq a b = class_index a == class_index b

-- What an attempt leaves: its answer, the subjects' rows where they are written, and the audit log.
pub record GovernedAttempt : Type 0 where
  pub admitted : Bool
  pub rows : Option (List RateRow)
  pub log : AuditLog

-- The record that was there before is this attempt's refusal.
unfoldable pub is_refusal : AuditRecord → AuditEvidence → AuditKind → Bool
is_refusal existing evidence kind =
    existing.correlation_id == evidence.correlation
    && optional_eq existing.operation_id evidence.operation_id
    && kind_eq existing.kind kind
    && outcome_eq existing.outcome AuditOutcome.rejected
    && audit_reason_eq existing.reason AuditReason.rate_limited

unfoldable pub record_refusal :
    (Digest → AuditKind → Digest)
    → List RequestRow
    → AuditEvidence
    → AuditKind
    → AuditLog
    → Bool × List RateRow
    → Result GovernanceError GovernedAttempt
record_refusal derive requests evidence kind log (true, rows) =
    ok (record { admitted = true; rows = some rows; log = log })
record_refusal derive requests evidence kind log (false, rows) =
    record_audit derive requests evidence kind AuditOutcome.rejected AuditReason.rate_limited log
    >>= λ r. ok (record { admitted = false; rows = some rows; log = r.1 })

unfoldable pub govern_new :
    (Digest → AuditKind → Digest)
    → List RequestRow
    → RatePolicy
    → List Subject
    → AuditEvidence
    → AuditKind
    → AuditLog
    → Option AuditRecord
    → Result GovernanceError GovernedAttempt
unfolding record_refusal
govern_new derive requests policy subjects evidence kind log none =
    govern_subjects policy evidence.occurred_at subjects >>= λ r.
    record_refusal derive requests evidence kind log r
govern_new derive requests policy subjects evidence kind log (some existing) =
    if is_refusal existing evidence kind
    then ok (record { admitted = false; rows = none; log = log })
    else err binding

-- `govern_rate_attempt`.
unfoldable pub govern_rate_attempt :
    (Digest → AuditKind → Digest)
    → List RequestRow
    → RatePolicy
    → RateClass
    → List Subject
    → AuditEvidence
    → AuditKind
    → AuditLog
    → Result GovernanceError GovernedAttempt
unfolding govern_new
govern_rate_attempt derive requests policy expected subjects evidence kind log =
    if not (class_eq policy.class expected) || length subjects == 0 || ltb 2 (length subjects)
    then err binding
    else (read_audit_by_id requests log (derive evidence.correlation kind) >>= λ existing.
        govern_new derive requests policy subjects evidence kind log existing)
