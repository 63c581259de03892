-- ===== src/Governance/Audit.antt =====
-- The audit log of src/state_governance.rs: what a row is read as, and `record_audit` with its
-- sequence. A row's audit id is SHA-256 of its correlation and kind, a parameter. The log holds the
-- rows of `operation_audit` and `nip46_request_audit`, newest first, and the one row of
-- `myc_audit_state`; the rows of `nip46_requests` are an argument.
mod Records
pub mod Sequences
pub mod Replay
pub mod Attempts
use myc.Common.{
  ℕ, Bool, false, not, ◌&&◌, ◌||◌, Option, none, some, List, ◌∷◌, Result, ok, err, ◌>>=◌, ok_or,
  leb, ◌==◌, in_range, same, is_some, is_some_and, any, find, checked_add, i64_max, valid_time,
  if◌then◌else◌,
}
pub use myc.Common.{Digest}
pub use Records.*
use myc.Governance.Rates.{GovernanceError, binding, storage}

unfoldable pub find_request : List RequestRow → Digest → Option RequestRow
find_request requests operation_id = find (λ r. r.operation_id == operation_id) requests

-- The joined columns of READ_AUDIT_BY_ID_SQL are of this row's kind and correlation.
abbrev pub joined : List RequestRow → AuditRow → Option RequestAuditRow → Bool
joined requests row none = false
joined requests row (some r) =
    kind_eq r.kind row.kind
    && is_some_and (find_request requests r.operation_id) (λ q. q.correlation == row.correlation)

abbrev pub audit_operation : Option RequestAuditRow → Option Digest
audit_operation none = none
audit_operation (some r) = some r.operation_id

-- `decode_audit` of a row and its LEFT JOIN.
unfoldable pub decode_audit :
    List RequestRow → AuditRow → Option RequestAuditRow → Result GovernanceError AuditRecord
decode_audit requests row request_audit =
    if not (same (request_bound row.kind) (joined requests row request_audit))
      || (not (request_bound row.kind) && is_some request_audit)
      || not (in_range 1 i64_max row.sequence)
      || not (valid_time row.occurred_at)
    then err binding
    else ok (record {
      sequence = row.sequence;
      correlation_id = row.correlation;
      operation_id = audit_operation request_audit;
      kind = row.kind;
      outcome = row.outcome;
      reason = row.reason;
      occurred_at = row.occurred_at;
    })

abbrev pub read_found_audit :
    List RequestRow → AuditLog → Option AuditRow → Result GovernanceError (Option AuditRecord)
read_found_audit requests log none = ok none
read_found_audit requests log (some row) =
    decode_audit requests row (find (λ r. r.sequence == row.sequence) log.request_rows) >>= λ a.
    ok (some a)

-- `read_audit_by_id`; audit ids are unique.
unfoldable pub read_audit_by_id :
    List RequestRow → AuditLog → Digest → Result GovernanceError (Option AuditRecord)
read_audit_by_id requests log audit_id =
    read_found_audit requests log (find (λ r. r.audit_id == audit_id) log.rows)

-- INSERT_AUDIT_SQL under the keys and CHECKs of `operation_audit`.
unfoldable pub insert_audit : AuditRow → List AuditRow → Result GovernanceError (List AuditRow)
insert_audit row rows =
    if any
        (λ r.
          r.sequence == row.sequence
          || r.audit_id == row.audit_id
          || (r.correlation == row.correlation && kind_eq r.kind row.kind))
        rows
      || not (in_range 1 i64_max row.sequence)
      || not (in_range 1 i64_max row.occurred_at)
    then err storage
    else ok (row ∷ rows)

-- INSERT_REQUEST_AUDIT_SQL under the keys and CHECKs of `nip46_request_audit`, if there is a request.
unfoldable pub insert_request_audit :
    List RequestRow
    → Option Digest
    → AuditKind
    → ℕ
    → List RequestAuditRow
    → Result GovernanceError (List RequestAuditRow)
insert_request_audit requests none kind sequence rows = ok rows
insert_request_audit requests (some operation_id) kind sequence rows =
    if any (λ r. r.sequence == sequence || (r.operation_id == operation_id && kind_eq r.kind kind))
        rows
      || not (request_bound kind)
      || not (is_some (find_request requests operation_id))
    then err storage
    else ok (record { operation_id = operation_id; kind = kind; sequence = sequence } ∷ rows)

abbrev pub new_row : Digest → AuditEvidence → AuditKind → AuditOutcome → AuditReason → ℕ → AuditRow
new_row audit_id evidence kind outcome reason sequence = record {
  sequence = sequence;
  audit_id = audit_id;
  correlation = evidence.correlation;
  kind = kind;
  outcome = outcome;
  reason = reason;
  occurred_at = evidence.occurred_at;
}

abbrev pub new_record : AuditEvidence → AuditKind → AuditOutcome → AuditReason → ℕ → AuditRecord
new_record evidence kind outcome reason sequence = record {
  sequence = sequence;
  correlation_id = evidence.correlation;
  operation_id = evidence.operation_id;
  kind = kind;
  outcome = outcome;
  reason = reason;
  occurred_at = evidence.occurred_at;
}

-- The new record of `record_audit`.
unfoldable pub append_audit :
    List RequestRow
    → Digest
    → AuditEvidence
    → AuditKind
    → AuditOutcome
    → AuditReason
    → AuditLog
    → Result GovernanceError (AuditRecord × AuditLog)
append_audit requests audit_id evidence kind outcome reason log =
    ok_or (checked_add log.next_sequence 1) binding >>= λ sequence.
    if not (leb sequence i64_max)
    then err binding
    else (insert_audit (new_row audit_id evidence kind outcome reason sequence) log.rows >>= λ rows.
        insert_request_audit requests evidence.operation_id kind sequence log.request_rows
        >>= λ more. ok (
          new_record evidence kind outcome reason sequence,
          record { next_sequence = sequence; rows = rows; request_rows = more },
        ))

-- The record that was there before is the one that is asked for.
unfoldable pub is_same_audit :
    AuditRecord → AuditEvidence → AuditKind → AuditOutcome → AuditReason → Bool
is_same_audit existing evidence kind outcome reason =
    existing.correlation_id == evidence.correlation
    && optional_eq existing.operation_id evidence.operation_id
    && kind_eq existing.kind kind
    && outcome_eq existing.outcome outcome
    && audit_reason_eq existing.reason reason
    && existing.occurred_at == evidence.occurred_at

unfoldable pub record_after :
    List RequestRow
    → Digest
    → AuditEvidence
    → AuditKind
    → AuditOutcome
    → AuditReason
    → AuditLog
    → Option AuditRecord
    → Result GovernanceError (AuditRecord × AuditLog)
record_after requests audit_id evidence kind outcome reason log none =
    append_audit requests audit_id evidence kind outcome reason log
record_after requests audit_id evidence kind outcome reason log (some existing) =
    if is_same_audit existing evidence kind outcome reason then ok (existing, log) else err binding

-- `record_audit`, with `derive_audit_id`.
unfoldable pub record_audit :
    (Digest → AuditKind → Digest)
    → List RequestRow
    → AuditEvidence
    → AuditKind
    → AuditOutcome
    → AuditReason
    → AuditLog
    → Result GovernanceError (AuditRecord × AuditLog)
unfolding record_after
record_audit derive_audit_id requests evidence kind outcome reason log =
    read_audit_by_id requests log (derive_audit_id evidence.correlation kind) >>= λ existing.
    record_after requests (derive_audit_id evidence.correlation kind) evidence kind outcome reason
      log existing
