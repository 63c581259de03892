-- ===== src/Governance/Tests/Logs.antt =====
-- An event of the audit log recorded twice, and an attempt that is refused twice.
use myc.Common.{
  arith, ◌+◌, ◌*◌, ◌≤◌, ◌≡◌, ◌⊎◌, refl, true, false, none, some, [], ◌∷◌, ok, err, if◌then◌else◌,
  ◌==◌, ◌&&◌, find, any, all,
}
use myc.Governance.Rates.{
  binding, RateClass, RatePolicy, RateRow, SubjectScope, Subject, govern_subjects, load_all,
  persist_all, load_rate_state, persist_rate_state, roll_window, can_accept, checked_time_add,
  write_rate, rate_check, rate_guard_update,
}
use myc.Governance.Audit.{
  Digest, AuditKind, AuditOutcome, AuditReason, kind_index, RequestRow, RequestMethod, AuditRow,
  AuditLog, AuditRecord, AuditEvidence, record_audit, new_row, new_record, outcome_eq,
  audit_reason_eq, read_audit_by_id, record_after, append_audit, insert_audit, insert_request_audit,
  find_request,
}
use myc.Governance.Audit.Sequences.{Sequenced, record_audit-Sequenced}
use myc.Governance.Audit.Replay.{attests, record_audit-again}
use myc.Governance.Audit.Attempts.{GovernedAttempt, govern_rate_attempt, govern_new, record_refusal}
use myc.Governance.Audit.Attempts.Refused.{govern_rate_attempt-refused}

abbrev audit_id_of : Digest → AuditKind → Digest
audit_id_of correlation kind = 10 * correlation + kind_index kind

abbrev request : RequestRow
request = record {
  operation_id = 1;
  correlation = 7;
  client_public_key = 3;
  method = RequestMethod.ping;
  received_at = 900;
}

abbrev evidence : AuditEvidence
evidence = record { correlation = 7; occurred_at = 1_000; operation_id = some 1 }

abbrev empty_log : AuditLog
empty_log = record { next_sequence = 0; rows = []; request_rows = [] }

-- The log after one event of the request.
abbrev log_of : AuditOutcome → AuditReason → AuditLog
log_of outcome reason = record {
  next_sequence = 1;
  rows = new_row 73 evidence AuditKind.challenge_creation outcome reason 1 ∷ [];
  request_rows =
      record { operation_id = 1; kind = AuditKind.challenge_creation; sequence = 1 } ∷ [];
}

abbrev first_record : AuditRecord
first_record =
    new_record evidence AuditKind.challenge_creation AuditOutcome.succeeded
      AuditReason.challenge_required 1

empty_log-Sequenced : Sequenced empty_log
empty_log-Sequenced = (tt, tt, omega arith)

attested : attests (request ∷ []) (some 1) 7 AuditKind.challenge_creation ≡ true
unfolding find_request find
attested = refl

recorded :
    record_audit audit_id_of
      (request ∷ [])
      evidence
      AuditKind.challenge_creation
      AuditOutcome.succeeded
      AuditReason.challenge_required
      empty_log
    ≡ ok (first_record, log_of AuditOutcome.succeeded AuditReason.challenge_required)
unfolding record_audit read_audit_by_id record_after append_audit insert_audit insert_request_audit
    find any find_request
recorded = refl

abbrev first_log : AuditLog
first_log = log_of AuditOutcome.succeeded AuditReason.challenge_required

record_audit-Sequenced_example :
    Sequenced first_log
    × (0 ≤ 1)
    × (1 ≤ 0 + 1)
    × ((empty_log.rows ≡ first_log.rows)
        ⊎ ((row : AuditRow) × (row ∷ empty_log.rows ≡ first_log.rows)))
record_audit-Sequenced_example =
    record_audit-Sequenced audit_id_of (request ∷ []) evidence AuditKind.challenge_creation
      AuditOutcome.succeeded AuditReason.challenge_required empty_log first_log first_record
      empty_log-Sequenced recorded

-- The same event at another time is refused.
record_audit-again_example :
    record_audit audit_id_of
      (request ∷ [])
      (record evidence { occurred_at = 1_001 })
      AuditKind.challenge_creation
      AuditOutcome.succeeded
      AuditReason.challenge_required
      first_log
    ≡ (if outcome_eq AuditOutcome.succeeded AuditOutcome.succeeded
          && audit_reason_eq AuditReason.challenge_required AuditReason.challenge_required
          && 1_000 == 1_001
        then ok (first_record, first_log)
        else err binding)
record_audit-again_example =
    record_audit-again audit_id_of (request ∷ []) evidence AuditKind.challenge_creation
      AuditOutcome.succeeded AuditOutcome.succeeded AuditReason.challenge_required
      AuditReason.challenge_required 1_001 empty_log first_log first_record empty_log-Sequenced
      attested recorded

abbrev challenge_policy : RatePolicy
challenge_policy = record {
  class = RateClass.challenge_creation;
  window_ms = 60_000;
  max_attempts = 1;
  retention_ms = 120_000;
  maximum_tracked_subjects = 8;
}

-- A window that is full.
abbrev full_row : RateRow
full_row = record {
  window_started = 500;
  window_ends = 60_500;
  accepted = 1;
  rejected = 0;
  lifetime_accepted = 1;
  lifetime_rejected = 0;
  last_observed = 500;
  retention_expires = 120_500;
}

abbrev refused_row : RateRow
refused_row = record full_row {
  rejected = 1;
  lifetime_rejected = 1;
  last_observed = 1_000;
  retention_expires = 121_000;
}

abbrev subject : Subject
subject = record { scope = SubjectScope.connection; count = 1; row = some full_row }

abbrev refusal : GovernedAttempt
refusal = record {
  admitted = false;
  rows = some (refused_row ∷ []);
  log = log_of AuditOutcome.rejected AuditReason.rate_limited;
}

attempted :
    govern_rate_attempt audit_id_of
      (request ∷ [])
      challenge_policy
      RateClass.challenge_creation
      (subject ∷ [])
      evidence
      AuditKind.challenge_creation
      empty_log
    ≡ ok refusal
unfolding govern_rate_attempt read_audit_by_id govern_new record_refusal govern_subjects load_all
    persist_all all load_rate_state persist_rate_state roll_window can_accept checked_time_add
    write_rate rate_check rate_guard_update record_audit record_after append_audit insert_audit
    insert_request_audit find any find_request
attempted = refl

govern_rate_attempt-refused_example :
    govern_rate_attempt audit_id_of
      (request ∷ [])
      challenge_policy
      RateClass.challenge_creation
      (subject ∷ [])
      (record evidence { occurred_at = 70_000 })
      AuditKind.challenge_creation
      refusal.log
    ≡ ok (record { admitted = false; rows = none; log = refusal.log })
govern_rate_attempt-refused_example =
    govern_rate_attempt-refused audit_id_of (request ∷ []) challenge_policy
      RateClass.challenge_creation (subject ∷ []) (subject ∷ []) evidence
      AuditKind.challenge_creation 70_000 empty_log refusal empty_log-Sequenced attested attempted
      refl refl
