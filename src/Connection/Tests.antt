-- ===== src/Connection/Tests.antt =====
-- The life of one connection: admitted for explicit approval, approved with one of its permissions, and
-- expired.
pub mod Sets
pub mod Answers
use myc.Common.{
  Option, ℕ, ◌+◌, ◌*◌, ◌≡◌, refl, none, some, List, [], ◌∷◌, ok, err, find, any, all, length,
  bytes_eq, digits, u32_to_string, parse_digits, parse_u32, strip_prefix, sort_by,
  has_equal_neighbours, search_by, update_first,
}
use myc.Governance.Audit.{
  Digest, AuditKind, kind_index, RequestMethod, AuditLog, record_audit, read_audit_by_id,
  record_after, append_audit, insert_audit, insert_request_audit, find_request, new_row,
  AuditOutcome, AuditReason,
}
use myc.Connection.Permissions.{
  Permission, sign_event, ping, permission_code, permission_parse, permission_lt, permission_eq,
  permission_set_new, permissions_contain, is_subset_of,
}
use myc.Connection.Types.{
  ParsedUrl, AdmissionPolicy, Status, Decision, DecisionReason, ConnectionRow, DecisionRow, Store,
  ConnectionRecord, Context, approve, binding,
}
use myc.Connection.Rows.{
  has_id, read_connection, parse_connection, read_permissions, parse_codes, connection_refused,
  read_decision, parse_decision, decision_refused, decision_admitted, connections_check,
  connections_guard_update, decisions_check, decisions_guard_update, connection_record,
}
use myc.Connection.Statements.{
  update_row, update_connection, update_decision, insert_code, insert_permissions,
  grant_permissions, record_event,
}
use myc.Connection.Decide.{
  decide_connection, decide_found, decide_approve, approve_within, approve_pending,
  approve_connection, update_approval_decision, read_answer, record_operator_audit,
}
use myc.Connection.Decide.Refusals.{decide_connection-refused}
use myc.Connection.Expire.{
  expire_connection, expire_found, expire_known, expire_active, expire_row,
  record_connection_expiry_audit,
}
use myc.Connection.Admit.{
  AdmissionRequest, Admission, Admitted, admit_connection, read_request_binding, admit_new,
  admit_governed, insert_connection, insert_row, insert_decision, decision_record,
}
use myc.Connection.Lifecycle.{Reachable, here, next, admits, decides, expires}
use myc.Connection.Lifecycle.Onwards.{Follows, Reachable-Follows}
use myc.Connection.Lifecycle.Grants.{AllGranted, Reachable-AllGranted}

abbrev audit_id_of : Digest → AuditKind → Digest
audit_id_of correlation kind = 10 * correlation + kind_index kind

abbrev connection_id_of : ℕ → Digest → Digest
connection_id_of client nonce = 100 * client + nonce

abbrev digest_of : List Permission → Digest
digest_of permissions = length permissions

abbrev challenge_id_of : Digest → Digest → Digest → Digest
challenge_id_of operation connection nonce = operation + connection + nonce

abbrev no_url : List ℕ → Option ParsedUrl
no_url text = none

abbrev context : Context
context = record {
  derive_audit_id = audit_id_of;
  derive_connection_id = connection_id_of;
  derive_challenge_id = challenge_id_of;
  permission_digest = digest_of;
  parse_url = no_url;
  requests =
      record {
        operation_id = 1;
        correlation = 7;
        client_public_key = 3;
        method = RequestMethod.connect;
        received_at = 900;
      }
      ∷ [];
}

abbrev wanted : List Permission
wanted = sign_event 1 ∷ ping ∷ []

abbrev request : AdmissionRequest
request = record {
  operation_id = 1;
  client_public_key = 3;
  requested_permissions = wanted;
  policy_generation = 2;
  nonce = 5;
  observed_at = 1_000;
  authorized_until = none;
  policy = AdmissionPolicy.explicit_approval;
}

abbrev empty_store : Store
empty_store = record {
  connections = [];
  decisions = [];
  challenges = [];
  log = record { next_sequence = 0; rows = []; request_rows = [] };
}

abbrev pending_row : ConnectionRow
pending_row = record {
  id = 305;
  nonce = 5;
  client_public_key = 3;
  requested_digest = 2;
  policy_generation = 2;
  status = Status.pending;
  created_at = 1_000;
  updated_at = 1_000;
  authorized_until = none;
  requested = permission_code ping ∷ permission_code (sign_event 1) ∷ [];
  granted = [];
}

abbrev active_row : ConnectionRow
active_row = record pending_row {
  status = Status.active;
  updated_at = 2_000;
  authorized_until = some 5_000;
  granted = permission_code ping ∷ [];
}

abbrev expired_row : ConnectionRow
expired_row = record active_row {
  status = Status.expired;
  updated_at = 6_000;
  authorized_until = none;
}

abbrev pending_decision : DecisionRow
pending_decision = record {
  operation_id = 1;
  connection_id = some 305;
  decision = Decision.pending_approval;
  reason = DecisionReason.explicit_approval_required;
  policy_generation = 2;
  requested_digest = 2;
  challenge_id = none;
  decided_at = 1_000;
}

abbrev allowed_decision : DecisionRow
allowed_decision = record pending_decision {
  decision = Decision.allowed;
  reason = DecisionReason.operator_approved;
  decided_at = 2_000;
}

abbrev admission_log : AuditLog
admission_log = record {
  next_sequence = 1;
  rows =
      new_row 70 (record { correlation = 7; occurred_at = 1_000; operation_id = some 1 })
        AuditKind.connection_admission AuditOutcome.succeeded AuditReason.approval_required 1
      ∷ [];
  request_rows =
      record { operation_id = 1; kind = AuditKind.connection_admission; sequence = 1 } ∷ [];
}

abbrev operator_log : AuditLog
operator_log = record admission_log {
  next_sequence = 2;
  rows =
      new_row 81 (record { correlation = 8; occurred_at = 2_000; operation_id = none })
        AuditKind.connection_operator_decision AuditOutcome.succeeded AuditReason.operator_approved
        2
      ∷ admission_log.rows;
}

abbrev expiry_log : AuditLog
expiry_log = record operator_log {
  next_sequence = 3;
  rows =
      new_row 92 (record { correlation = 9; occurred_at = 6_000; operation_id = none })
        AuditKind.connection_expiry AuditOutcome.succeeded AuditReason.connection_expired 3
      ∷ operator_log.rows;
}

abbrev pending_store : Store
pending_store = record {
  connections = pending_row ∷ [];
  decisions = pending_decision ∷ [];
  challenges = [];
  log = admission_log;
}

abbrev active_store : Store
active_store = record {
  connections = active_row ∷ [];
  decisions = allowed_decision ∷ [];
  challenges = [];
  log = operator_log;
}

abbrev expired_store : Store
expired_store = record {
  connections = expired_row ∷ [];
  decisions = allowed_decision ∷ [];
  challenges = [];
  log = expiry_log;
}

abbrev pending_record : ConnectionRecord
pending_record = connection_record pending_row wanted []

abbrev active_record : ConnectionRecord
active_record = connection_record active_row wanted (ping ∷ [])

abbrev expired_record : ConnectionRecord
expired_record = connection_record expired_row wanted (ping ∷ [])

abbrev admission : Admitted
admission = record {
  admission = Admission.admitted (record {
    operation_id = 1;
    connection = some pending_record;
    decision = Decision.pending_approval;
    policy_generation = 2;
    decided_at = 1_000;
  });
  rate_rows = none;
  store = pending_store;
}

reads_pending : read_connection context pending_store 305 ≡ ok pending_record
unfolding find read_connection parse_connection read_permissions parse_codes permission_parse
    bytes_eq permission_code strip_prefix parse_u32 parse_digits u32_to_string digits
    permission_set_new permission_lt permission_eq sort_by has_equal_neighbours search_by
    permissions_contain connection_refused is_subset_of all
reads_pending = refl

reads_active : read_connection context active_store 305 ≡ ok active_record
unfolding find read_connection parse_connection read_permissions parse_codes permission_parse
    bytes_eq permission_code strip_prefix parse_u32 parse_digits u32_to_string digits
    permission_set_new permission_lt permission_eq sort_by has_equal_neighbours search_by
    permissions_contain connection_refused is_subset_of all
reads_active = refl

reads_expired : read_connection context expired_store 305 ≡ ok expired_record
unfolding find read_connection parse_connection read_permissions parse_codes permission_parse
    bytes_eq permission_code strip_prefix parse_u32 parse_digits u32_to_string digits
    permission_set_new permission_lt permission_eq sort_by has_equal_neighbours search_by
    permissions_contain connection_refused is_subset_of all
reads_expired = refl

admission_admits : admit_connection context request none [] empty_store ≡ ok admission
unfolding admit_connection read_request_binding admit_new admit_governed insert_connection
    insert_row insert_decision decision_record connections_check find read_connection
    parse_connection read_permissions parse_codes permission_parse bytes_eq permission_code
    strip_prefix parse_u32 parse_digits u32_to_string digits permission_set_new permission_lt
    permission_eq sort_by has_equal_neighbours search_by permissions_contain connection_refused
    is_subset_of all record_event record_audit read_audit_by_id record_after append_audit
    insert_audit insert_request_audit any find_request insert_permissions insert_code read_decision
    parse_decision decision_refused decision_admitted decisions_check
admission_admits = refl

operator_approves :
    decide_connection context 1 305 2 2_000 8 (approve (ping ∷ []) (some 5_000)) pending_store
    ≡ ok (active_record, active_store)
unfolding decide_connection decide_found decide_approve approve_within approve_pending
    approve_connection update_approval_decision read_answer record_operator_audit update_decision
    decisions_guard_update grant_permissions find read_connection parse_connection read_permissions
    parse_codes permission_parse bytes_eq permission_code strip_prefix parse_u32 parse_digits
    u32_to_string digits permission_set_new permission_lt permission_eq sort_by has_equal_neighbours
    search_by permissions_contain connection_refused is_subset_of all record_event record_audit
    read_audit_by_id record_after append_audit insert_audit insert_request_audit any find_request
    insert_permissions insert_code read_decision parse_decision decision_refused decision_admitted
    decisions_check update_first update_row update_connection connections_guard_update
    connections_check
operator_approves = refl

time_expires :
    expire_connection context 305 2 6_000 9 active_store ≡ ok (expired_record, expired_store)
unfolding expire_connection expire_found expire_known expire_active expire_row
    record_connection_expiry_audit find read_connection parse_connection read_permissions
    parse_codes permission_parse bytes_eq permission_code strip_prefix parse_u32 parse_digits
    u32_to_string digits permission_set_new permission_lt permission_eq sort_by has_equal_neighbours
    search_by permissions_contain connection_refused is_subset_of all record_event record_audit
    read_audit_by_id record_after append_audit insert_audit insert_request_audit any find_request
    update_first update_row update_connection connections_guard_update connections_check
time_expires = refl

life : Reachable empty_store expired_store
life =
    next
      (next (next here (admits context request none [] admission admission_admits refl)) (
        decides context 1 305 2 2_000 8 (approve (ping ∷ []) (some 5_000)) active_record
          operator_approves))
      (expires context 305 2 6_000 9 expired_record time_expires)

later_life : Reachable pending_store expired_store
later_life =
    next
      (next here (
        decides context 1 305 2 2_000 8 (approve (ping ∷ []) (some 5_000)) active_record
          operator_approves))
      (expires context 305 2 6_000 9 expired_record time_expires)

Reachable-Follows_example :
    (y : ConnectionRow) × (find (has_id 305) expired_store.connections ≡ some y)
    × Follows pending_row y
unfolding find
Reachable-Follows_example = Reachable-Follows 305 pending_row later_life refl

empty_store-AllGranted : AllGranted empty_store
unfolding find
empty_store-AllGranted = record { of_row = λ id x h. cc }

Reachable-AllGranted_example : AllGranted expired_store
Reachable-AllGranted_example = Reachable-AllGranted empty_store-AllGranted life

decide_connection-refused_example :
    decide_connection context 1 305 2 7_000 10 (approve wanted none) expired_store ≡ err binding
decide_connection-refused_example =
    decide_connection-refused context 1 305 2 7_000 10 (approve wanted none) expired_record
      expired_store reads_expired refl
