-- ===== src/Connection/Tests/Answers.antt =====
-- An authorization challenge that is authorized in time.
use myc.Common.{
  ℕ, ◌+◌, ◌*◌, ◌≤◌, ◌≡◌, refl, true, false, Option, none, some, List, [], ◌∷◌, ok, err, ap, arith,
  find, any, all, bytes_eq, bytes_of, digits, u32_to_string, parse_digits, parse_u32, strip_prefix,
  sort_by, has_equal_neighbours, search_by, length, update_first,
}
use myc.Governance.Rates.{
  RateClass, RatePolicy, RateRow, SubjectScope, Subject, govern_subjects, load_all, persist_all,
  load_rate_state, persist_rate_state, roll_window, can_accept, checked_time_add, write_rate,
  rate_check, rate_guard_update,
}
use myc.Governance.Audit.{
  Digest, AuditKind, AuditOutcome, AuditReason, kind_index, RequestMethod, record_audit,
  read_audit_by_id, record_after, append_audit, insert_audit, insert_request_audit, find_request,
  new_row,
}
use myc.Governance.Audit.Attempts.{govern_rate_attempt, govern_new, record_refusal}
use myc.Connection.Permissions.{
  Permission, ping, permission_code, permission_parse, permission_lt, permission_eq,
  permission_set_new, permissions_contain, is_subset_of,
}
use myc.Connection.Types.{
  binding, Status, Decision, DecisionReason, ChallengeState, ChallengeRow, ConnectionRow,
  DecisionRow, Store, ConnectionRecord, Context, ParsedUrl,
}
use myc.Connection.Rows.{
  read_connection, parse_connection, read_permissions, parse_codes, connection_refused,
  decision_admitted, decisions_check, decisions_guard_update,
}
use myc.Connection.Statements.{update_row, update_decision, record_event}
use myc.Connection.Admit.{read_request_binding}
use myc.Connection.Challenges.{
  ChallengeRecord, Authorization, resolved, challenge_record, read_challenge, parse_challenge,
  challenge_refused, valid_challenge_url, challenges_check, challenges_guard_update,
  resolve_challenge, update_challenge_decision, authorize_governed, authorize_bound,
  authorize_challenge,
}
use myc.Connection.Challenges.Once
use myc.Connection.Challenges.Repository.{
  ChallengePolicy, Answered, is_outlived, repository_authorize_challenge,
}
use myc.Connection.Challenges.Repository.Again.{repository_authorize_challenge-again}

abbrev audit_id_of : Digest → AuditKind → Digest
audit_id_of correlation kind = 10 * correlation + kind_index kind

abbrev connection_id_of : ℕ → Digest → Digest
connection_id_of client nonce = 100 * client + nonce

abbrev challenge_id_of : Digest → Digest → Digest → Digest
challenge_id_of operation connection nonce = operation + connection + nonce

abbrev digest_of : List Permission → Digest
digest_of permissions = length permissions

-- A text that is an HTTPS URL.
abbrev https_url : List ℕ → Option ParsedUrl
https_url text = some (record {
  is_https = true;
  is_http = false;
  is_loopback = false;
  has_username = false;
  has_password = false;
  has_fragment = false;
  as_str = text;
})

abbrev context : Context
context = record {
  derive_audit_id = audit_id_of;
  derive_connection_id = connection_id_of;
  derive_challenge_id = challenge_id_of;
  permission_digest = digest_of;
  parse_url = https_url;
  requests =
      record {
        operation_id = 2;
        correlation = 6;
        client_public_key = 3;
        method = RequestMethod.ping;
        received_at = 2_500;
      }
      ∷ [];
}

abbrev active_row : ConnectionRow
active_row = record {
  id = 305;
  nonce = 5;
  client_public_key = 3;
  requested_digest = 1;
  policy_generation = 2;
  status = Status.active;
  created_at = 1_000;
  updated_at = 2_000;
  authorized_until = some 5_000;
  requested = permission_code ping ∷ [];
  granted = permission_code ping ∷ [];
}

abbrev pending_row : ChallengeRow
pending_row = record {
  id = 311;
  nonce = 4;
  connection_id = 305;
  operation_id = 2;
  policy_generation = 2;
  url = bytes_of "https://a";
  state = ChallengeState.pending;
  issued_at = 3_000;
  expires_at = 4_000;
  resolved_at = none;
}

abbrev authorized_row : ChallengeRow
authorized_row = record pending_row { state = ChallengeState.authorized; resolved_at = some 3_500 }

abbrev challenged_row : DecisionRow
challenged_row = record {
  operation_id = 2;
  connection_id = some 305;
  decision = Decision.challenged;
  reason = DecisionReason.authorization_challenge_required;
  policy_generation = 2;
  requested_digest = 1;
  challenge_id = some 311;
  decided_at = 3_000;
}

abbrev pending_store : Store
pending_store = record {
  connections = active_row ∷ [];
  decisions = challenged_row ∷ [];
  challenges = pending_row ∷ [];
  log = record { next_sequence = 0; rows = []; request_rows = [] };
}

abbrev authorized_store : Store
authorized_store = record {
  connections = active_row ∷ [];
  decisions =
      record challenged_row {
        decision = Decision.allowed;
        reason = DecisionReason.authorization_challenge_authorized;
        decided_at = 3_500;
      }
      ∷ [];
  challenges = authorized_row ∷ [];
  log = record {
    next_sequence = 1;
    rows =
        new_row 64 (record { correlation = 6; occurred_at = 3_500; operation_id = some 2 })
          AuditKind.challenge_authorization AuditOutcome.succeeded AuditReason.challenge_authorized
          1
        ∷ [];
    request_rows =
        record { operation_id = 2; kind = AuditKind.challenge_authorization; sequence = 1 } ∷ [];
  };
}

abbrev rate_policy : RatePolicy
rate_policy = record {
  class = RateClass.challenge_authorization;
  window_ms = 60_000;
  max_attempts = 2;
  retention_ms = 120_000;
  maximum_tracked_subjects = 8;
}

abbrev subject : Subject
subject = record { scope = SubjectScope.connection; count = 0; row = none }

abbrev counted_row : RateRow
counted_row = record {
  window_started = 3_500;
  window_ends = 63_500;
  accepted = 1;
  rejected = 0;
  lifetime_accepted = 1;
  lifetime_rejected = 0;
  last_observed = 3_500;
  retention_expires = 123_500;
}

abbrev authorized_record : ChallengeRecord
authorized_record = challenge_record authorized_row

abbrev authorization : Authorization
authorization = record {
  result = resolved authorized_record;
  rate_rows = some (counted_row ∷ []);
  store = authorized_store;
}

authorizes :
    authorize_challenge context 311 305 2 2 3_500 rate_policy (subject ∷ []) pending_store
    ≡ ok authorization
unfolding authorize_challenge authorize_bound authorize_governed resolve_challenge
    update_challenge_decision read_challenge parse_challenge challenge_refused valid_challenge_url
    challenges_check challenges_guard_update read_request_binding update_row update_decision
    record_event read_connection parse_connection read_permissions parse_codes connection_refused
    decision_admitted decisions_check decisions_guard_update permission_code permission_parse
    permission_lt permission_eq permission_set_new permissions_contain is_subset_of
    govern_rate_attempt govern_new record_refusal govern_subjects load_all persist_all
    load_rate_state persist_rate_state roll_window can_accept checked_time_add write_rate rate_check
    rate_guard_update record_audit read_audit_by_id record_after append_audit insert_audit
    insert_request_audit find_request find any all bytes_eq digits u32_to_string parse_digits
    parse_u32 strip_prefix sort_by has_equal_neighbours search_by update_first
authorizes = refl

authorize_challenge-resolved_example :
    (b : ChallengeRecord) × (c : ConnectionRecord) × (read_challenge context pending_store 2
      ≡ ok (some b))
    × (read_connection context pending_store 305 ≡ ok c)
    × (b.state ≡ ChallengeState.pending)
    × (b.issued_at ≤ 3_500)
    × Once.Answers ChallengeState.authorized b c 3_500
    × (authorized_record ≡ record b { state = ChallengeState.authorized; resolved_at = some 3_500 })
    × (read_challenge context authorized_store 2 ≡ ok (some authorized_record))
    × (pending_store.connections ≡ authorized_store.connections)
authorize_challenge-resolved_example =
    Once.authorize_challenge-resolved context 311 305 2 2 3_500 rate_policy (subject ∷ [])
      pending_store authorization authorized_record authorizes refl

abbrev challenge_policy : ChallengePolicy
challenge_policy = record { url = []; pending_lifetime_ms = 1_000; authorized_lifetime_ms = 4_000 }

repository_authorizes :
    repository_authorize_challenge
      (some challenge_policy)
      context
      311
      305
      2
      2
      3_500
      rate_policy
      (subject ∷ [])
      pending_store
    ≡ record {
      answer = ok (resolved authorized_record);
      rate_rows = some (counted_row ∷ []);
      store = authorized_store;
    }
unfolding repository_authorize_challenge is_outlived
repository_authorizes = rw authorizes

-- The lifetime of the authorization is over.
repository_authorize_challenge-again_example :
    repository_authorize_challenge
      (some challenge_policy)
      context
      311
      305
      2
      2
      9_000
      rate_policy
      (subject ∷ [])
      authorized_store
    ≡ record { answer = err binding; rate_rows = none; store = authorized_store }
repository_authorize_challenge-again_example =
    repository_authorize_challenge-again challenge_policy context 311 305 2 2 3_500 9_000
      rate_policy (subject ∷ []) (subject ∷ []) pending_store authorized_store authorized_record
      (ap (λ (x : Answered). x.answer) repository_authorizes)
      (ap (λ (x : Answered). x.store) repository_authorizes) (omega arith)
