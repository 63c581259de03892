-- ===== src/Connection/Rows.antt =====
-- What src/state_connection.rs reads from the rows of the connections and the decisions, and the
-- CHECKs and triggers of those tables in src/state_catalog.rs.
use myc.Common.{
  ℕ, ◌+◌, Bool, true, false, not, ◌&&◌, ◌||◌, Option, none, some, List, [], ◌∷◌, Result, ok, err,
  ◌>>=◌, ltb, leb, ◌==◌, in_range, is_some, is_none, is_some_and, find, i64_max, length, valid_time,
  if◌then◌else◌,
}
use myc.Governance.Audit.{Digest, optional_eq}
use myc.Connection.Permissions.{
  Permission, PermissionError, permission_parse, permission_set_new, is_subset_of,
}
use myc.Connection.Types.{
  ConnectionError, binding, AdmissionPolicy, Decision, DecisionReason, Status, status_eq,
  ConnectionRow, DecisionRow, Store, ConnectionRecord, PersistedDecision, Context,
  explicit_approval_required, trusted_client, policy_denied, operator_approved, operator_denied,
  authorization_challenge_required, authorization_challenge_authorized,
  authorization_challenge_expired,
}

abbrev pub cons_parsed : Option Permission → Option (List Permission) → Option (List Permission)
cons_parsed (some p) (some ps) = some (p ∷ ps)
cons_parsed _ _ = none

-- `MycConnectionPermission::parse` of every code.
unfoldable pub parse_codes : List (List ℕ) → Option (List Permission)
parse_codes [] = some []
parse_codes (c ∷ cs) = cons_parsed (permission_parse c) (parse_codes cs)

abbrev pub set_or_binding :
    Result PermissionError (List Permission) → Result ConnectionError (List Permission)
set_or_binding (err e) = err binding
set_or_binding (ok s) = ok s

abbrev pub permission_set_of : Option (List Permission) → Result ConnectionError (List Permission)
permission_set_of none = err binding
permission_set_of (some ps) = set_or_binding (permission_set_new ps)

-- `read_permissions`.
unfoldable pub read_permissions : List (List ℕ) → Result ConnectionError (List Permission)
read_permissions codes =
    if ltb 64 (length codes) then err binding else permission_set_of (parse_codes codes)

abbrev pub is_unanswered_or_denied : Status → Bool
is_unanswered_or_denied status = status_eq status Status.pending || status_eq status Status.denied

abbrev pub is_over : Status → Bool
is_over status = status_eq status Status.denied || status_eq status Status.expired

abbrev pub is_empty : List Permission → Bool
is_empty [] = true
is_empty (p ∷ ps) = false

-- The tests of `read_connection` on a row and its permissions.
unfoldable pub connection_refused :
    Context → ConnectionRow → List Permission → List Permission → Bool
connection_refused context row requested granted =
    not (context.derive_connection_id row.client_public_key row.nonce == row.id)
    || not (context.permission_digest requested == row.requested_digest)
    || not (is_subset_of granted requested)
    || ltb row.updated_at row.created_at
    || (is_unanswered_or_denied row.status && not (is_empty granted))
    || (status_eq row.status Status.active
        && is_some_and row.authorized_until (λ until. leb until row.updated_at))
    || (is_over row.status && is_some row.authorized_until)
    || not (in_range 1 i64_max row.policy_generation)
    || not (valid_time row.created_at)
    || not (valid_time row.updated_at)
    || is_some_and row.authorized_until (λ until. not (valid_time until))

abbrev pub connection_record : ConnectionRow → List Permission → List Permission → ConnectionRecord
connection_record row requested granted = record {
  id = row.id;
  client_public_key = row.client_public_key;
  requested_permissions = requested;
  granted_permissions = granted;
  policy_generation = row.policy_generation;
  status = row.status;
  created_at = row.created_at;
  updated_at = row.updated_at;
  authorized_until = row.authorized_until;
}

-- `read_connection` on its row.
unfoldable pub parse_connection : Context → ConnectionRow → Result ConnectionError ConnectionRecord
parse_connection context row = read_permissions row.requested >>= λ requested.
    read_permissions row.granted >>= λ granted.
    if connection_refused context row requested granted
    then err binding
    else ok (connection_record row requested granted)

abbrev pub has_id : Digest → ConnectionRow → Bool
has_id id row = row.id == id

abbrev pub parse_found : Context → Option ConnectionRow → Result ConnectionError ConnectionRecord
parse_found context none = err binding
parse_found context (some row) = parse_connection context row

-- `read_connection`.
unfoldable pub read_connection : Context → Store → Digest → Result ConnectionError ConnectionRecord
read_connection context store id = parse_found context (find (has_id id) store.connections)

-- The combinations that the CHECK of `nip46_request_decisions` and `parse_decision` admit.
unfoldable pub decision_admitted : Decision → DecisionReason → Bool → Bool → Bool
decision_admitted Decision.denied policy_denied connection challenge =
    not connection && not challenge
decision_admitted Decision.pending_approval explicit_approval_required connection challenge =
    connection && not challenge
decision_admitted Decision.allowed trusted_client connection challenge = connection && not challenge
decision_admitted Decision.allowed operator_approved connection challenge =
    connection && not challenge
decision_admitted Decision.denied operator_denied connection challenge = connection && not challenge
decision_admitted Decision.challenged authorization_challenge_required connection challenge =
    connection && challenge
decision_admitted Decision.allowed authorization_challenge_authorized connection challenge =
    connection && challenge
decision_admitted Decision.denied authorization_challenge_expired connection challenge =
    connection && challenge
decision_admitted _ _ connection challenge = false

abbrev pub reason_policy : DecisionReason → Option AdmissionPolicy
reason_policy trusted_client = some AdmissionPolicy.trusted
reason_policy explicit_approval_required = some AdmissionPolicy.explicit_approval
reason_policy operator_approved = some AdmissionPolicy.explicit_approval
reason_policy operator_denied = some AdmissionPolicy.explicit_approval
reason_policy policy_denied = some AdmissionPolicy.denied
reason_policy _ = none

unfoldable pub decision_refused : DecisionRow → Bool
decision_refused row =
    not (
      decision_admitted row.decision row.reason (is_some row.connection_id)
        (is_some row.challenge_id))
    || not (in_range 1 i64_max row.policy_generation)
    || not (valid_time row.decided_at)

abbrev pub persisted_decision : DecisionRow → PersistedDecision
persisted_decision row = record {
  connection_id = row.connection_id;
  decision = row.decision;
  policy_generation = row.policy_generation;
  requested_digest = row.requested_digest;
  challenge_id = row.challenge_id;
  decided_at = row.decided_at;
  admission_policy = reason_policy row.reason;
}

-- `parse_decision`.
unfoldable pub parse_decision : DecisionRow → Result ConnectionError PersistedDecision
parse_decision row = if decision_refused row then err binding else ok (persisted_decision row)

abbrev pub parse_some : Option DecisionRow → Result ConnectionError (Option PersistedDecision)
parse_some none = ok none
parse_some (some row) = parse_decision row >>= λ d. ok (some d)

abbrev pub has_operation : Digest → DecisionRow → Bool
has_operation operation_id row = row.operation_id == operation_id

-- `read_decision`.
unfoldable pub read_decision : Store → Digest → Result ConnectionError (Option PersistedDecision)
read_decision store operation_id = parse_some (find (has_operation operation_id) store.decisions)

-- The CHECKs of `connections`.
unfoldable pub connections_check : ConnectionRow → Bool
connections_check row =
    in_range 1 i64_max row.policy_generation
    && in_range 1 i64_max row.created_at
    && in_range row.created_at i64_max row.updated_at
    && (is_none row.authorized_until
        || is_some_and row.authorized_until (λ until. in_range (row.created_at + 1) i64_max until))
    && (status_eq row.status Status.active || is_none row.authorized_until)

-- The moves that `connections_guard_update` allows.
abbrev pub status_moves : Status → Status → Option ℕ → ℕ → Bool
status_moves Status.pending Status.active until updated_at =
    is_none until || is_some_and until (λ u. ltb updated_at u)
status_moves Status.pending Status.denied until updated_at = is_none until
status_moves Status.active Status.expired until updated_at = is_none until
status_moves _ _ until updated_at = false

-- The trigger `connections_guard_update`.
unfoldable pub connections_guard_update : ConnectionRow → ConnectionRow → Bool
connections_guard_update old new =
    new.id == old.id
    && new.nonce == old.nonce
    && new.client_public_key == old.client_public_key
    && new.requested_digest == old.requested_digest
    && new.policy_generation == old.policy_generation
    && new.created_at == old.created_at
    && leb old.updated_at new.updated_at
    && status_moves old.status new.status new.authorized_until new.updated_at

-- The CHECKs of `nip46_request_decisions`.
unfoldable pub decisions_check : DecisionRow → Bool
decisions_check row =
    in_range 1 i64_max row.policy_generation
    && in_range 1 i64_max row.decided_at
    && decision_admitted row.decision row.reason (is_some row.connection_id)
        (is_some row.challenge_id)

abbrev pub decision_moves : Decision → Decision → DecisionReason → Bool
decision_moves Decision.pending_approval Decision.allowed operator_approved = true
decision_moves Decision.pending_approval Decision.denied operator_denied = true
decision_moves Decision.challenged Decision.allowed authorization_challenge_authorized = true
decision_moves Decision.challenged Decision.denied authorization_challenge_expired = true
decision_moves _ _ _ = false

-- The trigger `nip46_request_decisions_guard_update`.
unfoldable pub decisions_guard_update : DecisionRow → DecisionRow → Bool
decisions_guard_update old new =
    new.operation_id == old.operation_id
    && optional_eq new.connection_id old.connection_id
    && new.policy_generation == old.policy_generation
    && new.requested_digest == old.requested_digest
    && optional_eq new.challenge_id old.challenge_id
    && leb old.decided_at new.decided_at
    && decision_moves old.decision new.decision new.reason
