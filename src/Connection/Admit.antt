-- ===== src/Connection/Admit.antt =====
-- `admit_connection` of src/state_connection.rs: a connect request is admitted once, under the policy
-- of its client. The rows of the rate windows that it reads are an argument, and those that it writes
-- are a part of what it returns.
mod Records
unfoldable pub use Records.*
use myc.Common.{
  ℕ, not, ◌||◌, Option, none, some, List, [], ◌∷◌, Result, ok, err, ◌>>=◌, ok_or, ltb, ◌==◌,
  is_some, is_some_and, is_some_of, any, if◌then◌else◌,
}
use myc.Governance.Rates.{GovernanceError, RatePolicy, RateClass, RateRow, Subject}
use myc.Governance.Audit.{
  Digest, AuditKind, AuditOutcome, AuditReason, AuditEvidence, RequestRow, find_request, is_connect,
}
use myc.Governance.Audit.Attempts.{GovernedAttempt, govern_rate_attempt}
use myc.Connection.Permissions.{Permission}
use myc.Connection.Types.{
  ConnectionError, binding, storage, AdmissionPolicy, policy_eq, policy_decision, decision_reason,
  Status, ConnectionRow, DecisionRow, Store, PersistedDecision, DecisionRecord, Context,
}
use myc.Connection.Rows.{read_decision, connections_check, decisions_check, has_id, has_operation}
use myc.Connection.Statements.{
  insert_permissions, record_event, map_governance_error, with_connections, with_decisions,
}

abbrev pub admission_status : AdmissionPolicy → Result ConnectionError Status
admission_status AdmissionPolicy.trusted = ok Status.active
admission_status AdmissionPolicy.explicit_approval = ok Status.pending
admission_status AdmissionPolicy.denied = err binding

abbrev pub admission_row : Context → AdmissionRequest → Digest → Status → ConnectionRow
admission_row context request id status = record {
  id = id;
  nonce = request.nonce;
  client_public_key = request.client_public_key;
  requested_digest = context.permission_digest request.requested_permissions;
  policy_generation = request.policy_generation;
  status = status;
  created_at = request.observed_at;
  updated_at = request.observed_at;
  authorized_until = request.authorized_until;
  requested = [];
  granted = [];
}

-- INSERT_CONNECTION_SQL under the key and the CHECKs of `connections`.
unfoldable pub insert_row : ConnectionRow → Store → Result ConnectionError ConnectionRow
insert_row row store =
    if any (has_id row.id) store.connections || not (connections_check row)
    then err storage
    else ok row

abbrev pub granted_codes : Status → List Permission → Result ConnectionError (List (List ℕ))
granted_codes Status.active permissions = insert_permissions permissions []
granted_codes _ permissions = ok []

-- `insert_connection`.
unfoldable pub insert_connection :
    Context → AdmissionRequest → Digest → Store → Result ConnectionError Store
insert_connection context request id store = admission_status request.policy >>= λ status.
    insert_row (admission_row context request id status) store >>= λ row.
    insert_permissions request.requested_permissions [] >>= λ requested.
    granted_codes status request.requested_permissions >>= λ granted. ok (
      with_connections store
        (record row { requested = requested; granted = granted } ∷ store.connections))

-- INSERT_DECISION_SQL, under the keys and the CHECKs of `nip46_request_decisions`, with the request and
-- the connection that it refers to.
unfoldable pub insert_decision : Context → DecisionRow → Store → Result ConnectionError Store
insert_decision context row store =
    if any (has_operation row.operation_id) store.decisions
      || not (is_some (find_request context.requests row.operation_id))
      || is_some_and row.connection_id (λ id. not (any (has_id id) store.connections))
      || is_some_and row.challenge_id
          (λ id. any (λ d. is_some_of d.challenge_id id) store.decisions)
      || not (decisions_check row)
    then err storage
    else ok (with_decisions store (row ∷ store.decisions))

abbrev pub insert_for_policy :
    Context → AdmissionRequest → Store → Result ConnectionError (Option Digest × Store)
insert_for_policy context request store =
    let id = context.derive_connection_id request.client_public_key request.nonce in
    if policy_eq request.policy AdmissionPolicy.denied
    then ok (none, store)
    else (insert_connection context request id store >>= λ s. ok (some id, s))

abbrev pub admission_outcome : AdmissionPolicy → AuditOutcome
admission_outcome AdmissionPolicy.denied = AuditOutcome.rejected
admission_outcome _ = AuditOutcome.succeeded

abbrev pub admission_reason : AdmissionPolicy → AuditReason
admission_reason AdmissionPolicy.trusted = AuditReason.trusted
admission_reason AdmissionPolicy.explicit_approval = AuditReason.approval_required
admission_reason AdmissionPolicy.denied = AuditReason.policy_denied

abbrev pub admission_decision : Context → AdmissionRequest → Option Digest → DecisionRow
admission_decision context request id = record {
  operation_id = request.operation_id;
  connection_id = id;
  decision = policy_decision request.policy;
  reason = decision_reason (policy_decision request.policy);
  policy_generation = request.policy_generation;
  requested_digest = context.permission_digest request.requested_permissions;
  challenge_id = none;
  decided_at = request.observed_at;
}

-- The admission, once the rate windows have let it pass.
unfoldable pub admit_governed :
    Context
    → AdmissionRequest
    → AuditEvidence
    → Option (List RateRow)
    → Store
    → Result ConnectionError Admitted
admit_governed context request evidence rate_rows store =
    insert_for_policy context request store >>= λ inserted.
    insert_decision context (admission_decision context request inserted.0) inserted.1 >>= λ s1.
    read_decision s1 request.operation_id >>= λ found. ok_or found binding >>= λ persisted.
    decision_record context s1 request.operation_id persisted >>= λ made.
    record_event context evidence AuditKind.connection_admission (admission_outcome request.policy)
      (admission_reason request.policy) s1
    >>= λ s2. ok (record { admission = admitted made; rate_rows = rate_rows; store = s2 })

abbrev pub after_attempt :
    Context
    → AdmissionRequest
    → AuditEvidence
    → Store
    → Result GovernanceError GovernedAttempt
    → Result ConnectionError Admitted
after_attempt context request evidence store (err e) = err (map_governance_error e)
after_attempt context request evidence store (ok a) =
    if a.admitted
    then admit_governed context request evidence a.rows (record store { log = a.log })
    else ok (record {
      admission = rate_limited;
      rate_rows = a.rows;
      store = record store { log = a.log };
    })

unfoldable pub admit_new :
    Context
    → AdmissionRequest
    → Option RatePolicy
    → List Subject
    → AuditEvidence
    → Store
    → Result ConnectionError Admitted
admit_new context request none subjects evidence store =
    admit_governed context request evidence none store
admit_new context request (some rate_policy) subjects evidence store =
    after_attempt context request evidence store (
      govern_rate_attempt context.derive_audit_id context.requests rate_policy
        RateClass.connection_admission subjects evidence AuditKind.connection_admission store.log)

abbrev pub replayed : DecisionRecord → Store → Admitted
replayed found store = record { admission = exact_replay found; rate_rows = none; store = store }

unfoldable pub replay_found :
    Context → AdmissionRequest → PersistedDecision → Store → Result ConnectionError Admitted
replay_found context request existing store =
    decision_record context store request.operation_id existing >>= λ found.
    if is_some_and found.connection (λ c. not (c.client_public_key == request.client_public_key))
    then err binding
    else ok (replayed found store)

-- The request was decided before.
unfoldable pub admit_replay :
    Context → AdmissionRequest → PersistedDecision → Store → Result ConnectionError Admitted
admit_replay context request existing store =
    if not (existing.policy_generation == request.policy_generation)
      || not (is_some_and existing.admission_policy (λ policy. policy_eq policy request.policy))
      || not (existing.requested_digest == context.permission_digest request.requested_permissions)
    then err binding
    else replay_found context request existing store

abbrev pub admit_decided :
    Context
    → AdmissionRequest
    → Option RatePolicy
    → List Subject
    → RequestRow
    → Store
    → Option PersistedDecision
    → Result ConnectionError Admitted
admit_decided context request rate_policy subjects bound store (some existing) =
    admit_replay context request existing store
admit_decided context request rate_policy subjects bound store none =
    admit_new context request rate_policy subjects
      (record {
        correlation = bound.correlation;
        occurred_at = request.observed_at;
        operation_id = some request.operation_id;
      })
      store

-- `admit_connection`.
unfoldable pub admit_connection :
    Context
    → AdmissionRequest
    → Option RatePolicy
    → List Subject
    → Store
    → Result ConnectionError Admitted
admit_connection context request rate_policy subjects store =
    read_request_binding context request.operation_id >>= λ bound.
    if not (bound.client_public_key == request.client_public_key)
      || not (is_connect bound.method)
      || ltb request.observed_at bound.received_at
    then err binding
    else (read_decision store request.operation_id >>= λ found.
        admit_decided context request rate_policy subjects bound store found)
