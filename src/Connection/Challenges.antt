-- ===== src/Connection/Challenges.antt =====
-- The authorization challenges of src/state_connection.rs: `issue_challenge` and
-- `authorize_challenge`, with the CHECKs and the trigger of their table in src/state_catalog.rs. The
-- rows of the rate windows that they read are an argument, and those that they write are a part of what
-- they return.
mod Records
unfoldable pub use Records.*
pub mod Resolved
pub mod Once
pub mod Repository
use myc.Common.{
  ℕ, Bool, true, false, not, ◌&&◌, ◌||◌, Option, none, some, List, ◌∷◌, Result, ok, err, ◌>>=◌,
  ok_or, ltb, ◌==◌, is_some, is_some_of, any, bytes_eq, update_first, if◌then◌else◌,
}
use myc.Governance.Rates.{GovernanceError, RatePolicy, RateClass, RateRow, Subject}
use myc.Governance.Audit.{
  Digest, AuditKind, AuditOutcome, AuditReason, AuditEvidence, RequestRow, is_connect,
}
use myc.Governance.Audit.Attempts.{GovernedAttempt, govern_rate_attempt}
use myc.Connection.Types.{
  ConnectionError, binding, storage, Decision, decision_eq, DecisionReason, Status, status_eq,
  ChallengeState, ChallengeRow, DecisionRow, Store, ConnectionRecord, Context,
}
use myc.Connection.Rows.{read_connection, read_decision, has_id}
use myc.Connection.Statements.{update_row, update_decision, record_event, map_governance_error}
use myc.Connection.Admit.{read_request_binding, insert_decision}
use myc.Connection.Expire.{is_past}

-- INSERT_CHALLENGE_SQL under the keys and the CHECKs of `connection_auth_challenges`, with the
-- connection that it refers to.
unfoldable pub insert_challenge : ChallengeRow → Store → Result ConnectionError Store
insert_challenge row store =
    if any (λ r. r.id == row.id || r.operation_id == row.operation_id) store.challenges
      || not (any (has_id row.connection_id) store.connections)
      || not (challenges_check row)
    then err storage
    else ok (record store { challenges = row ∷ store.challenges })

abbrev pub new_challenge : Context → ChallengeRequest → ChallengeRow
new_challenge context request = record {
  id = context.derive_challenge_id request.operation_id request.connection_id request.nonce;
  nonce = request.nonce;
  connection_id = request.connection_id;
  operation_id = request.operation_id;
  policy_generation = request.policy_generation;
  url = request.url;
  state = ChallengeState.pending;
  issued_at = request.issued_at;
  expires_at = request.expires_at;
  resolved_at = none;
}

abbrev pub challenged_decision : Context → ChallengeRequest → ConnectionRecord → DecisionRow
challenged_decision context request connection = record {
  operation_id = request.operation_id;
  connection_id = some request.connection_id;
  decision = Decision.challenged;
  reason = DecisionReason.authorization_challenge_required;
  policy_generation = request.policy_generation;
  requested_digest = context.permission_digest connection.requested_permissions;
  challenge_id =
      some (context.derive_challenge_id request.operation_id request.connection_id request.nonce);
  decided_at = request.issued_at;
}

-- The rows of a new challenge, once the rate window has let it pass.
unfoldable pub issue_governed :
    Context
    → ChallengeRequest
    → ConnectionRecord
    → AuditEvidence
    → Option (List RateRow)
    → Store
    → Result ConnectionError Issued
issue_governed context request connection evidence rate_rows store =
    insert_challenge (new_challenge context request) store >>= λ s1.
    insert_decision context (challenged_decision context request connection) s1 >>= λ s2.
    read_challenge context s2 request.operation_id >>= λ found. ok_or found binding >>= λ made.
    record_event context evidence AuditKind.challenge_creation AuditOutcome.succeeded
      AuditReason.challenge_required s2
    >>= λ s3. ok (record { answer = created made; rate_rows = rate_rows; store = s3 })

abbrev pub issue_attempted :
    Context
    → ChallengeRequest
    → ConnectionRecord
    → AuditEvidence
    → Store
    → Result GovernanceError GovernedAttempt
    → Result ConnectionError Issued
issue_attempted context request connection evidence store (err e) = err (map_governance_error e)
issue_attempted context request connection evidence store (ok a) =
    if a.admitted
    then issue_governed context request connection evidence a.rows (record store { log = a.log })
    else ok
        (record { answer = rate_limited; rate_rows = a.rows; store = record store { log = a.log } })

unfoldable pub issue_new :
    Context
    → ChallengeRequest
    → RatePolicy
    → List Subject
    → RequestRow
    → ConnectionRecord
    → Store
    → Result ConnectionError Issued
issue_new context request rate_policy subjects bound connection store =
    let evidence : AuditEvidence = record {
      correlation = bound.correlation;
      occurred_at = request.issued_at;
      operation_id = some request.operation_id;
    } in
    if ltb request.issued_at bound.received_at
      || ltb request.issued_at connection.updated_at
      || not (status_eq connection.status Status.active)
      || is_past connection.authorized_until request.issued_at
    then err binding
    else (read_decision store request.operation_id >>= λ decided.
        if is_some decided
        then err binding
        else issue_attempted context request connection evidence store (
            govern_rate_attempt context.derive_audit_id context.requests rate_policy
              RateClass.challenge_creation subjects evidence AuditKind.challenge_creation
              store.log))

-- The challenge of the request was issued before.
abbrev pub issue_found :
    Context
    → ChallengeRequest
    → RatePolicy
    → List Subject
    → RequestRow
    → ConnectionRecord
    → Store
    → Option ChallengeRecord
    → Result ConnectionError Issued
issue_found context request rate_policy subjects bound connection store none =
    issue_new context request rate_policy subjects bound connection store
issue_found context request rate_policy subjects bound connection store (some existing) =
    if not (existing.connection_id == request.connection_id)
      || not (existing.policy_generation == request.policy_generation)
      || not (bytes_eq existing.url request.url)
      || not (existing.issued_at == request.issued_at)
      || not (existing.expires_at == request.expires_at)
    then err binding
    else ok (record { answer = exact_replay existing; rate_rows = none; store = store })

-- `issue_challenge`.
unfoldable pub issue_challenge :
    Context → ChallengeRequest → RatePolicy → List Subject → Store → Result ConnectionError Issued
issue_challenge context request rate_policy subjects store =
    read_request_binding context request.operation_id >>= λ bound.
    if is_connect bound.method
    then err binding
    else (read_connection context store request.connection_id >>= λ connection.
        if not (connection.client_public_key == bound.client_public_key)
          || not (connection.policy_generation == request.policy_generation)
        then err binding
        else (read_challenge context store request.operation_id >>= λ found.
            issue_found context request rate_policy subjects bound connection store found))

-- RESOLVE_CHALLENGE_SQL, with `require_one`.
unfoldable pub resolve_challenge :
    Digest → Digest → Digest → ℕ → ChallengeState → ℕ → Store → Result ConnectionError Store
resolve_challenge id connection_id operation_id generation state now store =
    update_first (λ r. r.id == id) storage
      (update_row
        (λ r.
          r.connection_id == connection_id
          && r.operation_id == operation_id
          && r.policy_generation == generation
          && challenge_eq r.state ChallengeState.pending)
        challenge_legal (λ r. record r { state = state; resolved_at = some now }))
      store.challenges
    >>= λ rows. ok (record store { challenges = rows })

-- UPDATE_CHALLENGE_DECISION_SQL, with `require_one`.
unfoldable pub update_challenge_decision :
    Digest
    → Digest
    → Digest
    → ℕ
    → Decision
    → DecisionReason
    → ℕ
    → Store
    → Result ConnectionError Store
update_challenge_decision operation_id connection_id id generation decision reason now =
    update_decision operation_id
      (λ r.
        is_some_of r.connection_id connection_id
        && is_some_of r.challenge_id id
        && r.policy_generation == generation
        && decision_eq r.decision Decision.challenged)
      (λ r. record r { decision = decision; reason = reason; decided_at = now })

abbrev pub is_expired_at : ChallengeRecord → ConnectionRecord → ℕ → Bool
is_expired_at before connection now =
    ltb before.expires_at now
    || not (status_eq connection.status Status.active)
    || is_past connection.authorized_until now

-- The new state of a challenge, its decision and reason, and the event's outcome and reason.
abbrev pub resolved_state : Bool → ChallengeState
resolved_state true = ChallengeState.expired
resolved_state false = ChallengeState.authorized

abbrev pub resolved_decision : Bool → Decision
resolved_decision true = Decision.denied
resolved_decision false = Decision.allowed

abbrev pub resolved_reason : Bool → DecisionReason
resolved_reason true = DecisionReason.authorization_challenge_expired
resolved_reason false = DecisionReason.authorization_challenge_authorized

abbrev pub resolved_outcome : Bool → AuditOutcome
resolved_outcome true = AuditOutcome.rejected
resolved_outcome false = AuditOutcome.succeeded

abbrev pub resolved_event : Bool → AuditReason
resolved_event true = AuditReason.challenge_expired
resolved_event false = AuditReason.challenge_authorized

-- The resolution of a pending challenge, once the rate window has let it pass.
unfoldable pub authorize_governed :
    Context
    → ChallengeRecord
    → Bool
    → ℕ
    → AuditEvidence
    → Option (List RateRow)
    → Store
    → Result ConnectionError Authorization
authorize_governed context before expired now evidence rate_rows store =
    resolve_challenge before.id before.connection_id before.operation_id before.policy_generation
      (resolved_state expired) now store
    >>= λ s1.
        update_challenge_decision before.operation_id before.connection_id before.id
          before.policy_generation (resolved_decision expired) (resolved_reason expired) now s1
        >>= λ s2. read_challenge context s2 before.operation_id >>= λ found.
            ok_or found binding >>= λ after.
            record_event context evidence AuditKind.challenge_authorization
              (resolved_outcome expired) (resolved_event expired) s2
            >>= λ s3. ok (record { result = resolved after; rate_rows = rate_rows; store = s3 })

abbrev pub authorize_attempted :
    Context
    → ChallengeRecord
    → Bool
    → ℕ
    → AuditEvidence
    → Store
    → Result GovernanceError GovernedAttempt
    → Result ConnectionError Authorization
authorize_attempted context before expired now evidence store (err e) = err (map_governance_error e)
authorize_attempted context before expired now evidence store (ok a) =
    if a.admitted
    then authorize_governed context before expired now evidence a.rows
        (record store { log = a.log })
    else ok (record {
      result = authorization_limited;
      rate_rows = a.rows;
      store = record store { log = a.log };
    })

unfoldable pub authorize_bound :
    Context
    → ChallengeRecord
    → ℕ
    → RatePolicy
    → List Subject
    → RequestRow
    → ConnectionRecord
    → Store
    → Result ConnectionError Authorization
authorize_bound context before now rate_policy subjects bound connection store =
    let evidence : AuditEvidence = record {
      correlation = bound.correlation;
      occurred_at = now;
      operation_id = some before.operation_id;
    } in
    if is_connect bound.method
      || not (bound.client_public_key == connection.client_public_key)
      || not (connection.policy_generation == before.policy_generation)
      || ltb now before.issued_at
    then err binding
    else if not (challenge_eq before.state ChallengeState.pending)
    then ok (record { result = replay before; rate_rows = none; store = store })
    else authorize_attempted context before (is_expired_at before connection now) now evidence store
        (govern_rate_attempt context.derive_audit_id context.requests rate_policy
          RateClass.challenge_authorization subjects evidence AuditKind.challenge_authorization
          store.log)

-- `authorize_challenge`.
unfoldable pub authorize_challenge :
    Context
    → Digest
    → Digest
    → Digest
    → ℕ
    → ℕ
    → RatePolicy
    → List Subject
    → Store
    → Result ConnectionError Authorization
authorize_challenge context id connection_id operation_id generation now rate_policy subjects
      store =
    read_challenge context store operation_id >>= λ found. ok_or found binding >>= λ before.
    if not (before.id == id)
      || not (before.connection_id == connection_id)
      || not (before.operation_id == operation_id)
      || not (before.policy_generation == generation)
    then err binding
    else (read_request_binding context operation_id >>= λ bound.
        read_connection context store connection_id >>= λ connection.
        authorize_bound context before now rate_policy subjects bound connection store)
