-- ===== src/Connection/Decide.antt =====
-- `decide_connection` of src/state_connection.rs: an operator approves or denies a pending connection.
pub mod Refusals
use myc.Common.{
  ℕ, Bool, not, ◌&&◌, ◌||◌, Option, none, List, Result, ok, err, ◌>>=◌, ok_or, ltb, leb, ◌==◌,
  is_some_and, is_some_of, if◌then◌else◌,
}
use myc.Governance.Audit.{Digest, AuditKind, AuditOutcome, AuditReason, optional_eq}
use myc.Connection.Permissions.{Permission, is_subset_of, permissions_eq}
use myc.Connection.Types.{
  ConnectionError, binding, Decision, DecisionReason, decision_eq, Status, status_eq, Store,
  ConnectionRecord, PersistedDecision, OperatorDecision, approve, deny, Context, operator_approved,
  operator_denied,
}
use myc.Connection.Rows.{read_connection, read_decision}
use myc.Connection.Statements.{update_connection, update_decision, grant_permissions, record_event}

-- APPROVE_CONNECTION_SQL.
unfoldable pub approve_connection : Digest → ℕ → ℕ → Option ℕ → Store → Result ConnectionError Store
approve_connection id generation now until =
    update_connection id
      (λ row. status_eq row.status Status.pending && row.policy_generation == generation)
      (λ row. record row { status = Status.active; updated_at = now; authorized_until = until })

-- DENY_CONNECTION_SQL.
unfoldable pub deny_connection : Digest → ℕ → ℕ → Store → Result ConnectionError Store
deny_connection id generation now =
    update_connection id
      (λ row. status_eq row.status Status.pending && row.policy_generation == generation)
      (λ row. record row { status = Status.denied; updated_at = now; authorized_until = none })

-- `update_approval_decision`.
unfoldable pub update_approval_decision :
    Digest → Digest → ℕ → ℕ → Decision → DecisionReason → Store → Result ConnectionError Store
update_approval_decision operation_id id generation now decision reason =
    update_decision operation_id
      (λ row.
        is_some_of row.connection_id id
        && decision_eq row.decision Decision.pending_approval
        && row.policy_generation == generation)
      (λ row. record row { decision = decision; reason = reason; decided_at = now })

-- `record_operator_audit`.
unfoldable pub record_operator_audit :
    Context → Digest → ℕ → AuditOutcome → AuditReason → Store → Result ConnectionError Store
record_operator_audit context correlation occurred_at outcome reason =
    record_event context
      (record { correlation = correlation; occurred_at = occurred_at; operation_id = none })
      AuditKind.connection_operator_decision outcome reason

-- What the connection and its decision must be for a new answer.
abbrev pub is_open : ConnectionRecord → PersistedDecision → ℕ → Bool
is_open connection existing now =
    status_eq connection.status Status.pending
    && decision_eq existing.decision Decision.pending_approval
    && not (ltb now connection.updated_at)

-- An answer that was given before: its event is recorded again.
unfoldable pub replay_answer :
    Context
    → Digest
    → AuditOutcome
    → AuditReason
    → ConnectionRecord
    → Store
    → Result ConnectionError (ConnectionRecord × Store)
replay_answer context correlation outcome reason connection store =
    record_operator_audit context correlation connection.updated_at outcome reason store >>= λ s.
    ok (connection, s)

-- The end of a new answer.
unfoldable pub read_answer :
    Context
    → Digest
    → ℕ
    → Digest
    → AuditOutcome
    → AuditReason
    → Store
    → Result ConnectionError (ConnectionRecord × Store)
read_answer context id now correlation outcome reason store =
    read_connection context store id >>= λ record'.
    record_operator_audit context correlation now outcome reason store >>= λ s. ok (record', s)

-- An approval that was given before.
unfoldable pub approve_replay :
    Context
    → Digest
    → List Permission
    → Option ℕ
    → ConnectionRecord
    → Store
    → Result ConnectionError (ConnectionRecord × Store)
approve_replay context correlation granted until connection store =
    if permissions_eq connection.granted_permissions granted
      && optional_eq connection.authorized_until until
    then replay_answer context correlation AuditOutcome.succeeded AuditReason.operator_approved
        connection store
    else err binding

-- A new approval.
unfoldable pub approve_pending :
    Context
    → Digest
    → Digest
    → ℕ
    → ℕ
    → Digest
    → List Permission
    → Option ℕ
    → Store
    → Result ConnectionError (ConnectionRecord × Store)
approve_pending context operation_id id generation now correlation granted until store =
    grant_permissions id granted store >>= λ s1.
    approve_connection id generation now until s1 >>= λ s2.
    update_approval_decision operation_id id generation now Decision.allowed operator_approved s2
    >>= λ s3.
        read_answer context id now correlation AuditOutcome.succeeded AuditReason.operator_approved
          s3

-- The arm `Approve`, after its first test.
unfoldable pub approve_within :
    Context
    → Digest
    → Digest
    → ℕ
    → ℕ
    → Digest
    → List Permission
    → Option ℕ
    → PersistedDecision
    → ConnectionRecord
    → Store
    → Result ConnectionError (ConnectionRecord × Store)
approve_within context operation_id id generation now correlation granted until existing connection
      store =
    if status_eq connection.status Status.active && decision_eq existing.decision Decision.allowed
    then approve_replay context correlation granted until connection store
    else if not (is_open connection existing now)
    then err binding
    else approve_pending context operation_id id generation now correlation granted until store

-- The arm `Approve`.
unfoldable pub decide_approve :
    Context
    → Digest
    → Digest
    → ℕ
    → ℕ
    → Digest
    → List Permission
    → Option ℕ
    → PersistedDecision
    → ConnectionRecord
    → Store
    → Result ConnectionError (ConnectionRecord × Store)
decide_approve context operation_id id generation now correlation granted until existing connection
      store =
    if not (is_subset_of granted connection.requested_permissions)
      || is_some_and until (λ u. leb u now)
    then err binding
    else approve_within context operation_id id generation now correlation granted until existing
        connection store

-- The arm `Deny`.
unfoldable pub decide_deny :
    Context
    → Digest
    → Digest
    → ℕ
    → ℕ
    → Digest
    → PersistedDecision
    → ConnectionRecord
    → Store
    → Result ConnectionError (ConnectionRecord × Store)
decide_deny context operation_id id generation now correlation existing connection store =
    if status_eq connection.status Status.denied && decision_eq existing.decision Decision.denied
    then replay_answer context correlation AuditOutcome.rejected AuditReason.operator_denied
        connection store
    else if not (is_open connection existing now)
    then err binding
    else (deny_connection id generation now store >>= λ s1.
        update_approval_decision operation_id id generation now Decision.denied operator_denied s1
        >>= λ s2.
            read_answer context id now correlation AuditOutcome.rejected AuditReason.operator_denied
              s2)

abbrev pub decide_answer :
    Context
    → Digest
    → Digest
    → ℕ
    → ℕ
    → Digest
    → OperatorDecision
    → PersistedDecision
    → ConnectionRecord
    → Store
    → Result ConnectionError (ConnectionRecord × Store)
decide_answer context operation_id id generation now correlation (approve granted until) existing
      connection store =
    decide_approve context operation_id id generation now correlation granted until existing
      connection store
decide_answer context operation_id id generation now correlation deny existing connection store =
    decide_deny context operation_id id generation now correlation existing connection store

-- The decision on the connection that was read.
unfoldable pub decide_found :
    Context
    → Digest
    → Digest
    → ℕ
    → ℕ
    → Digest
    → OperatorDecision
    → PersistedDecision
    → Store
    → Result ConnectionError (ConnectionRecord × Store)
decide_found context operation_id id generation now correlation decision existing store =
    read_connection context store id >>= λ connection.
    if not (connection.policy_generation == generation)
    then err binding
    else decide_answer context operation_id id generation now correlation decision existing
        connection store

-- `decide_connection`.
unfoldable pub decide_connection :
    Context
    → Digest
    → Digest
    → ℕ
    → ℕ
    → Digest
    → OperatorDecision
    → Store
    → Result ConnectionError (ConnectionRecord × Store)
decide_connection context operation_id id generation now correlation decision store =
    read_decision store operation_id >>= λ found. ok_or found binding >>= λ existing.
    if not (is_some_of existing.connection_id id) || not (existing.policy_generation == generation)
    then err binding
    else decide_found context operation_id id generation now correlation decision existing store
