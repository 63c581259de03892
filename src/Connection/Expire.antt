-- ===== src/Connection/Expire.antt =====
-- The end of an active connection in src/state_connection.rs: `expire_connection`, and the operator's
-- `apply_admin_connection_mutation`, which also approves, rejects and revokes.
use myc.Common.{
  ℕ, Bool, false, not, ◌&&◌, ◌||◌, Option, none, some, List, [], ◌∷◌, Result, ok, err, ◌>>=◌, ltb,
  ◌==◌, is_some_of, if◌then◌else◌,
}
use myc.Governance.Audit.{Digest, AuditKind, AuditOutcome, AuditReason}
use myc.Connection.Permissions.{Permission}
use myc.Connection.Types.{
  ConnectionError, Decision, decision_eq, Status, status_eq, DecisionRow, Store, ConnectionRecord,
  OperatorDecision, approve, deny, Context,
}
use myc.Connection.Rows.{read_connection}
use myc.Connection.Statements.{update_connection, record_event}
use myc.Connection.Decide.{decide_connection, record_operator_audit}

abbrev pub is_past : Option ℕ → ℕ → Bool
is_past none now = false
is_past (some until) now = ltb until now

-- EXPIRE_CONNECTION_SQL.
unfoldable pub expire_row : Digest → ℕ → ℕ → Store → Result ConnectionError Store
expire_row id generation now =
    update_connection id
      (λ row.
        status_eq row.status Status.active
        && row.policy_generation == generation
        && is_past row.authorized_until now)
      (λ row. record row { status = Status.expired; updated_at = now; authorized_until = none })

-- REVOKE_CONNECTION_SQL.
unfoldable pub revoke_row : Digest → ℕ → ℕ → Store → Result ConnectionError Store
revoke_row id generation now =
    update_connection id
      (λ row. status_eq row.status Status.active && row.policy_generation == generation)
      (λ row. record row { status = Status.expired; updated_at = now; authorized_until = none })

-- `record_connection_expiry_audit`.
unfoldable pub record_connection_expiry_audit :
    Context → Digest → ℕ → Store → Result ConnectionError Store
record_connection_expiry_audit context correlation occurred_at =
    record_event context
      (record { correlation = correlation; occurred_at = occurred_at; operation_id = none })
      AuditKind.connection_expiry AuditOutcome.succeeded AuditReason.connection_expired

-- The connection expired before: its event is recorded again.
unfoldable pub expire_again :
    Context → Digest → ConnectionRecord → Store → Result ConnectionError (ConnectionRecord × Store)
expire_again context correlation before store =
    record_connection_expiry_audit context correlation before.updated_at store >>= λ s.
    ok (before, s)

unfoldable pub expire_active :
    Context → Digest → ℕ → ℕ → Digest → Store → Result ConnectionError (ConnectionRecord × Store)
expire_active context id generation now correlation store =
    expire_row id generation now store >>= λ s1. read_connection context s1 id >>= λ after.
    record_connection_expiry_audit context correlation now s1 >>= λ s2. ok (after, s2)

-- The connection has the generation.
unfoldable pub expire_known :
    Context
    → Digest
    → ℕ
    → ℕ
    → Digest
    → ConnectionRecord
    → Store
    → Result ConnectionError (ConnectionRecord × Store)
expire_known context id generation now correlation before store =
    if status_eq before.status Status.expired
    then expire_again context correlation before store
    else if not (status_eq before.status Status.active) || not (is_past before.authorized_until now)
    then err ConnectionError.binding
    else expire_active context id generation now correlation store

unfoldable pub expire_found :
    Context
    → Digest
    → ℕ
    → ℕ
    → Digest
    → ConnectionRecord
    → Store
    → Result ConnectionError (ConnectionRecord × Store)
expire_found context id generation now correlation before store =
    if not (before.policy_generation == generation)
    then err ConnectionError.binding
    else expire_known context id generation now correlation before store

-- `expire_connection`.
unfoldable pub expire_connection :
    Context → Digest → ℕ → ℕ → Digest → Store → Result ConnectionError (ConnectionRecord × Store)
expire_connection context id generation now correlation store =
    read_connection context store id >>= λ before.
    expire_found context id generation now correlation before store

-- `AdminJournalOperationError`, as far as it is met here.
pub data AdminError : Type 0 where
  binding conflict storage : AdminError

abbrev pub admin_error : ConnectionError → AdminError
admin_error ConnectionError.binding = AdminError.binding
admin_error ConnectionError.storage = AdminError.storage

-- `?` on a `ConnectionOperationError`.
abbrev pub as_admin {ℓ} : {A : Type ℓ} → Result ConnectionError A → Result AdminError A
as_admin (err e) = err (admin_error e)
as_admin (ok a) = ok a

-- `MycAdminConnectionAction`.
pub data AdminAction : Type 0 where
  approve_with : List Permission → Option ℕ → AdminAction
  reject revoke : AdminAction

unfoldable pub pending_operations : Digest → ℕ → List DecisionRow → List Digest
pending_operations id generation [] = []
pending_operations id generation (d ∷ ds) =
    let rest = pending_operations id generation ds in
    if is_some_of d.connection_id id
      && decision_eq d.decision Decision.pending_approval
      && d.policy_generation == generation
    then d.operation_id ∷ rest
    else rest

abbrev pub only_one : List Digest → Result ConnectionError Digest
only_one (operation_id ∷ []) = ok operation_id
only_one _ = err ConnectionError.binding

-- `read_pending_decision_operation`.
unfoldable pub read_pending_decision_operation : Store → Digest → ℕ → Result ConnectionError Digest
read_pending_decision_operation store id generation =
    only_one (pending_operations id generation store.decisions)

unfoldable pub revoke_active :
    Context → Digest → ℕ → ℕ → Digest → Store → Result ConnectionError (ConnectionRecord × Store)
revoke_active context id generation now correlation store =
    revoke_row id generation now store >>= λ s1. read_connection context s1 id >>= λ after.
    record_operator_audit context correlation now AuditOutcome.succeeded
      AuditReason.connection_expired s1
    >>= λ s2. ok (after, s2)

-- The arm `Revoke`.
unfoldable pub revoke_found :
    Context
    → Digest
    → ℕ
    → ℕ
    → Digest
    → ConnectionRecord
    → Store
    → Result AdminError (ConnectionRecord × Store)
revoke_found context id generation now correlation before store =
    if status_eq before.status Status.expired
    then ok (before, store)
    else if not (status_eq before.status Status.active) || ltb now before.updated_at
    then err AdminError.conflict
    else as_admin (revoke_active context id generation now correlation store)

unfoldable pub admin_decide :
    Context
    → Digest
    → ℕ
    → ℕ
    → Digest
    → OperatorDecision
    → Store
    → Result ConnectionError (ConnectionRecord × Store)
admin_decide context id generation now correlation decision store =
    read_pending_decision_operation store id generation >>= λ operation_id.
    decide_connection context operation_id id generation now correlation decision store

abbrev pub admin_action :
    Context
    → Digest
    → ℕ
    → ℕ
    → Digest
    → AdminAction
    → ConnectionRecord
    → Store
    → Result AdminError (ConnectionRecord × Store)
admin_action context id generation now correlation (approve_with permissions until) before store =
    as_admin (admin_decide context id generation now correlation (approve permissions until) store)
admin_action context id generation now correlation reject before store =
    as_admin (admin_decide context id generation now correlation deny store)
admin_action context id generation now correlation revoke before store =
    revoke_found context id generation now correlation before store

unfoldable pub admin_found :
    Context
    → Digest
    → ℕ
    → ℕ
    → Digest
    → AdminAction
    → ConnectionRecord
    → Store
    → Result AdminError (ConnectionRecord × ConnectionRecord × Store)
admin_found context id generation now correlation action before store =
    if not (before.policy_generation == generation)
    then err AdminError.conflict
    else (admin_action context id generation now correlation action before store >>= λ r.
        ok (before, r.0, r.1))

-- `apply_admin_connection_mutation`.
unfoldable pub apply_admin_connection_mutation :
    Context
    → Digest
    → ℕ
    → ℕ
    → Digest
    → AdminAction
    → Store
    → Result AdminError (ConnectionRecord × ConnectionRecord × Store)
apply_admin_connection_mutation context id generation now correlation action store =
    as_admin (read_connection context store id) >>= λ before.
    admin_found context id generation now correlation action before store
