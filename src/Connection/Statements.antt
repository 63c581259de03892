-- ===== src/Connection/Statements.antt =====
-- The statements that the transactions of src/state_connection.rs share. Each names its row by the
-- primary key, and an error leaves the store as it was.
use myc.Common.{
  ℕ, Bool, not, ◌&&◌, ◌||◌, List, [], ◌∷◌, Result, ok, err, ◌>>=◌, in_range, any, bytes_eq, length,
  update_first, if◌then◌else◌,
}
use myc.Governance.Rates.{GovernanceError}
use myc.Governance.Audit.{
  Digest, AuditKind, AuditOutcome, AuditReason, AuditEvidence, AuditRecord, AuditLog, record_audit,
}
use myc.Connection.Permissions.{Permission, permission_code}
use myc.Connection.Types.{
  ConnectionError, binding, storage, ConnectionRow, DecisionRow, Store, Context,
}
use myc.Connection.Rows.{
  has_id, has_operation, connections_check, connections_guard_update, decisions_check,
  decisions_guard_update,
}

-- The row that a statement found: it must match, and the trigger and the CHECKs must admit its change.
unfoldable pub update_row {ℓ} :
    {A : Type ℓ} → (A → Bool) → (A → A → Bool) → (A → A) → A → Result ConnectionError A
update_row matches legal set row =
    if matches row && legal row (set row) then ok (set row) else err storage

abbrev pub connection_legal : ConnectionRow → ConnectionRow → Bool
connection_legal old new = connections_guard_update old new && connections_check new

abbrev pub decision_legal : DecisionRow → DecisionRow → Bool
decision_legal old new = decisions_guard_update old new && decisions_check new

abbrev pub with_connections : Store → List ConnectionRow → Store
with_connections store rows = record store { connections = rows }

abbrev pub with_decisions : Store → List DecisionRow → Store
with_decisions store rows = record store { decisions = rows }

-- `UPDATE connections … WHERE connection_id = ? AND …`, with `require_one`.
unfoldable pub update_connection :
    Digest
    → (ConnectionRow → Bool)
    → (ConnectionRow → ConnectionRow)
    → Store
    → Result ConnectionError Store
update_connection id matches set store =
    update_first (has_id id) storage (update_row matches connection_legal set) store.connections
    >>= λ rows. ok (with_connections store rows)

-- `UPDATE nip46_request_decisions … WHERE operation_id = ? AND …`, with `require_one`.
unfoldable pub update_decision :
    Digest
    → (DecisionRow → Bool)
    → (DecisionRow → DecisionRow)
    → Store
    → Result ConnectionError Store
update_decision operation_id matches set store =
    update_first (has_operation operation_id) storage (update_row matches decision_legal set)
      store.decisions
    >>= λ rows. ok (with_decisions store rows)

-- INSERT_PERMISSION_SQL under the key and the CHECK of `connection_permissions`.
unfoldable pub insert_code : List ℕ → List (List ℕ) → Result ConnectionError (List (List ℕ))
insert_code code codes =
    if any (λ c. bytes_eq c code) codes || not (in_range 1 64 (length code))
    then err storage
    else ok (code ∷ codes)

-- `insert_permissions` into one scope.
unfoldable pub insert_permissions :
    List Permission → List (List ℕ) → Result ConnectionError (List (List ℕ))
insert_permissions [] codes = ok codes
insert_permissions (p ∷ ps) codes =
    insert_code (permission_code p) codes >>= λ more. insert_permissions ps more

abbrev pub grant : List Permission → ConnectionRow → Result ConnectionError ConnectionRow
grant permissions row =
    insert_permissions permissions row.granted >>= λ codes. ok (record row { granted = codes })

-- `insert_permissions(…, "granted", …)`.
unfoldable pub grant_permissions : Digest → List Permission → Store → Result ConnectionError Store
grant_permissions id permissions store =
    update_first (has_id id) storage (grant permissions) store.connections >>= λ rows.
    ok (with_connections store rows)

-- `map_governance_error`.
abbrev pub map_governance_error : GovernanceError → ConnectionError
map_governance_error GovernanceError.binding = binding
map_governance_error GovernanceError.storage = storage

abbrev pub audited :
    Store → Result GovernanceError (AuditRecord × AuditLog) → Result ConnectionError Store
audited store (err e) = err (map_governance_error e)
audited store (ok r) = ok (record store { log = r.1 })

-- `record_audit(…).map_err(map_governance_error)`.
unfoldable pub record_event :
    Context
    → AuditEvidence
    → AuditKind
    → AuditOutcome
    → AuditReason
    → Store
    → Result ConnectionError Store
record_event context evidence kind outcome reason store =
    audited store
      (record_audit context.derive_audit_id context.requests evidence kind outcome reason store.log)
