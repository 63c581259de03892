-- ===== src/Connection/Moves.antt =====
-- What the statements of src/state_connection.rs do to the rows of the connections.
use myc.Common.{
  ℕ, ◌≤◌, ◌≡◌, refl, sym, subst, ap, ◌∙◌, Bool, true, Option, none, some, List, ok, err, Result,
  >>=-eq-ok, arith, find, update_first, Rewrites, update_first-Rewrites,
}
use myc.Governance.Audit.{
  Digest, AuditKind, AuditOutcome, AuditReason, AuditEvidence, AuditRecord, AuditLog,
}
use myc.Governance.Rates.{GovernanceError}
use myc.Connection.Permissions.{Permission, is_subset_of}
use myc.Connection.Types.{
  storage, Status, status_eq, ConnectionRow, Store, ConnectionRecord, Context, DecisionRow,
}
use myc.Connection.Rows.{
  has_id, has_operation, read_connection, parse_connection, read_permissions,
  connections_guard_update, connection_record, parse_found,
}
use myc.Connection.Statements.{
  update_row, connection_legal, decision_legal, update_connection, insert_permissions, grant,
  grant_permissions, update_decision, record_event, audited, with_connections, with_decisions,
}

-- How a transaction may change the row of a connection.
pub data Moves (x : ConnectionRow) : ConnectionRow → Type 0 where
  approves :
      (granted requested : List Permission) (codes : List (List ℕ)) (until : Option ℕ) (now : ℕ)
      → x.status ≡ Status.pending
      → read_permissions x.requested ≡ ok requested
      → is_subset_of granted requested ≡ true
      → insert_permissions granted x.granted ≡ ok codes
      → x.updated_at ≤ now
      → Moves x (record x {
        status = Status.active;
        updated_at = now;
        authorized_until = until;
        granted = codes;
      })
  denies :
      (now : ℕ)
      → x.status ≡ Status.pending
      → x.updated_at ≤ now
      → Moves x (record x { status = Status.denied; updated_at = now; authorized_until = none })
  ends :
      (now : ℕ)
      → x.status ≡ Status.active
      → x.updated_at ≤ now
      → Moves x (record x { status = Status.expired; updated_at = now; authorized_until = none })

-- The rows of two stores: one row is another, or none is.
abbrev pub Rewritten : Digest → Store → Store → ConnectionRow → ConnectionRow → Type 0
Rewritten id s s' x y = Rewrites (λ (r : ConnectionRow). r.id) id x y s.connections s'.connections

pub status_sound : (a b : Status) → status_eq a b ≡ true → a ≡ b
status_sound Status.pending Status.pending h = refl
status_sound Status.pending Status.active h = ground arith
status_sound Status.pending Status.denied h = ground arith
status_sound Status.pending Status.expired h = ground arith
status_sound Status.active Status.pending h = ground arith
status_sound Status.active Status.active h = refl
status_sound Status.active Status.denied h = ground arith
status_sound Status.active Status.expired h = ground arith
status_sound Status.denied Status.pending h = ground arith
status_sound Status.denied Status.active h = ground arith
status_sound Status.denied Status.denied h = refl
status_sound Status.denied Status.expired h = ground arith
status_sound Status.expired Status.pending h = ground arith
status_sound Status.expired Status.active h = ground arith
status_sound Status.expired Status.denied h = ground arith
status_sound Status.expired Status.expired h = refl

update_row-eq-ok :
    (matches : ConnectionRow → Bool) (set : ConnectionRow → ConnectionRow) (x y : ConnectionRow)
    → update_row matches connection_legal set x ≡ ok y
    → (matches x ≡ true) × (connections_guard_update x y ≡ true) × (set x ≡ y)
unfolding update_row
update_row-eq-ok matches set x y h = ground arith

-- An UPDATE of `connections`.
pub update_connection-Rewritten :
    (id : Digest) (matches : ConnectionRow → Bool) (set : ConnectionRow → ConnectionRow)
    (s s' : Store)
    → ((r : ConnectionRow) → (set r).id ≡ r.id)
    → update_connection id matches set s ≡ ok s'
    → (x : ConnectionRow) × (matches x ≡ true)
      × (connections_guard_update x (set x) ≡ true)
      × (s'.log ≡ s.log)
      × Rewritten id s s' x (set x)
unfolding update_connection
update_connection-Rewritten id matches set s s' keep h =
    let (rows, e, e') =
      >>=-eq-ok
        (update_first (has_id id) storage (update_row matches connection_legal set) s.connections) _
        h in
    let (x, y, stepped, _, r) =
      update_first-Rewrites (λ (r : ConnectionRow). r.id) id storage
        (update_row matches connection_legal set) s.connections rows
        (λ x y g.
          ap (λ (r : ConnectionRow). r.id) (sym (update_row-eq-ok matches set x y g).2) ∙ keep x)
        e in
    let (matched, guarded, same) = update_row-eq-ok matches set x y stepped in
    let written : with_connections s rows ≡ s' = ground arith in
    (
      x,
      matched,
      subst (λ z. connections_guard_update x z ≡ true) (sym same) guarded,
      sym (ap (λ (t : Store). t.log) written),
      subst (λ z. Rewritten id s s' x z) (sym same) (subst (λ t. Rewritten id s t x y) written r),
    )

granted_id :
    (granted : List Permission) (x y : ConnectionRow) → grant granted x ≡ ok y → y.id ≡ x.id
granted_id granted x y h =
    let (codes, _, same) = >>=-eq-ok (insert_permissions granted x.granted) _ h in ground arith

-- `insert_permissions` into the scope "granted".
pub grant_permissions-Rewritten :
    (id : Digest) (granted : List Permission) (s s' : Store)
    → grant_permissions id granted s ≡ ok s'
    → (x : ConnectionRow) × (codes : List (List ℕ)) × (insert_permissions granted x.granted
        ≡ ok codes)
      × (s'.log ≡ s.log)
      × Rewritten id s s' x (record x { granted = codes })
unfolding grant_permissions
grant_permissions-Rewritten id granted s s' h =
    let (rows, e, e') =
      >>=-eq-ok (update_first (has_id id) storage (grant granted) s.connections) _ h in
    let (x, y, stepped, _, r) =
      update_first-Rewrites (λ (r : ConnectionRow). r.id) id storage (grant granted) s.connections
        rows (λ x y g. granted_id granted x y g) e in
    let (codes, inserted, same) = >>=-eq-ok (insert_permissions granted x.granted) _ stepped in
    let written : with_connections s rows ≡ s' = ground arith in
    let out : record x { granted = codes } ≡ y = ground arith in
    (
      x,
      codes,
      inserted,
      sym (ap (λ (t : Store). t.log) written),
      subst (λ z. Rewritten id s s' x z) (sym out) (subst (λ t. Rewritten id s t x y) written r),
    )

-- An UPDATE of the decisions leaves the connections.
pub update_decision-connections :
    (operation_id : Digest) (matches : DecisionRow → Bool) (set : DecisionRow → DecisionRow)
    (s s' : Store)
    → update_decision operation_id matches set s ≡ ok s'
    → (s.connections ≡ s'.connections) × (s.log ≡ s'.log)
unfolding update_decision
update_decision-connections operation_id matches set s s' h =
    let (rows, _, e) =
      >>=-eq-ok
        (update_first (has_operation operation_id) storage (update_row matches decision_legal set)
          s.decisions)
        _ h in
    let written : with_decisions s rows ≡ s' = ground arith in
    (ap (λ (t : Store). t.connections) written, ap (λ (t : Store). t.log) written)

audited-connections :
    (s s' : Store) (r : Result GovernanceError (AuditRecord × AuditLog))
    → audited s r ≡ ok s'
    → s.connections ≡ s'.connections
audited-connections s s' (err e) h = ground arith
audited-connections s s' (ok (a, log)) h =
    let written : record s { log = log } ≡ s' = ground arith in
    ap (λ (t : Store). t.connections) written

-- An event leaves the connections.
pub record_event-connections :
    (context : Context) (evidence : AuditEvidence) (kind : AuditKind) (outcome : AuditOutcome)
    (reason : AuditReason) (s s' : Store)
    → record_event context evidence kind outcome reason s ≡ ok s'
    → s.connections ≡ s'.connections
unfolding record_event
record_event-connections context evidence kind outcome reason s s' h = audited-connections s s' _ h

parse_connection-eq-ok :
    (context : Context) (x : ConnectionRow) (c : ConnectionRecord)
    → parse_connection context x ≡ ok c
    → (x.status ≡ c.status) × (read_permissions x.requested ≡ ok c.requested_permissions)
unfolding parse_connection
parse_connection-eq-ok context x c h =
    let (requested, e1, h1) = >>=-eq-ok (read_permissions x.requested) _ h in
    let (granted, e2, h2) = >>=-eq-ok (read_permissions x.granted) _ h1 in
    let same : connection_record x requested granted ≡ c = ground arith in
    (
      ap (λ (r : ConnectionRecord). r.status) same,
      e1 ∙ ap (λ (r : ConnectionRecord). ok r.requested_permissions) same,
    )

found_row :
    (context : Context) (found : Option ConnectionRow) (c : ConnectionRecord)
    → parse_found context found ≡ ok c
    → (x : ConnectionRow) × (found ≡ some x) × (parse_connection context x ≡ ok c)
found_row context none c h = ground arith
found_row context (some x) c h = (x, refl, h)

-- What is read of a connection is its row's.
pub read_connection-eq-ok :
    (context : Context) (s : Store) (id : Digest) (c : ConnectionRecord)
    → read_connection context s id ≡ ok c
    → (x : ConnectionRow) × (find (has_id id) s.connections ≡ some x)
      × (x.status ≡ c.status)
      × (read_permissions x.requested ≡ ok c.requested_permissions)
unfolding read_connection
read_connection-eq-ok context s id c h =
    let (x, e, g) = found_row context (find (has_id id) s.connections) c h in
    let (status, requested) = parse_connection-eq-ok context x c g in (x, e, status, requested)
