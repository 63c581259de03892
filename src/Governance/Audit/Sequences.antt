-- ===== src/Governance/Audit/Sequences.antt =====
-- The sequence of the audit log.
use myc.Common.{
  ℕ, ◌+◌, ◌≤◌, ◌<◌, ◌≡◌, sym, subst, ap, true, false, ◌⊎◌, inl, inr, Option, none, some, List, [],
  ◌∷◌, ok, >>=-eq-ok, arith, any, i64_max, in_range, ◌==◌, ◌&&◌, ◌||◌,
}
use myc.Governance.Audit.{
  Digest, AuditKind, AuditOutcome, AuditReason, RequestRow, AuditRow, RequestAuditRow, AuditLog,
  AuditRecord, AuditEvidence, insert_audit, insert_request_audit, append_audit, record_after,
  record_audit, read_audit_by_id, is_same_audit, new_row, new_record, kind_eq,
}

-- The rows' sequences fall strictly, from below `n`, and stay above 0.
abbrev pub Descending : ℕ → List AuditRow → Type 0
Descending n [] = Unit
Descending n (r ∷ rs) = (1 ≤ r.sequence) × (r.sequence < n) × Descending r.sequence rs

abbrev pub RequestsDescending : ℕ → List RequestAuditRow → Type 0
RequestsDescending n [] = Unit
RequestsDescending n (r ∷ rs) =
    (1 ≤ r.sequence) × (r.sequence < n) × RequestsDescending r.sequence rs

-- No row is later than the log's sequence, and no two have one sequence.
abbrev pub Sequenced : AuditLog → Type 0
Sequenced log =
    Descending (log.next_sequence + 1) log.rows
    × RequestsDescending (log.next_sequence + 1) log.request_rows
    × (log.next_sequence ≤ i64_max)

pub RequestsDescending-mono :
    (m n : ℕ) (rs : List RequestAuditRow)
    → m ≤ n
    → RequestsDescending m rs
    → RequestsDescending n rs
RequestsDescending-mono m n [] h v = tt
RequestsDescending-mono m n (r ∷ rs) h v = (v.0, omega arith, v.2)

insert_request_audit-descending :
    (requests : List RequestRow) (operation : Option Digest) (kind : AuditKind) (n : ℕ)
    (rows out : List RequestAuditRow)
    → insert_request_audit requests operation kind n rows ≡ ok out
    → 1 ≤ n
    → RequestsDescending n rows
    → RequestsDescending (n + 1) out
unfolding insert_request_audit
insert_request_audit-descending requests none kind n rows out h p v =
    let e : rows ≡ out = ground arith in
    subst (RequestsDescending (n + 1)) e (RequestsDescending-mono n (n + 1) rows (omega arith) v)
insert_request_audit-descending requests (some id) kind n rows out h p v =
    let e : record { operation_id = id; kind = kind; sequence = n } ∷ rows ≡ out = ground arith in
    subst (RequestsDescending (n + 1)) e (p, omega arith, v)

-- The parts of a new record.
pub append_audit-eq-ok :
    (requests : List RequestRow) (audit_id : Digest) (evidence : AuditEvidence) (kind : AuditKind)
    (outcome : AuditOutcome) (reason : AuditReason) (log log' : AuditLog) (r : AuditRecord)
    → append_audit requests audit_id evidence kind outcome reason log ≡ ok (r, log')
    → (log'.next_sequence ≡ log.next_sequence + 1)
      × (log.next_sequence + 1 ≤ i64_max)
      × (new_row audit_id evidence kind outcome reason (log.next_sequence + 1) ∷ log.rows
          ≡ log'.rows)
      × (insert_request_audit requests evidence.operation_id kind
            (log.next_sequence + 1)
            log.request_rows
          ≡ ok log'.request_rows)
      × (r ≡ new_record evidence kind outcome reason (log.next_sequence + 1))
      × (any
            (λ o.
              o.sequence == log.next_sequence + 1
              || o.audit_id == audit_id
              || (o.correlation == evidence.correlation && kind_eq o.kind kind))
            log.rows
          ≡ false)
      × (in_range 1 i64_max evidence.occurred_at ≡ true)
unfolding append_audit insert_audit
append_audit-eq-ok requests audit_id evidence kind outcome reason log log' r h = ground arith

append_audit-Sequenced :
    (requests : List RequestRow) (audit_id : Digest) (evidence : AuditEvidence) (kind : AuditKind)
    (outcome : AuditOutcome) (reason : AuditReason) (log log' : AuditLog) (r : AuditRecord)
    → append_audit requests audit_id evidence kind outcome reason log ≡ ok (r, log')
    → Sequenced log
    → Sequenced log'
append_audit-Sequenced requests audit_id evidence kind outcome reason log log' r h v =
    let (e, bound, rows, more, _, _, _) =
      append_audit-eq-ok requests audit_id evidence kind outcome reason log log' r h in
    let n = log.next_sequence + 1 in
    let first : Descending (n + 1) log'.rows =
      subst (Descending (n + 1)) rows (omega arith, omega arith, v.0) in
    let second : RequestsDescending (n + 1) log'.request_rows =
      insert_request_audit-descending requests evidence.operation_id kind n log.request_rows
        log'.request_rows more (omega arith) v.1 in
    (
      subst (λ m. Descending (m + 1) log'.rows) (sym e) first,
      subst (λ m. RequestsDescending (m + 1) log'.request_rows) (sym e) second,
      omega arith,
    )

-- `record_audit` appends, or changes nothing.
pub record_audit-cases :
    (derive : Digest → AuditKind → Digest) (requests : List RequestRow) (evidence : AuditEvidence)
    (kind : AuditKind) (outcome : AuditOutcome) (reason : AuditReason) (log log' : AuditLog)
    (r : AuditRecord)
    → record_audit derive requests evidence kind outcome reason log ≡ ok (r, log')
    → ((log ≡ log')
        × (read_audit_by_id requests log (derive evidence.correlation kind) ≡ ok (some r))
        × (is_same_audit r evidence kind outcome reason ≡ true))
      ⊎ (append_audit requests (derive evidence.correlation kind) evidence kind outcome reason log
          ≡ ok (r, log'))
unfolding record_audit record_after
record_audit-cases derive requests evidence kind outcome reason log log' r h =
    let (found, e, e') =
      >>=-eq-ok (read_audit_by_id requests log (derive evidence.correlation kind)) _ h in
    after found e e'
  where
    after :
        (found : Option AuditRecord)
        → read_audit_by_id requests log (derive evidence.correlation kind) ≡ ok found
        → record_after requests
            (derive evidence.correlation kind)
            evidence
            kind
            outcome
            reason
            log
            found
          ≡ ok (r, log')
        → ((log ≡ log')
            × (read_audit_by_id requests log (derive evidence.correlation kind) ≡ ok (some r))
            × (is_same_audit r evidence kind outcome reason ≡ true))
          ⊎ (append_audit requests
                (derive evidence.correlation kind)
                evidence
                kind
                outcome
                reason
                log
              ≡ ok (r, log'))
    after none e g = inr g
    after (some a) e g = inl (ground arith)

-- `record_audit` keeps the audit log's rows, and those of its requests, in strictly falling order of
-- their sequences, with none above the log's sequence, which grows by at most one and stays within
-- 63 bits. Every earlier
-- row stays, below at most one new row.
pub record_audit-Sequenced :
    (derive : Digest → AuditKind → Digest) (requests : List RequestRow) (evidence : AuditEvidence)
    (kind : AuditKind) (outcome : AuditOutcome) (reason : AuditReason) (log log' : AuditLog)
    (r : AuditRecord)
    → Sequenced log
    → record_audit derive requests evidence kind outcome reason log ≡ ok (r, log')
    → Sequenced log'
      × (log.next_sequence ≤ log'.next_sequence)
      × (log'.next_sequence ≤ log.next_sequence + 1)
      × ((log.rows ≡ log'.rows) ⊎ ((row : AuditRow) × (row ∷ log.rows ≡ log'.rows)))
record_audit-Sequenced derive requests evidence kind outcome reason log log' r v h =
    elim (record_audit-cases derive requests evidence kind outcome reason log log' r h) [
      | inl (same, _, _) ↦
          (subst Sequenced same v, ground arith, ground arith, inl (ap (λ l. l.rows) same))
      | inr appended ↦
          let id = derive evidence.correlation kind in
          let (e, _, rows, _, _, _, _) =
            append_audit-eq-ok requests id evidence kind outcome reason log log' r appended in
          (
            append_audit-Sequenced requests id evidence kind outcome reason log log' r appended v,
            omega arith,
            omega arith,
            inr (_, rows),
          )
    ]
