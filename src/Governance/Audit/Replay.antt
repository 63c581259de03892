-- ===== src/Governance/Audit/Replay.antt =====
-- Recording an event of the audit log again.
use myc.Common.{
  ℕ, ◌+◌, ◌≤◌, ◌≡◌, refl, sym, subst, Bool, true, inl, inr, Option, none, some, List, [], ◌∷◌, ok,
  err, arith, find, i64_max, if◌then◌else◌, not, in_range, ◌==◌, ◌&&◌, is_some_and, both_true,
  equal_sound,
}
use myc.Governance.Rates.{binding}
use myc.Governance.Audit.{
  Digest, AuditKind, AuditOutcome, AuditReason, RequestRow, AuditRow, RequestAuditRow, AuditLog,
  AuditRecord, AuditEvidence, insert_request_audit, append_audit, record_after, record_audit,
  read_audit_by_id, is_same_audit, new_row, new_record, kind_eq, outcome_eq, audit_reason_eq,
  optional_eq, request_bound, find_request, decode_audit, outcome_index, reason_index,
}
use myc.Governance.Audit.Sequences.{
  Sequenced, RequestsDescending, RequestsDescending-mono, append_audit-eq-ok, record_audit-cases,
}

-- A kind that belongs to a request comes with one that is stored under the same correlation, and
-- another kind with none.
abbrev pub attests : List RequestRow → Option Digest → Digest → AuditKind → Bool
attests requests none correlation kind = not (request_bound kind)
attests requests (some id) correlation kind =
    request_bound kind && is_some_and (find_request requests id) (λ q. q.correlation == correlation)

none_at :
    (n : ℕ) (rows : List RequestAuditRow)
    → RequestsDescending n rows
    → find (λ r. r.sequence == n) rows ≡ none
unfolding find
none_at n [] v = refl
none_at n (r ∷ rs) v =
    ground (arith, none_at n rs (RequestsDescending-mono r.sequence n rs (omega arith) v.2))

optional_eq_refl : (a : Option Digest) → optional_eq a a ≡ true
optional_eq_refl none = refl
optional_eq_refl (some a) = ground arith

-- The new row decodes to the new record.
decode-new :
    (requests : List RequestRow) (id : Digest) (evidence : AuditEvidence) (kind : AuditKind)
    (outcome : AuditOutcome) (reason : AuditReason) (n : ℕ) (operation : Option Digest)
    (rows out : List RequestAuditRow)
    → attests requests operation evidence.correlation kind ≡ true
    → evidence.operation_id ≡ operation
    → 1 ≤ n
    → n ≤ i64_max
    → in_range 1 i64_max evidence.occurred_at ≡ true
    → RequestsDescending n rows
    → insert_request_audit requests operation kind n rows ≡ ok out
    → decode_audit requests
        (new_row id evidence kind outcome reason n)
        (find (λ r. r.sequence == n) out)
      ≡ ok (new_record evidence kind outcome reason n)
unfolding insert_request_audit decode_audit find
decode-new requests id evidence kind outcome reason n none rows out a eo p q t v h =
    let e : find (λ r. r.sequence == n) out ≡ none =
      subst (λ o. find (λ (r : RequestAuditRow). r.sequence == n) o ≡ none) (ground arith)
        (none_at n rows v) in
    rw e (ground arith)
decode-new requests id evidence kind outcome reason n (some op) rows out a eo p q t v h =
    let e : record { operation_id = op; kind = kind; sequence = n } ∷ rows ≡ out = ground arith in
    let f : find (λ r. r.sequence == n) out
        ≡ some (record { operation_id = op; kind = kind; sequence = n }) =
      subst
        (λ o.
          find (λ (r : RequestAuditRow). r.sequence == n) o
          ≡ some (record { operation_id = op; kind = kind; sequence = n }))
        e (ground arith) in
    rw f (ground arith)

append_audit-read :
    (requests : List RequestRow) (id : Digest) (evidence : AuditEvidence) (kind : AuditKind)
    (outcome : AuditOutcome) (reason : AuditReason) (log log' : AuditLog) (r : AuditRecord)
    → Sequenced log
    → attests requests evidence.operation_id evidence.correlation kind ≡ true
    → append_audit requests id evidence kind outcome reason log ≡ ok (r, log')
    → (read_audit_by_id requests log' id ≡ ok (some r))
      × (is_same_audit r evidence kind outcome reason ≡ true)
unfolding read_audit_by_id find is_same_audit
append_audit-read requests id evidence kind outcome reason log log' r v a h =
    let (_, bound, rows, more, e, _, time) =
      append_audit-eq-ok requests id evidence kind outcome reason log log' r h in
    let n = log.next_sequence + 1 in
    let decoded =
      decode-new requests id evidence kind outcome reason n evidence.operation_id log.request_rows
        log'.request_rows a refl (omega arith) bound time v.1 more in
    let first : find (λ o. o.audit_id == id) log'.rows
        ≡ some (new_row id evidence kind outcome reason n) =
      subst
        (λ o.
          find (λ (x : AuditRow). x.audit_id == id) o
          ≡ some (new_row id evidence kind outcome reason n))
        rows (ground arith) in
    (
      rw first (rw decoded (rw (sym e) refl)),
      subst (λ x. is_same_audit x evidence kind outcome reason ≡ true) (sym e)
          (rw (optional_eq_refl evidence.operation_id) (ground arith)),
    )

-- A recorded event is read back.
pub record_audit-read :
    (derive : Digest → AuditKind → Digest) (requests : List RequestRow) (evidence : AuditEvidence)
    (kind : AuditKind) (outcome : AuditOutcome) (reason : AuditReason) (log log' : AuditLog)
    (r : AuditRecord)
    → Sequenced log
    → attests requests evidence.operation_id evidence.correlation kind ≡ true
    → record_audit derive requests evidence kind outcome reason log ≡ ok (r, log')
    → (read_audit_by_id requests log' (derive evidence.correlation kind) ≡ ok (some r))
      × (is_same_audit r evidence kind outcome reason ≡ true)
record_audit-read derive requests evidence kind outcome reason log log' r v a h =
    elim (record_audit-cases derive requests evidence kind outcome reason log log' r h) [
      | inl (unchanged, found, same) ↦ (
        subst (λ l. read_audit_by_id requests l (derive evidence.correlation kind) ≡ ok (some r))
            unchanged found,
        same,
      )
      | inr appended ↦
          append_audit-read requests (derive evidence.correlation kind) evidence kind outcome reason
            log log' r v a appended
    ]

is_same_audit-fields :
    (r : AuditRecord) (evidence : AuditEvidence) (kind : AuditKind) (outcome : AuditOutcome)
    (reason : AuditReason)
    → is_same_audit r evidence kind outcome reason ≡ true
    → ((r.correlation_id == evidence.correlation) ≡ true)
      × (optional_eq r.operation_id evidence.operation_id ≡ true)
      × (kind_eq r.kind kind ≡ true)
      × (outcome_index r.outcome ≡ outcome_index outcome)
      × (reason_index r.reason ≡ reason_index reason)
      × (r.occurred_at ≡ evidence.occurred_at)
unfolding is_same_audit
is_same_audit-fields r evidence kind outcome reason h =
    let (h1, it) = both_true _ _ h in
    let (h2, ir) = both_true _ _ h1 in
    let (h3, io) = both_true _ _ h2 in
    let (h4, k) = both_true _ _ h3 in
    let (c, o) = both_true _ _ h4 in
    (c, o, k, equal_sound _ _ io, equal_sound _ _ ir, equal_sound _ _ it)

record_after-same :
    (requests : List RequestRow) (id : Digest) (evidence : AuditEvidence) (kind : AuditKind)
    (outcome outcome' : AuditOutcome) (reason reason' : AuditReason) (time : ℕ) (log : AuditLog)
    (r : AuditRecord)
    → is_same_audit r evidence kind outcome reason ≡ true
    → record_after requests id
        (record evidence { occurred_at = time })
        kind
        outcome'
        reason'
        log
        (some r)
      ≡ (if outcome_eq outcome outcome'
            && audit_reason_eq reason reason'
            && evidence.occurred_at == time
          then ok (r, log)
          else err binding)
unfolding record_after is_same_audit
record_after-same requests id evidence kind outcome outcome' reason reason' time log r h =
    let (c, o, k, io, ir, it) = is_same_audit-fields r evidence kind outcome reason h in
    rw c (rw o (rw k (rw io (rw ir (rw it refl)))))

-- Once an event is recorded, recording one of its correlation and kind again changes nothing: with the
-- same outcome, reason and time it returns the same record, and with others it is refused. The log is
-- in the order of its sequences, and the event's kind belongs to a request exactly if the evidence
-- names one that is stored under the same correlation.
pub record_audit-again :
    (derive : Digest → AuditKind → Digest) (requests : List RequestRow) (evidence : AuditEvidence)
    (kind : AuditKind) (outcome outcome' : AuditOutcome) (reason reason' : AuditReason) (time : ℕ)
    (log log' : AuditLog) (r : AuditRecord)
    → Sequenced log
    → attests requests evidence.operation_id evidence.correlation kind ≡ true
    → record_audit derive requests evidence kind outcome reason log ≡ ok (r, log')
    → record_audit derive requests
        (record evidence { occurred_at = time })
        kind
        outcome'
        reason'
        log'
      ≡ (if outcome_eq outcome outcome'
            && audit_reason_eq reason reason'
            && evidence.occurred_at == time
          then ok (r, log')
          else err binding)
unfolding record_audit
record_audit-again derive requests evidence kind outcome outcome' reason reason' time log log' r v a
      h =
    let (found, same) =
      record_audit-read derive requests evidence kind outcome reason log log' r v a h in
    rw found (
      record_after-same requests (derive evidence.correlation kind) evidence kind outcome outcome'
        reason reason' time log' r same)
