-- ===== src/Governance/Audit/Attempts/Refused.antt =====
-- A refused attempt stays refused.
use myc.Common.{
  ℕ, ◌≡◌, inl, inr, refl, subst, Bool, true, false, Option, none, some, List, ok, err, Result,
  >>=-eq-ok, arith, Bool-cases, both_true, length, not, ◌||◌, ◌==◌, ltb,
}
use myc.Governance.Rates.{
  GovernanceError, binding, RateClass, RatePolicy, RateRow, Subject, govern_subjects,
}
use myc.Governance.Audit.{
  Digest, AuditKind, AuditOutcome, AuditReason, RequestRow, AuditLog, AuditRecord, AuditEvidence,
  record_audit, read_audit_by_id, is_same_audit,
}
use myc.Governance.Audit.Sequences.{Sequenced}
use myc.Governance.Audit.Replay.{attests, record_audit-read}
use myc.Governance.Audit.Attempts.{
  GovernedAttempt, class_eq, is_refusal, record_refusal, govern_new, govern_rate_attempt,
}

is_same_audit-refusal :
    (r : AuditRecord) (evidence : AuditEvidence) (kind : AuditKind)
    → is_same_audit r evidence kind AuditOutcome.rejected AuditReason.rate_limited ≡ true
    → is_refusal r evidence kind ≡ true
unfolding is_same_audit is_refusal
is_same_audit-refusal r evidence kind h = (both_true _ _ h).0

is_refusal_timeless :
    (r : AuditRecord) (evidence : AuditEvidence) (kind : AuditKind) (time : ℕ)
    → is_refusal r evidence kind ≡ true
    → is_refusal r (record evidence { occurred_at = time }) kind ≡ true
unfolding is_refusal
is_refusal_timeless r evidence kind time h = h

-- A refused attempt leaves its refusal in the log.
govern_new-refused :
    (derive : Digest → AuditKind → Digest) (requests : List RequestRow) (policy : RatePolicy)
    (subjects : List Subject) (evidence : AuditEvidence) (kind : AuditKind) (log : AuditLog)
    (existing : Option AuditRecord) (out : GovernedAttempt)
    → read_audit_by_id requests log (derive evidence.correlation kind) ≡ ok existing
    → govern_new derive requests policy subjects evidence kind log existing ≡ ok out
    → out.admitted ≡ false
    → Sequenced log
    → attests requests evidence.operation_id evidence.correlation kind ≡ true
    → (r : AuditRecord) × (read_audit_by_id requests out.log (derive evidence.correlation kind)
        ≡ ok (some r))
      × (is_refusal r evidence kind ≡ true)
unfolding govern_new record_refusal
govern_new-refused derive requests policy subjects evidence kind log (some r) out e h f v a =
    let same : log ≡ out.log = ground arith in
    (
      r,
      subst (λ l. read_audit_by_id requests l (derive evidence.correlation kind) ≡ ok (some r)) same
          e,
      ground arith,
    )
govern_new-refused derive requests policy subjects evidence kind log none out e h f v a =
    let (answer, _, g) = >>=-eq-ok (govern_subjects policy evidence.occurred_at subjects) _ h in
    refused answer g
  where
    refused :
        (answer : Bool × List RateRow)
        → record_refusal derive requests evidence kind log answer ≡ ok out
        → (r : AuditRecord) × (read_audit_by_id requests out.log (derive evidence.correlation kind)
            ≡ ok (some r))
          × (is_refusal r evidence kind ≡ true)
    refused (true, rows) g = let t : true ≡ out.admitted = ground arith in cc
    refused (false, rows) g =
        let (r, e1, e2) =
          >>=-eq-ok
            (record_audit derive requests evidence kind AuditOutcome.rejected
              AuditReason.rate_limited log)
            _ g in
        let (read, same) =
          record_audit-read derive requests evidence kind AuditOutcome.rejected
            AuditReason.rate_limited log r.1 r.0 v a e1 in
        let l : r.1 ≡ out.log = ground arith in
        (
          r.0,
          subst
              (λ l. read_audit_by_id requests l (derive evidence.correlation kind) ≡ ok (some r.0))
              l read,
          is_same_audit-refusal r.0 evidence kind same,
        )

-- After a refused attempt, the same attempt is refused again, at any time and whatever has become of
-- the rows of its subjects, as many as before; it counts nothing, and the log stays. The log is in the order of its sequences,
-- and the attempt's kind belongs to a request exactly if the evidence names one that is stored under
-- the same correlation.
pub govern_rate_attempt-refused :
    (derive : Digest → AuditKind → Digest) (requests : List RequestRow) (policy : RatePolicy)
    (expected : RateClass) (subjects later : List Subject) (evidence : AuditEvidence)
    (kind : AuditKind) (time : ℕ) (log : AuditLog) (out : GovernedAttempt)
    → Sequenced log
    → attests requests evidence.operation_id evidence.correlation kind ≡ true
    → govern_rate_attempt derive requests policy expected subjects evidence kind log ≡ ok out
    → out.admitted ≡ false
    → length later ≡ length subjects
    → govern_rate_attempt derive requests policy expected later
        (record evidence { occurred_at = time })
        kind
        out.log
      ≡ ok (record { admitted = false; rows = none; log = out.log })
unfolding govern_rate_attempt govern_new
govern_rate_attempt-refused derive requests policy expected subjects later evidence kind time log
      out v a h f l =
    elim (Bool-cases
      (not (class_eq policy.class expected) || length subjects == 0 || ltb 2 (length subjects))) [
        | inl bad ↦
            let failure : Result GovernanceError GovernedAttempt = err binding in
            let e : failure ≡ ok out = rw bad at h in cc
        | inr good ↦
            let (existing, e, g) =
              >>=-eq-ok (read_audit_by_id requests log (derive evidence.correlation kind)) _
                (rw good at h) in
            let (r, found, refusal) =
              govern_new-refused derive requests policy subjects evidence kind log existing out e g
                f v a in
            let again : is_refusal r (record evidence { occurred_at = time }) kind ≡ true =
              is_refusal_timeless r evidence kind time refusal in
            rw l (rw good (rw found (rw again refl)))
      ]
