-- ===== src/Connection/Effects/Answers.antt =====
-- The effect of an operator's answer, `decide_connection`.
use myc.Common.{
  ℕ, ◌≡◌, refl, ap, ◌∙◌, Bool, true, false, not, ◌&&◌, ◌||◌, Option, List, ok, err, Result,
  >>=-eq-ok, arith, leb, ◌==◌, inl, inr, Bool-cases, is_some_and, is_some_of, ok_or, if◌then◌else◌,
}
use myc.Governance.Audit.{Digest, AuditOutcome, AuditReason}
use myc.Connection.Permissions.{Permission, is_subset_of}
use myc.Connection.Types.{
  binding, Status, status_eq, decision_eq, Decision, Store, ConnectionRecord, PersistedDecision,
  Context, OperatorDecision, approve, deny, operator_approved, operator_denied,
}
use myc.Connection.Rows.{read_connection, read_decision}
use myc.Connection.Statements.{grant_permissions}
use myc.Connection.Decide.{
  approve_connection, deny_connection, update_approval_decision, record_operator_audit, is_open,
  replay_answer, read_answer, decide_approve, approve_within, approve_pending, approve_replay,
  decide_found, decide_deny, decide_answer, decide_connection,
}
use myc.Connection.Moves.{update_decision-connections, record_event-connections}
use myc.Connection.Effects.{
  Effect, keeps, moves, Effect-later, deny_connection-Rewritten, approval-Rewritten,
}

-- A conditional that succeeds though one of its arms fails has taken the other.
pub otherwise {ε α} :
    {E : Type ε} {A : Type α} (test : Bool) (e : E) (rest : Result E A) {a : A}
    → (if test then err e else rest) ≡ ok a
    → (test ≡ false) × (rest ≡ ok a)
otherwise true e rest h = cc
otherwise false e rest h = (refl, h)

pub record_operator_audit-connections :
    (context : Context) (correlation : Digest) (time : ℕ) (outcome : AuditOutcome)
    (reason : AuditReason) (s s' : Store)
    → record_operator_audit context correlation time outcome reason s ≡ ok s'
    → s.connections ≡ s'.connections
unfolding record_operator_audit
record_operator_audit-connections context correlation time outcome reason s s' h =
    record_event-connections context _ _ outcome reason s s' h

replay_answer-connections :
    (context : Context) (correlation : Digest) (outcome : AuditOutcome) (reason : AuditReason)
    (c r : ConnectionRecord) (s s' : Store)
    → replay_answer context correlation outcome reason c s ≡ ok (r, s')
    → s.connections ≡ s'.connections
unfolding replay_answer
replay_answer-connections context correlation outcome reason c r s s' h =
    let (s1, e, e') =
      >>=-eq-ok (record_operator_audit context correlation c.updated_at outcome reason s) _ h in
    let same : s1 ≡ s' = ground arith in
    record_operator_audit-connections context correlation c.updated_at outcome reason s s1 e
    ∙ ap (λ (t : Store). t.connections) same

read_answer-connections :
    (context : Context) (id : Digest) (now : ℕ) (correlation : Digest) (outcome : AuditOutcome)
    (reason : AuditReason) (r : ConnectionRecord) (s s' : Store)
    → read_answer context id now correlation outcome reason s ≡ ok (r, s')
    → s.connections ≡ s'.connections
unfolding read_answer
read_answer-connections context id now correlation outcome reason r s s' h =
    let (c, _, h1) = >>=-eq-ok (read_connection context s id) _ h in
    let (s1, e, e') =
      >>=-eq-ok (record_operator_audit context correlation now outcome reason s) _ h1 in
    let same : s1 ≡ s' = ground arith in
    record_operator_audit-connections context correlation now outcome reason s s1 e
    ∙ ap (λ (t : Store). t.connections) same

update_approval_decision-connections :
    (operation_id id : Digest) (generation now : ℕ) (decision : Decision) (reason : _)
    (s s' : Store)
    → update_approval_decision operation_id id generation now decision reason s ≡ ok s'
    → s.connections ≡ s'.connections
unfolding update_approval_decision
update_approval_decision-connections operation_id id generation now decision reason s s' h =
    (update_decision-connections operation_id _ _ s s' h).0

decide_deny-Effect :
    (context : Context) (operation_id id : Digest) (generation now : ℕ) (correlation : Digest)
    (existing : PersistedDecision) (c r : ConnectionRecord) (s s' : Store)
    → decide_deny context operation_id id generation now correlation existing c s ≡ ok (r, s')
    → Effect s s'
unfolding decide_deny
decide_deny-Effect context operation_id id generation now correlation existing c r s s' h =
    elim (Bool-cases
      (status_eq c.status Status.denied && decision_eq existing.decision Decision.denied)) [
        | inl again ↦
            keeps (replay_answer-connections context correlation _ _ c r s s' (rw again at h))
        | inr fresh ↦
            let (_, h1) = otherwise (not (is_open c existing now)) binding _ (rw fresh at h) in
            let (s1, e1, h2) = >>=-eq-ok (deny_connection id generation now s) _ h1 in
            let (s2, e2, h3) =
              >>=-eq-ok
                (update_approval_decision operation_id id generation now Decision.denied
                  operator_denied s1)
                _ h2 in
            let (x, y, rewritten, move) = deny_connection-Rewritten id generation now s s1 e1 in
            Effect-later s s1 s'
              (update_approval_decision-connections operation_id id generation now _ _ s1 s2 e2
                ∙ read_answer-connections context id now correlation _ _ r s2 s' h3)
              (moves id x y rewritten move)
      ]

approve_pending-Effect :
    (context : Context) (operation_id id : Digest) (generation now : ℕ) (correlation : Digest)
    (granted : List Permission) (until : Option ℕ) (c r : ConnectionRecord) (s s' : Store)
    → read_connection context s id ≡ ok c
    → is_subset_of granted c.requested_permissions ≡ true
    → approve_pending context operation_id id generation now correlation granted until s
      ≡ ok (r, s')
    → Effect s s'
unfolding approve_pending
approve_pending-Effect context operation_id id generation now correlation granted until c r s s'
      read sub h =
    let (s1, e1, h2) = >>=-eq-ok (grant_permissions id granted s) _ h in
    let (s2, e2, h3) = >>=-eq-ok (approve_connection id generation now until s1) _ h2 in
    let (s3, e3, h4) =
      >>=-eq-ok
        (update_approval_decision operation_id id generation now Decision.allowed operator_approved
          s2)
        _ h3 in
    let (x, y, rewritten, move) =
      approval-Rewritten context id generation now granted until c s s1 s2 read sub e1 e2 in
    Effect-later s s2 s'
      (update_approval_decision-connections operation_id id generation now _ _ s2 s3 e3
        ∙ read_answer-connections context id now correlation _ _ r s3 s' h4)
      (moves id x y rewritten move)

approve_replay-Effect :
    (context : Context) (correlation : Digest) (granted : List Permission) (until : Option ℕ)
    (c r : ConnectionRecord) (s s' : Store)
    → approve_replay context correlation granted until c s ≡ ok (r, s')
    → Effect s s'
unfolding approve_replay
approve_replay-Effect context correlation granted until c r s s' h = keeps (
    replay_answer-connections context correlation AuditOutcome.succeeded
      AuditReason.operator_approved c r s s' (ground arith))

approve_within-Effect :
    (context : Context) (operation_id id : Digest) (generation now : ℕ) (correlation : Digest)
    (granted : List Permission) (until : Option ℕ) (existing : PersistedDecision)
    (c r : ConnectionRecord) (s s' : Store)
    → read_connection context s id ≡ ok c
    → is_subset_of granted c.requested_permissions ≡ true
    → approve_within context operation_id id generation now correlation granted until existing c s
      ≡ ok (r, s')
    → Effect s s'
unfolding approve_within
approve_within-Effect context operation_id id generation now correlation granted until existing c r
      s s' read sub h =
    elim (Bool-cases
      (status_eq c.status Status.active && decision_eq existing.decision Decision.allowed)) [
        | inl again ↦
            approve_replay-Effect context correlation granted until c r s s' (rw again at h)
        | inr fresh ↦
            approve_pending-Effect context operation_id id generation now correlation granted until
              c r s s' read sub
              (otherwise (not (is_open c existing now)) binding _ (rw fresh at h)).1
      ]

decide_approve-Effect :
    (context : Context) (operation_id id : Digest) (generation now : ℕ) (correlation : Digest)
    (granted : List Permission) (until : Option ℕ) (existing : PersistedDecision)
    (c r : ConnectionRecord) (s s' : Store)
    → read_connection context s id ≡ ok c
    → decide_approve context operation_id id generation now correlation granted until existing c s
      ≡ ok (r, s')
    → Effect s s'
unfolding decide_approve
decide_approve-Effect context operation_id id generation now correlation granted until existing c r
      s s' read h =
    let (within, h0) =
      otherwise
        (not (is_subset_of granted c.requested_permissions) || is_some_and until (λ u. leb u now))
        binding
        (approve_within context operation_id id generation now correlation granted until existing c
          s)
        h in
    approve_within-Effect context operation_id id generation now correlation granted until existing
      c r s s' read (ground arith) h0

-- `decide_connection` keeps every connection, or moves one.
pub decide_connection-Effect :
    (context : Context) (operation_id id : Digest) (generation now : ℕ) (correlation : Digest)
    (decision : OperatorDecision) (r : ConnectionRecord) (s s' : Store)
    → decide_connection context operation_id id generation now correlation decision s ≡ ok (r, s')
    → Effect s s'
unfolding decide_connection decide_found
decide_connection-Effect context operation_id id generation now correlation decision r s s' h =
    let (found, _, h1) = >>=-eq-ok (read_decision s operation_id) _ h in
    let (existing, _, h2) = >>=-eq-ok (ok_or found binding) _ h1 in
    let (_, h3) =
      otherwise
        (not (is_some_of existing.connection_id id)
          || not (existing.policy_generation == generation))
        binding
        (decide_found context operation_id id generation now correlation decision existing s) h2 in
    let (c, read, h4) = >>=-eq-ok (read_connection context s id) _ h3 in
    let (_, h5) =
      otherwise (not (c.policy_generation == generation)) binding
        (decide_answer context operation_id id generation now correlation decision existing c s)
        h4 in
    answered decision c existing read h5
  where
    answered :
        (decision : OperatorDecision) (c : ConnectionRecord) (existing : PersistedDecision)
        → read_connection context s id ≡ ok c
        → decide_answer context operation_id id generation now correlation decision existing c s
          ≡ ok (r, s')
        → Effect s s'
    answered (approve granted until) c existing read h =
        decide_approve-Effect context operation_id id generation now correlation granted until
          existing c r s s' read h
    answered deny c existing read h =
        decide_deny-Effect context operation_id id generation now correlation existing c r s s' h
