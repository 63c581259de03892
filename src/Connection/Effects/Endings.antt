-- ===== src/Connection/Effects/Endings.antt =====
-- The effect of an expiry, and of the operator's administration of a connection.
use myc.Common.{
  ℕ, ◌≡◌, refl, ap, ◌∙◌, not, ◌||◌, ok, err, Result, >>=-eq-ok, arith, ltb, ◌==◌, inl, inr,
  Bool-cases, both_true,
}
use myc.Governance.Audit.{Digest, AuditOutcome, AuditReason}
use myc.Connection.Types.{
  ConnectionError, Status, status_eq, Store, ConnectionRecord, Context, OperatorDecision,
}
use myc.Connection.Rows.{read_connection}
use myc.Connection.Decide.{decide_connection, record_operator_audit}
use myc.Connection.Expire.{
  expire_row, revoke_row, is_past, record_connection_expiry_audit, expire_found, expire_connection,
  AdminError, as_admin, AdminAction, approve_with, reject, revoke, revoke_found, admin_decide,
  admin_action, admin_found, apply_admin_connection_mutation, read_pending_decision_operation,
  expire_known, expire_again, expire_active, revoke_active,
}
use myc.Connection.Moves.{ends, status_sound, update_connection-Rewritten, record_event-connections}
use myc.Connection.Effects.{Effect, keeps, moves, Effect-later, guard_time}
use myc.Connection.Effects.Answers.{
  otherwise, record_operator_audit-connections, decide_connection-Effect,
}

expire_row-Effect :
    (id : Digest) (generation now : ℕ) (s s' : Store)
    → expire_row id generation now s ≡ ok s'
    → Effect s s'
unfolding expire_row
expire_row-Effect id generation now s s' h =
    let (x, matched, guarded, _, r) = update_connection-Rewritten id _ _ s s' (λ r. refl) h in
    let status =
      status_sound x.status Status.active
        (both_true (status_eq x.status Status.active) (x.policy_generation == generation)
          (both_true _ (is_past x.authorized_until now) matched).0).0 in
    moves id x _ r (ends now status (guard_time x _ guarded))

revoke_row-Effect :
    (id : Digest) (generation now : ℕ) (s s' : Store)
    → revoke_row id generation now s ≡ ok s'
    → Effect s s'
unfolding revoke_row
revoke_row-Effect id generation now s s' h =
    let (x, matched, guarded, _, r) = update_connection-Rewritten id _ _ s s' (λ r. refl) h in
    let status = status_sound x.status Status.active (both_true _ _ matched).0 in
    moves id x _ r (ends now status (guard_time x _ guarded))

expiry-connections :
    (context : Context) (correlation : Digest) (time : ℕ) (s s' : Store)
    → record_connection_expiry_audit context correlation time s ≡ ok s'
    → s.connections ≡ s'.connections
unfolding record_connection_expiry_audit
expiry-connections context correlation time s s' h = record_event-connections context _ _ _ _ s s' h

-- The end of an active connection, after the test that it is one.
expire_active-Effect :
    (context : Context) (id : Digest) (generation now : ℕ) (correlation : Digest)
    (r : ConnectionRecord) (s s' : Store)
    → expire_active context id generation now correlation s ≡ ok (r, s')
    → Effect s s'
unfolding expire_active
expire_active-Effect context id generation now correlation r s s' h =
    let (s1, e1, h1) = >>=-eq-ok (expire_row id generation now s) _ h in
    let (c, _, h2) = >>=-eq-ok (read_connection context s1 id) _ h1 in
    let (s2, e2, h3) = >>=-eq-ok (record_connection_expiry_audit context correlation now s1) _ h2 in
    let same : s2 ≡ s' = ground arith in
    Effect-later s s1 s'
      (expiry-connections context correlation now s1 s2 e2 ∙ ap (λ (t : Store). t.connections) same)
      (expire_row-Effect id generation now s s1 e1)

expire_again-connections :
    (context : Context) (correlation : Digest) (before r : ConnectionRecord) (s s' : Store)
    → expire_again context correlation before s ≡ ok (r, s')
    → s.connections ≡ s'.connections
unfolding expire_again
expire_again-connections context correlation before r s s' h =
    let (s1, e, _) =
      >>=-eq-ok (record_connection_expiry_audit context correlation before.updated_at s) _ h in
    let same : s1 ≡ s' = ground arith in
    expiry-connections context correlation before.updated_at s s1 e
    ∙ ap (λ (t : Store). t.connections) same

expire_known-Effect :
    (context : Context) (id : Digest) (generation now : ℕ) (correlation : Digest)
    (before r : ConnectionRecord) (s s' : Store)
    → expire_known context id generation now correlation before s ≡ ok (r, s')
    → Effect s s'
unfolding expire_known
expire_known-Effect context id generation now correlation before r s s' h =
    elim (Bool-cases (status_eq before.status Status.expired)) [
      | inl again ↦
          keeps (expire_again-connections context correlation before r s s' (rw again at h))
      | inr fresh ↦
          let (_, h1) =
            otherwise
              (not (status_eq before.status Status.active)
                || not (is_past before.authorized_until now))
              ConnectionError.binding (expire_active context id generation now correlation s)
              (rw fresh at h) in
          expire_active-Effect context id generation now correlation r s s' h1
    ]

-- `expire_connection` keeps every connection, or moves one.
pub expire_connection-Effect :
    (context : Context) (id : Digest) (generation now : ℕ) (correlation : Digest)
    (r : ConnectionRecord) (s s' : Store)
    → expire_connection context id generation now correlation s ≡ ok (r, s')
    → Effect s s'
unfolding expire_connection expire_found
expire_connection-Effect context id generation now correlation r s s' h =
    let (before, _, h1) = >>=-eq-ok (read_connection context s id) _ h in
    let (_, h2) =
      otherwise (not (before.policy_generation == generation)) ConnectionError.binding
        (expire_known context id generation now correlation before s) h1 in
    expire_known-Effect context id generation now correlation before r s s' h2

as_admin-eq-ok : {A : Type 0} (r : Result ConnectionError A) {a : A} → as_admin r ≡ ok a → r ≡ ok a
as_admin-eq-ok (err e) h = cc
as_admin-eq-ok (ok a) h = cc

admin_decide-Effect :
    (context : Context) (id : Digest) (generation now : ℕ) (correlation : Digest)
    (decision : OperatorDecision) (r : ConnectionRecord) (s s' : Store)
    → as_admin (admin_decide context id generation now correlation decision s) ≡ ok (r, s')
    → Effect s s'
unfolding admin_decide
admin_decide-Effect context id generation now correlation decision r s s' h =
    let (op, _, g) =
      >>=-eq-ok (read_pending_decision_operation s id generation)
        (λ op. decide_connection context op id generation now correlation decision s)
        (as_admin-eq-ok (admin_decide context id generation now correlation decision s) h) in
    decide_connection-Effect context op id generation now correlation decision r s s' g

revoke_active-Effect :
    (context : Context) (id : Digest) (generation now : ℕ) (correlation : Digest)
    (r : ConnectionRecord) (s s' : Store)
    → revoke_active context id generation now correlation s ≡ ok (r, s')
    → Effect s s'
unfolding revoke_active
revoke_active-Effect context id generation now correlation r s s' h =
    let (s1, e1, h1) = >>=-eq-ok (revoke_row id generation now s) _ h in
    let (c, _, h2) = >>=-eq-ok (read_connection context s1 id) _ h1 in
    let (s2, e2, _) =
      >>=-eq-ok
        (record_operator_audit context correlation now AuditOutcome.succeeded
          AuditReason.connection_expired s1)
        _ h2 in
    let same : s2 ≡ s' = ground arith in
    Effect-later s s1 s'
      (record_operator_audit-connections context correlation now _ _ s1 s2 e2
        ∙ ap (λ (t : Store). t.connections) same)
      (revoke_row-Effect id generation now s s1 e1)

revoke_found-Effect :
    (context : Context) (id : Digest) (generation now : ℕ) (correlation : Digest)
    (before r : ConnectionRecord) (s s' : Store)
    → revoke_found context id generation now correlation before s ≡ ok (r, s')
    → Effect s s'
unfolding revoke_found
revoke_found-Effect context id generation now correlation before r s s' h =
    elim (Bool-cases (status_eq before.status Status.expired)) [
      | inl again ↦
          let unchanged : Result AdminError (ConnectionRecord × Store) = ok (before, s) in
          let e : unchanged ≡ ok (r, s') = rw again at h in
          let same : s ≡ s' = ground arith in keeps (ap (λ (t : Store). t.connections) same)
      | inr fresh ↦
          let (_, h1) =
            otherwise (not (status_eq before.status Status.active) || ltb now before.updated_at)
              AdminError.conflict (as_admin (revoke_active context id generation now correlation s))
              (rw fresh at h) in
          revoke_active-Effect context id generation now correlation r s s'
            (as_admin-eq-ok (revoke_active context id generation now correlation s) h1)
    ]

admin_action-Effect :
    (context : Context) (id : Digest) (generation now : ℕ) (correlation : Digest)
    (action : AdminAction) (before r : ConnectionRecord) (s s' : Store)
    → admin_action context id generation now correlation action before s ≡ ok (r, s')
    → Effect s s'
admin_action-Effect context id generation now correlation (approve_with granted until) before r s s'
      h =
    admin_decide-Effect context id generation now correlation _ r s s' h
admin_action-Effect context id generation now correlation reject before r s s' h =
    admin_decide-Effect context id generation now correlation _ r s s' h
admin_action-Effect context id generation now correlation revoke before r s s' h =
    revoke_found-Effect context id generation now correlation before r s s' h

-- `apply_admin_connection_mutation` keeps every connection, or moves one.
pub admin-Effect :
    (context : Context) (id : Digest) (generation now : ℕ) (correlation : Digest)
    (action : AdminAction) (before after : ConnectionRecord) (s s' : Store)
    → apply_admin_connection_mutation context id generation now correlation action s
      ≡ ok (before, after, s')
    → Effect s s'
unfolding apply_admin_connection_mutation admin_found
admin-Effect context id generation now correlation action before after s s' h =
    let (b, _, h1) = >>=-eq-ok (as_admin (read_connection context s id)) _ h in
    let (_, h2) = otherwise (not (b.policy_generation == generation)) AdminError.conflict _ h1 in
    let (r, e, e') =
      >>=-eq-ok (admin_action context id generation now correlation action b s) _ h2 in
    let same : r.1 ≡ s' = ground arith in
    Effect-later s r.1 s' (ap (λ (t : Store). t.connections) same)
      (admin_action-Effect context id generation now correlation action b r.0 s r.1 e)
