-- ===== src/Connection/Effects/Openings.antt =====
-- The effect of an admission.
use myc.Common.{
  ℕ, ◌⊎◌, ◌≡◌, refl, ap, ◌∙◌, subst, false, not, ◌||◌, Option, none, some, List, [], ◌∷◌, ok, err,
  Result, >>=-eq-ok, arith, ◌==◌, inl, inr, Bool-cases, any, ok_or, ltb, ◌>>=◌, is_some_and,
}
use myc.Governance.Rates.{GovernanceError, RatePolicy, RateRow, Subject}
use myc.Governance.Audit.{Digest, AuditEvidence, RequestRow, AuditLog, is_connect}
use myc.Governance.Audit.Attempts.{GovernedAttempt}
use myc.Connection.Types.{
  ConnectionError, binding, AdmissionPolicy, Status, ConnectionRow, DecisionRow, Store, Context,
  PersistedDecision, policy_eq,
}
use myc.Connection.Rows.{read_decision, has_id}
use myc.Connection.Statements.{insert_permissions, record_event, with_connections, with_decisions}
use myc.Connection.Admit.{
  AdmissionRequest, Admitted, admission_status, admission_row, insert_row, granted_codes,
  insert_connection, insert_decision, insert_for_policy, admit_governed, admission_decision,
  decision_record, after_attempt, admit_new, admit_replay, admit_decided, admit_connection,
  read_request_binding, rate_limited, replay_found, replayed,
}
use myc.Connection.Moves.{record_event-connections}
use myc.Connection.Effects.{Effect, keeps, moves, opens, Effect-later}
use myc.Connection.Effects.Answers.{otherwise}

insert_row-eq-ok :
    (row out : ConnectionRow) (s : Store)
    → insert_row row s ≡ ok out
    → (any (has_id row.id) s.connections ≡ false) × (row ≡ out)
unfolding insert_row
insert_row-eq-ok row out s h = ground arith

opened_status :
    (policy : AdmissionPolicy) (status : Status) (requested granted : List (List ℕ))
    (permissions : _)
    → admission_status policy ≡ ok status
    → insert_permissions permissions [] ≡ ok requested
    → granted_codes status permissions ≡ ok granted
    → ((status ≡ Status.pending) × (granted ≡ []))
      ⊎ ((status ≡ Status.active) × (granted ≡ requested))
opened_status AdmissionPolicy.trusted Status.pending requested granted permissions h p g =
    ground arith
opened_status AdmissionPolicy.trusted Status.active requested granted permissions h p g =
    inr (refl, ground arith)
opened_status AdmissionPolicy.trusted Status.denied requested granted permissions h p g =
    ground arith
opened_status AdmissionPolicy.trusted Status.expired requested granted permissions h p g =
    ground arith
opened_status AdmissionPolicy.explicit_approval Status.pending requested granted permissions h p g =
    inl (refl, ground arith)
opened_status AdmissionPolicy.explicit_approval Status.active requested granted permissions h p g =
    ground arith
opened_status AdmissionPolicy.explicit_approval Status.denied requested granted permissions h p g =
    ground arith
opened_status AdmissionPolicy.explicit_approval Status.expired requested granted permissions h p g =
    ground arith
opened_status AdmissionPolicy.denied status requested granted permissions h p g = cc

insert_connection-Effect :
    (context : Context) (request : AdmissionRequest) (id : Digest) (s s' : Store)
    → insert_connection context request id s ≡ ok s'
    → Effect s s'
unfolding insert_connection
insert_connection-Effect context request id s s' h =
    let (status, e0, h0) = >>=-eq-ok (admission_status request.policy) _ h in
    let (row, e1, h1) = >>=-eq-ok (insert_row (admission_row context request id status) s) _ h0 in
    let (requested, e2, h2) =
      >>=-eq-ok (insert_permissions request.requested_permissions []) _ h1 in
    let (granted, e3, h3) = >>=-eq-ok (granted_codes status request.requested_permissions) _ h2 in
    let (fresh, same) = insert_row-eq-ok (admission_row context request id status) row s e1 in
    let out : ConnectionRow = record row { requested = requested; granted = granted } in
    let written : with_connections s (out ∷ s.connections) ≡ s' = ground arith in
    let row_status : status ≡ row.status = ap (λ (r : ConnectionRow). r.status) same in
    opens out (subst (λ (r : ConnectionRow). any (has_id r.id) s.connections ≡ false) same fresh)
      (subst
        (λ t.
          ((t ≡ Status.pending) × (granted ≡ [])) ⊎ ((t ≡ Status.active) × (granted ≡ requested)))
        row_status
        (opened_status request.policy status requested granted request.requested_permissions e0 e2
          e3))
      (ap (λ (t : Store). t.connections) written)

pub insert_decision-connections :
    (context : Context) (row : DecisionRow) (s s' : Store)
    → insert_decision context row s ≡ ok s'
    → s.connections ≡ s'.connections
unfolding insert_decision
insert_decision-connections context row s s' h =
    let written : with_decisions s (row ∷ s.decisions) ≡ s' = ground arith in
    ap (λ (t : Store). t.connections) written

insert_for_policy-Effect :
    (context : Context) (request : AdmissionRequest) (s s' : Store) (id : Option Digest)
    → insert_for_policy context request s ≡ ok (id, s')
    → Effect s s'
insert_for_policy-Effect context request s s' id h =
    elim (Bool-cases (policy_eq request.policy AdmissionPolicy.denied)) [
      | inl refused ↦
          let nothing : Option Digest = none in
          let unchanged : Result ConnectionError (Option Digest × Store) = ok (nothing, s) in
          let e : unchanged ≡ ok (id, s') = rw refused at h in
          let same : s ≡ s' = ground arith in keeps (ap (λ (t : Store). t.connections) same)
      | inr let_in ↦
          let new_id = context.derive_connection_id request.client_public_key request.nonce in
          let (s1, e1, h1) =
            >>=-eq-ok (insert_connection context request new_id s) _ (rw let_in at h) in
          let same : s1 ≡ s' = ground arith in
          Effect-later s s1 s' (ap (λ (t : Store). t.connections) same)
            (insert_connection-Effect context request new_id s s1 e1)
    ]

admit_governed-Effect :
    (context : Context) (request : AdmissionRequest) (evidence : AuditEvidence)
    (rate_rows : Option (List RateRow)) (s : Store) (out : Admitted)
    → admit_governed context request evidence rate_rows s ≡ ok out
    → Effect s out.store
unfolding admit_governed
admit_governed-Effect context request evidence rate_rows s out h =
    let (inserted, e0, h0) = >>=-eq-ok (insert_for_policy context request s) _ h in
    let (s1, e1, h1) =
      >>=-eq-ok (insert_decision context (admission_decision context request inserted.0) inserted.1)
        _ h0 in
    let (found, _, h2) = >>=-eq-ok (read_decision s1 request.operation_id) _ h1 in
    let (persisted, _, h3) = >>=-eq-ok (ok_or found binding) _ h2 in
    let (made, _, h4) =
      >>=-eq-ok (decision_record context s1 request.operation_id persisted) _ h3 in
    let (s2, e5, h5) = >>=-eq-ok (record_event context evidence _ _ _ s1) _ h4 in
    let same : s2 ≡ out.store = ground arith in
    Effect-later s inserted.1 out.store
      (insert_decision-connections context _ inserted.1 s1 e1
        ∙ (record_event-connections context evidence _ _ _ s1 s2 e5
            ∙ ap (λ (t : Store). t.connections) same))
      (insert_for_policy-Effect context request s inserted.1 inserted.0 e0)

-- A different log leaves the effect.
Effect-log :
    (s : Store) (log : AuditLog) (s' : Store) → Effect (record s { log = log }) s' → Effect s s'
Effect-log s log s' (keeps same) = keeps same
Effect-log s log s' (moves id x y r m) = moves id x y r m
Effect-log s log s' (opens row fresh is_opened same) = opens row fresh is_opened same

refused_store :
    (s : Store) (a : GovernedAttempt) (out : Admitted)
    → ◌≡◌ {A = Result ConnectionError Admitted}
        (ok (record {
          admission = rate_limited;
          rate_rows = a.rows;
          store = record s { log = a.log };
        }))
        (ok out)
    → record s { log = a.log } ≡ out.store
refused_store s a out g = ground arith

after_attempt-Effect :
    (context : Context) (request : AdmissionRequest) (evidence : AuditEvidence) (s : Store)
    (attempt : Result GovernanceError GovernedAttempt) (out : Admitted)
    → after_attempt context request evidence s attempt ≡ ok out
    → Effect s out.store
after_attempt-Effect context request evidence s (err e) out h = ground arith
after_attempt-Effect context request evidence s (ok a) out h = elim (Bool-cases a.admitted) [
  | inl let_in ↦ Effect-log s a.log out.store (
      admit_governed-Effect context request evidence a.rows (record s { log = a.log }) out
        (rw let_in at h))
  | inr refused ↦
      let same : record s { log = a.log } ≡ out.store = refused_store s a out (rw refused at h) in
      keeps (ap (λ (t : Store). t.connections) same)
]

admit_new-Effect :
    (context : Context) (request : AdmissionRequest) (rate : Option RatePolicy)
    (subjects : List Subject) (evidence : AuditEvidence) (s : Store) (out : Admitted)
    → admit_new context request rate subjects evidence s ≡ ok out
    → Effect s out.store
unfolding admit_new
admit_new-Effect context request none subjects evidence s out h =
    admit_governed-Effect context request evidence none s out h
admit_new-Effect context request (some rate) subjects evidence s out h =
    after_attempt-Effect context request evidence s _ out h

replay_found-store :
    (context : Context) (request : AdmissionRequest) (existing : PersistedDecision) (s : Store)
    (out : Admitted)
    → replay_found context request existing s ≡ ok out
    → s ≡ out.store
unfolding replay_found
replay_found-store context request existing s out h =
    let (found, _, h1) = >>=-eq-ok (decision_record context s request.operation_id existing) _ h in
    let (_, h2) =
      otherwise
        (is_some_and found.connection (λ c. not (c.client_public_key == request.client_public_key)))
        binding (ok (replayed found s)) h1 in
    ground arith

admit_replay-Effect :
    (context : Context) (request : AdmissionRequest) (existing : PersistedDecision) (s : Store)
    (out : Admitted)
    → admit_replay context request existing s ≡ ok out
    → Effect s out.store
unfolding admit_replay
admit_replay-Effect context request existing s out h =
    let (_, h1) = otherwise _ binding (replay_found context request existing s) h in
    keeps (ap (λ (t : Store). t.connections) (replay_found-store context request existing s out h1))

-- `admit_connection` keeps every connection, or adds one.
pub admit_connection-Effect :
    (context : Context) (request : AdmissionRequest) (rate : Option RatePolicy)
    (subjects : List Subject) (s : Store) (out : Admitted)
    → admit_connection context request rate subjects s ≡ ok out
    → Effect s out.store
unfolding admit_connection
admit_connection-Effect context request rate subjects s out h =
    let (bound, _, h1) = >>=-eq-ok (read_request_binding context request.operation_id) _ h in
    let (_, h2) =
      otherwise
        (not (bound.client_public_key == request.client_public_key)
          || not (is_connect bound.method)
          || ltb request.observed_at bound.received_at)
        binding
        (read_decision s request.operation_id >>= λ found.
          admit_decided context request rate subjects bound s found)
        h1 in
    let (found, _, h3) = >>=-eq-ok (read_decision s request.operation_id) _ h2 in
    decided found bound h3
  where
    decided :
        (found : Option PersistedDecision) (bound : RequestRow)
        → admit_decided context request rate subjects bound s found ≡ ok out
        → Effect s out.store
    decided none bound h = admit_new-Effect context request rate subjects _ s out h
    decided (some existing) bound h = admit_replay-Effect context request existing s out h
