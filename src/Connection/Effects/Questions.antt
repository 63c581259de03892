-- ===== src/Connection/Effects/Questions.antt =====
-- The calls on authorization challenges leave the connections.
use myc.Common.{
  ℕ, ◌≡◌, ◌∙◌, ap, Bool, not, ◌||◌, Option, none, some, List, ok, err, Result, >>=-eq-ok, ok_or,
  arith, Bool-cases, ltb, ◌==◌, is_some, update_first, ◌∷◌, inl, inr,
}
use myc.Governance.Rates.{GovernanceError, RatePolicy, RateRow, Subject}
use myc.Governance.Audit.{Digest, AuditEvidence, RequestRow, is_connect}
use myc.Governance.Audit.Attempts.{GovernedAttempt}
use myc.Connection.Types.{
  ConnectionError, binding, storage, Status, status_eq, ChallengeState, ChallengeRow, Store,
  ConnectionRecord, Context,
}
use myc.Connection.Rows.{read_connection, read_decision}
use myc.Connection.Statements.{record_event}
use myc.Connection.Admit.{read_request_binding, insert_decision}
use myc.Connection.Expire.{is_past}
use myc.Connection.Moves.{update_decision-connections, record_event-connections}
use myc.Connection.Effects.Answers.{otherwise}
use myc.Connection.Effects.Openings.{insert_decision-connections}
use myc.Connection.Challenges.{
  challenge_eq, ChallengeRequest, ChallengeRecord, Issued, exact_replay, rate_limited,
  Authorization, replay, authorization_limited, read_challenge, insert_challenge, new_challenge,
  challenged_decision, issue_governed, issue_attempted, issue_new, issue_found, issue_challenge,
  resolve_challenge, update_challenge_decision, is_expired_at, resolved_state, resolved_decision,
  resolved_reason, authorize_governed, authorize_attempted, authorize_bound, authorize_challenge,
}

insert_challenge-connections :
    (row : ChallengeRow) (s s' : Store)
    → insert_challenge row s ≡ ok s'
    → s.connections ≡ s'.connections
unfolding insert_challenge
insert_challenge-connections row s s' h =
    let written : record s { challenges = row ∷ s.challenges } ≡ s' = ground arith in
    ap (λ (t : Store). t.connections) written

issue_governed-connections :
    (context : Context) (request : ChallengeRequest) (c : ConnectionRecord)
    (evidence : AuditEvidence) (rate_rows : Option (List RateRow)) (s : Store) (out : Issued)
    → issue_governed context request c evidence rate_rows s ≡ ok out
    → s.connections ≡ out.store.connections
unfolding issue_governed
issue_governed-connections context request c evidence rate_rows s out h =
    let (s1, e1, h1) = >>=-eq-ok (insert_challenge (new_challenge context request) s) _ h in
    let (s2, e2, h2) =
      >>=-eq-ok (insert_decision context (challenged_decision context request c) s1) _ h1 in
    let (found, _, h3) = >>=-eq-ok (read_challenge context s2 request.operation_id) _ h2 in
    let (made, _, h4) = >>=-eq-ok (ok_or found binding) _ h3 in
    let (s3, e5, h5) = >>=-eq-ok (record_event context evidence _ _ _ s2) _ h4 in
    let same : s3 ≡ out.store = ground arith in
    insert_challenge-connections _ s s1 e1
    ∙ (insert_decision-connections context _ s1 s2 e2
        ∙ (record_event-connections context evidence _ _ _ s2 s3 e5
            ∙ ap (λ (t : Store). t.connections) same))

issue_attempted-connections :
    (context : Context) (request : ChallengeRequest) (c : ConnectionRecord)
    (evidence : AuditEvidence) (s : Store) (attempt : Result GovernanceError GovernedAttempt)
    (out : Issued)
    → issue_attempted context request c evidence s attempt ≡ ok out
    → s.connections ≡ out.store.connections
issue_attempted-connections context request c evidence s (err e) out h = ground arith
issue_attempted-connections context request c evidence s (ok a) out h =
    elim (Bool-cases a.admitted) [
      | inl let_in ↦
          issue_governed-connections context request c evidence a.rows (record s { log = a.log })
            out (rw let_in at h)
      | inr refused ↦
          let limited : Issued = record {
            answer = rate_limited;
            rate_rows = a.rows;
            store = record s { log = a.log };
          } in
          let stopped : Result ConnectionError Issued = ok limited in
          let e : stopped ≡ ok out = rw refused at h in
          let same : limited ≡ out = ground arith in ap (λ (o : Issued). o.store.connections) same
    ]

issue_new-connections :
    (context : Context) (request : ChallengeRequest) (rate : RatePolicy) (subjects : List Subject)
    (bound : RequestRow) (c : ConnectionRecord) (s : Store) (out : Issued)
    → issue_new context request rate subjects bound c s ≡ ok out
    → s.connections ≡ out.store.connections
unfolding issue_new
issue_new-connections context request rate subjects bound c s out h =
    let (_, h1) =
      otherwise
        (ltb request.issued_at bound.received_at
          || ltb request.issued_at c.updated_at
          || not (status_eq c.status Status.active)
          || is_past c.authorized_until request.issued_at)
        binding _ h in
    let (decided, _, h2) = >>=-eq-ok (read_decision s request.operation_id) _ h1 in
    let (_, h3) = otherwise (is_some decided) binding _ h2 in
    issue_attempted-connections context request c _ s _ out h3

issue_found-connections :
    (context : Context) (request : ChallengeRequest) (rate : RatePolicy) (subjects : List Subject)
    (bound : RequestRow) (c : ConnectionRecord) (s : Store) (found : Option ChallengeRecord)
    (out : Issued)
    → issue_found context request rate subjects bound c s found ≡ ok out
    → s.connections ≡ out.store.connections
issue_found-connections context request rate subjects bound c s none out h =
    issue_new-connections context request rate subjects bound c s out h
issue_found-connections context request rate subjects bound c s (some existing) out h =
    let old : Issued = record { answer = exact_replay existing; rate_rows = none; store = s } in
    let (_, e) = otherwise _ binding (ok old) h in
    let same : old ≡ out = ground arith in ap (λ (o : Issued). o.store.connections) same

-- `issue_challenge` leaves the connections.
pub issue_challenge-connections :
    (context : Context) (request : ChallengeRequest) (rate : RatePolicy) (subjects : List Subject)
    (s : Store) (out : Issued)
    → issue_challenge context request rate subjects s ≡ ok out
    → s.connections ≡ out.store.connections
unfolding issue_challenge
issue_challenge-connections context request rate subjects s out h =
    let (bound, _, h1) = >>=-eq-ok (read_request_binding context request.operation_id) _ h in
    let (_, h2) = otherwise (is_connect bound.method) binding _ h1 in
    let (c, _, h3) = >>=-eq-ok (read_connection context s request.connection_id) _ h2 in
    let (_, h4) =
      otherwise
        (not (c.client_public_key == bound.client_public_key)
          || not (c.policy_generation == request.policy_generation))
        binding _ h3 in
    let (found, _, h5) = >>=-eq-ok (read_challenge context s request.operation_id) _ h4 in
    issue_found-connections context request rate subjects bound c s found out h5

resolve_challenge-connections :
    (id connection_id operation_id : Digest) (generation : ℕ) (state : ChallengeState) (now : ℕ)
    (s s' : Store)
    → resolve_challenge id connection_id operation_id generation state now s ≡ ok s'
    → s.connections ≡ s'.connections
unfolding resolve_challenge
resolve_challenge-connections id connection_id operation_id generation state now s s' h =
    let (rows, _, e) =
      >>=-eq-ok (update_first (λ (r : ChallengeRow). r.id == id) storage _ s.challenges) _ h in
    let written : record s { challenges = rows } ≡ s' = ground arith in
    ap (λ (t : Store). t.connections) written

challenge_decision-connections :
    (operation_id connection_id id : Digest) (generation : ℕ) (expired : Bool) (now : ℕ)
    (s s' : Store)
    → update_challenge_decision operation_id connection_id id generation
        (resolved_decision expired)
        (resolved_reason expired)
        now
        s
      ≡ ok s'
    → s.connections ≡ s'.connections
unfolding update_challenge_decision
challenge_decision-connections operation_id connection_id id generation expired now s s' h =
    (update_decision-connections operation_id _ _ s s' h).0

authorize_governed-connections :
    (context : Context) (b : ChallengeRecord) (expired : Bool) (now : ℕ) (evidence : AuditEvidence)
    (rate_rows : Option (List RateRow)) (s : Store) (out : Authorization)
    → authorize_governed context b expired now evidence rate_rows s ≡ ok out
    → s.connections ≡ out.store.connections
unfolding authorize_governed
authorize_governed-connections context b expired now evidence rate_rows s out h =
    let (s1, e1, h1) =
      >>=-eq-ok
        (resolve_challenge b.id b.connection_id b.operation_id b.policy_generation
          (resolved_state expired) now s)
        _ h in
    let (s2, e2, h2) =
      >>=-eq-ok
        (update_challenge_decision b.operation_id b.connection_id b.id b.policy_generation
          (resolved_decision expired) (resolved_reason expired) now s1)
        _ h1 in
    let (found, _, h3) = >>=-eq-ok (read_challenge context s2 b.operation_id) _ h2 in
    let (after, _, h4) = >>=-eq-ok (ok_or found binding) _ h3 in
    let (s3, e5, h5) = >>=-eq-ok (record_event context evidence _ _ _ s2) _ h4 in
    let same : s3 ≡ out.store = ground arith in
    resolve_challenge-connections b.id b.connection_id b.operation_id b.policy_generation _ now s s1
      e1
    ∙ (challenge_decision-connections b.operation_id b.connection_id b.id b.policy_generation
          expired now s1 s2 e2
        ∙ (record_event-connections context evidence _ _ _ s2 s3 e5
            ∙ ap (λ (t : Store). t.connections) same))

authorize_attempted-connections :
    (context : Context) (b : ChallengeRecord) (expired : Bool) (now : ℕ) (evidence : AuditEvidence)
    (s : Store) (attempt : Result GovernanceError GovernedAttempt) (out : Authorization)
    → authorize_attempted context b expired now evidence s attempt ≡ ok out
    → s.connections ≡ out.store.connections
authorize_attempted-connections context b expired now evidence s (err e) out h = ground arith
authorize_attempted-connections context b expired now evidence s (ok a) out h =
    elim (Bool-cases a.admitted) [
      | inl let_in ↦
          authorize_governed-connections context b expired now evidence a.rows
            (record s { log = a.log }) out (rw let_in at h)
      | inr refused ↦
          let limited : Authorization = record {
            result = authorization_limited;
            rate_rows = a.rows;
            store = record s { log = a.log };
          } in
          let stopped : Result ConnectionError Authorization = ok limited in
          let e : stopped ≡ ok out = rw refused at h in
          let same : limited ≡ out = ground arith in
          ap (λ (o : Authorization). o.store.connections) same
    ]

authorize_bound-connections :
    (context : Context) (b : ChallengeRecord) (now : ℕ) (rate : RatePolicy)
    (subjects : List Subject) (bound : RequestRow) (c : ConnectionRecord) (s : Store)
    (out : Authorization)
    → authorize_bound context b now rate subjects bound c s ≡ ok out
    → s.connections ≡ out.store.connections
unfolding authorize_bound
authorize_bound-connections context b now rate subjects bound c s out h =
    let (_, h1) =
      otherwise
        (is_connect bound.method
          || not (bound.client_public_key == c.client_public_key)
          || not (c.policy_generation == b.policy_generation)
          || ltb now b.issued_at)
        binding _ h in
    elim (Bool-cases (challenge_eq b.state ChallengeState.pending)) [
      | inl undecided ↦
          authorize_attempted-connections context b (is_expired_at b c now) now _ s _ out
            (rw undecided at h1)
      | inr done ↦
          let old : Authorization = record { result = replay b; rate_rows = none; store = s } in
          let stopped : Result ConnectionError Authorization = ok old in
          let e : stopped ≡ ok out = rw done at h1 in
          let same : old ≡ out = ground arith in
          ap (λ (o : Authorization). o.store.connections) same
    ]

-- `authorize_challenge` leaves the connections.
pub authorize_challenge-connections :
    (context : Context) (id connection_id operation_id : Digest) (generation now : ℕ)
    (rate : RatePolicy) (subjects : List Subject) (s : Store) (out : Authorization)
    → authorize_challenge context id connection_id operation_id generation now rate subjects s
      ≡ ok out
    → s.connections ≡ out.store.connections
unfolding authorize_challenge
authorize_challenge-connections context id connection_id operation_id generation now rate subjects s
      out h =
    let (found, _, h1) = >>=-eq-ok (read_challenge context s operation_id) _ h in
    let (b, _, h2) = >>=-eq-ok (ok_or found binding) _ h1 in
    let (_, h3) =
      otherwise
        (not (b.id == id)
          || not (b.connection_id == connection_id)
          || not (b.operation_id == operation_id)
          || not (b.policy_generation == generation))
        binding _ h2 in
    let (bound, _, h4) = >>=-eq-ok (read_request_binding context operation_id) _ h3 in
    let (c, _, h5) = >>=-eq-ok (read_connection context s connection_id) _ h4 in
    authorize_bound-connections context b now rate subjects bound c s out h5
