-- ===== src/Connection/Challenges/Once.antt =====
-- What `authorize_challenge` decides, and that it decides once.
use myc.Common.{
  ℕ, ◌≤◌, ◌≡◌, ◌≢◌, ◌⊎◌, inl, inr, refl, sym, subst, ◌∙◌, ap, Bool, true, false, not, ◌||◌, Option,
  none, some, List, ok, err, Result, >>=-eq-ok, ok_or, arith, Bool-cases, find, ltb, ◌==◌,
}
use myc.Governance.Rates.{GovernanceError, RatePolicy, Subject}
use myc.Governance.Audit.{Digest, AuditEvidence, RequestRow, AuditLog, is_connect}
use myc.Governance.Audit.Attempts.{GovernedAttempt}
use myc.Connection.Types.{
  ConnectionError, binding, Status, status_eq, ChallengeState, Store, ConnectionRecord, Context,
}
use myc.Connection.Rows.{read_connection, parse_found, has_id}
use myc.Connection.Admit.{read_request_binding}
use myc.Connection.Expire.{is_past}
use myc.Connection.Effects.Answers.{otherwise}
use myc.Connection.Challenges.{
  challenge_eq, ChallengeRecord, resolved, replay, authorization_limited, Authorization,
  read_challenge, is_expired_at, resolved_state, authorize_attempted, authorize_bound,
  authorize_challenge,
}
use myc.Connection.Challenges.Resolved.{authorize_governed-resolved, some_value}

-- The first test of `authorize_bound`.
abbrev bound_refused : RequestRow → ConnectionRecord → ChallengeRecord → ℕ → Bool
bound_refused bound connection b now =
    is_connect bound.method
    || not (bound.client_public_key == connection.client_public_key)
    || not (connection.policy_generation == b.policy_generation)
    || ltb now b.issued_at

-- What a resolution has read, and what it leaves.
record Resolution (context : Context) (b : ChallengeRecord) (now : ℕ) (bound : RequestRow)
    (c : ConnectionRecord) (s : Store) (out : Authorization) (r : ChallengeRecord) : Type 0 where
  admits : bound_refused bound c b now ≡ false
  undecided : challenge_eq b.state ChallengeState.pending ≡ true
  result : r ≡ record b { state = resolved_state (is_expired_at b c now); resolved_at = some now }
  connections : s.connections ≡ out.store.connections
  reread : read_challenge context out.store b.operation_id ≡ ok (some r)

replay-resolved : (a b : ChallengeRecord) → replay a ≢ resolved b
replay-resolved a b h = cc

limited-resolved : (b : ChallengeRecord) → authorization_limited ≢ resolved b
limited-resolved b h = cc

log_read :
    (context : Context) (b : ChallengeRecord) (s : Store) (log : AuditLog)
    → read_challenge context s b.operation_id ≡ ok (some b)
    → read_challenge context (record s { log = log }) b.operation_id ≡ ok (some b)
unfolding read_challenge
log_read context b s log h = h

attempted-resolved :
    (context : Context) (b : ChallengeRecord) (expired : Bool) (now : ℕ) (evidence : AuditEvidence)
    (s : Store) (attempt : Result GovernanceError GovernedAttempt) (out : Authorization)
    (r : ChallengeRecord)
    → read_challenge context s b.operation_id ≡ ok (some b)
    → authorize_attempted context b expired now evidence s attempt ≡ ok out
    → out.result ≡ resolved r
    → (r ≡ record b { state = resolved_state expired; resolved_at = some now })
      × (s.connections ≡ out.store.connections)
      × (read_challenge context out.store b.operation_id ≡ ok (some r))
attempted-resolved context b expired now evidence s (err e) out r read h f = ground arith
attempted-resolved context b expired now evidence s (ok a) out r read h f =
    elim (Bool-cases a.admitted) [
      | inl let_in ↦
          authorize_governed-resolved context b expired now evidence a.rows
            (record s { log = a.log }) out r (log_read context b s a.log read) (rw let_in at h) f
      | inr refused ↦
          let limited : Authorization = record {
            result = authorization_limited;
            rate_rows = a.rows;
            store = record s { log = a.log };
          } in
          let stopped : Result ConnectionError Authorization = ok limited in
          let e : stopped ≡ ok out = rw refused at h in
          let same : limited ≡ out = ground arith in
          absurd (limited-resolved r (ap (λ (o : Authorization). o.result) same ∙ f))
    ]

bound-resolved :
    (context : Context) (b : ChallengeRecord) (now : ℕ) (rate : RatePolicy)
    (subjects : List Subject) (bound : RequestRow) (c : ConnectionRecord) (s : Store)
    (out : Authorization) (r : ChallengeRecord)
    → read_challenge context s b.operation_id ≡ ok (some b)
    → authorize_bound context b now rate subjects bound c s ≡ ok out
    → out.result ≡ resolved r
    → Resolution context b now bound c s out r
unfolding authorize_bound
bound-resolved context b now rate subjects bound c s out r read h f =
    let (admits, h1) = otherwise (bound_refused bound c b now) binding _ h in
    elim (Bool-cases (challenge_eq b.state ChallengeState.pending)) [
      | inl undecided ↦
          let (result, connections, reread) =
            attempted-resolved context b (is_expired_at b c now) now _ s _ out r read
              (rw undecided at h1) f in
          record {
            admits = admits;
            undecided = undecided;
            result = result;
            connections = connections;
            reread = reread;
          }
      | inr done ↦
          let old : Authorization = record { result = replay b; rate_rows = none; store = s } in
          let stopped : Result ConnectionError Authorization = ok old in
          let e : stopped ≡ ok out = rw done at h1 in
          let same : old ≡ out = ground arith in
          absurd (replay-resolved b r (ap (λ (o : Authorization). o.result) same ∙ f))
    ]

same_connections :
    (context : Context) (s s' : Store) (id : Digest)
    → s.connections ≡ s'.connections
    → read_connection context s id ≡ read_connection context s' id
unfolding read_connection
same_connections context s s' id e = ap (λ rows. parse_found context (find (has_id id) rows)) e

-- The second test of `authorize_challenge`.
abbrev ids_refused : ChallengeRecord → Digest → Digest → Digest → ℕ → Bool
ids_refused b id connection_id operation_id generation =
    not (b.id == id)
    || not (b.connection_id == connection_id)
    || not (b.operation_id == operation_id)
    || not (b.policy_generation == generation)

-- All that `authorize_challenge` has read when it resolves.
authorize-Resolution :
    (context : Context) (id connection_id operation_id : Digest) (generation now : ℕ)
    (rate : RatePolicy) (subjects : List Subject) (s : Store) (out : Authorization)
    (r : ChallengeRecord)
    → authorize_challenge context id connection_id operation_id generation now rate subjects s
      ≡ ok out
    → out.result ≡ resolved r
    → (b : ChallengeRecord) × (bound : RequestRow) × (c : ConnectionRecord) × (ids_refused b id
          connection_id operation_id generation
        ≡ false)
      × (read_challenge context s operation_id ≡ ok (some b))
      × (read_request_binding context operation_id ≡ ok bound)
      × (read_connection context s connection_id ≡ ok c)
      × Resolution context b now bound c s out r
unfolding authorize_challenge
authorize-Resolution context id connection_id operation_id generation now rate subjects s out r h
      f =
    let (found, e1, h1) = >>=-eq-ok (read_challenge context s operation_id) _ h in
    let (b, e2, h2) = >>=-eq-ok (ok_or found binding) _ h1 in
    let (ids, h3) =
      otherwise (ids_refused b id connection_id operation_id generation) binding _ h2 in
    let (bound, e3, h4) = >>=-eq-ok (read_request_binding context operation_id) _ h3 in
    let (c, e4, h5) = >>=-eq-ok (read_connection context s connection_id) _ h4 in
    let same : b.operation_id ≡ operation_id = ground arith in
    let stored : read_challenge context s operation_id ≡ ok (some b) =
      e1 ∙ ap (λ (o : Option ChallengeRecord). ok o) (some_value found b e2) in
    let read : read_challenge context s b.operation_id ≡ ok (some b) =
      ap (λ o. read_challenge context s o) same ∙ stored in
    (
      b,
      bound,
      c,
      ids,
      stored,
      e3,
      e4,
      bound-resolved context b now rate subjects bound c s out r read h5 f,
    )

abbrev pub NotPast : Option ℕ → ℕ → Type 0
NotPast none now = Unit
NotPast (some until) now = now ≤ until

-- The challenge lasts at this instant, and its connection is active and still authorized.
abbrev pub InForce : ChallengeRecord → ConnectionRecord → ℕ → Type 0
InForce b c now = (now ≤ b.expires_at) × (c.status ≡ Status.active) × NotPast c.authorized_until now

-- The answer to a challenge that was in force, and to one that was not.
abbrev pub Answers : ChallengeState → ChallengeRecord → ConnectionRecord → ℕ → Type 0
Answers state b c now =
    ((state ≡ ChallengeState.authorized) × InForce b c now)
    ⊎ ((state ≡ ChallengeState.expired) × (¬ InForce b c now))

status_active : (s : Status) → status_eq s Status.active ≡ true → s ≡ Status.active
status_active s h = ground arith

not_past : (until : Option ℕ) (now : ℕ) → is_past until now ≡ false → NotPast until now
not_past none now h = tt
not_past (some until) now h = ground arith

past : (until : Option ℕ) (now : ℕ) → is_past until now ≡ true → ¬ NotPast until now
past none now h = cc
past (some until) now h = λ le. ground arith

answers_expired :
    (b : ChallengeRecord) (c : ConnectionRecord) (now : ℕ)
    → is_expired_at b c now ≡ true
    → ¬ InForce b c now
answers_expired b c now h = λ v. elim (Bool-cases (is_past c.authorized_until now)) [
  | inl over ↦ past c.authorized_until now over v.2
  | inr still ↦ let active = v.1 in let lasts = v.0 in ground arith
]

answers-InForce :
    (b : ChallengeRecord) (c : ConnectionRecord) (now : ℕ)
    → is_expired_at b c now ≡ false
    → InForce b c now
answers-InForce b c now h = (
  ground arith,
  status_active c.status (ground arith),
  not_past c.authorized_until now (ground arith),
)

resolved_state-Answers :
    (b : ChallengeRecord) (c : ConnectionRecord) (now : ℕ)
    → Answers (resolved_state (is_expired_at b c now)) b c now
resolved_state-Answers b c now = elim (Bool-cases (is_expired_at b c now)) [
  | inl over ↦ inr (ap resolved_state over, answers_expired b c now over)
  | inr lasts ↦ inl (ap resolved_state lasts, answers-InForce b c now lasts)
]

challenge_pending :
    (s : ChallengeState) → challenge_eq s ChallengeState.pending ≡ true → s ≡ ChallengeState.pending
challenge_pending s h = ground arith

-- A challenge that a call resolves was stored as pending, issued no later than the call. It becomes
-- authorized if the challenge lasts at that instant and its connection is active and still authorized,
-- and expired if not. Only the state and the time of resolution of its record are new, the store keeps
-- that record, and no connection changes.
pub authorize_challenge-resolved :
    (context : Context) (id connection_id operation_id : Digest) (generation now : ℕ)
    (rate : RatePolicy) (subjects : List Subject) (s : Store) (out : Authorization)
    (r : ChallengeRecord)
    → authorize_challenge context id connection_id operation_id generation now rate subjects s
      ≡ ok out
    → out.result ≡ resolved r
    → (b : ChallengeRecord) × (c : ConnectionRecord) × (read_challenge context s operation_id
        ≡ ok (some b))
      × (read_connection context s connection_id ≡ ok c)
      × (b.state ≡ ChallengeState.pending)
      × (b.issued_at ≤ now)
      × Answers r.state b c now
      × (r ≡ record b { state = r.state; resolved_at = some now })
      × (read_challenge context out.store operation_id ≡ ok (some r))
      × (s.connections ≡ out.store.connections)
authorize_challenge-resolved context id connection_id operation_id generation now rate subjects s
      out r h f =
    let (b, bound, c, ids, read, e3, e4, v) =
      authorize-Resolution context id connection_id operation_id generation now rate subjects s out
        r h f in
    let admits : bound_refused bound c b now ≡ false = v.admits in
    let same : b.operation_id ≡ operation_id = ground arith in
    let state : r.state ≡ resolved_state (is_expired_at b c now) =
      ap (λ (x : ChallengeRecord). x.state) v.result in
    (
      b,
      c,
      read,
      e4,
      challenge_pending b.state v.undecided,
      ground arith,
      subst (λ x. Answers x b c now) (sym state) (resolved_state-Answers b c now),
      v.result ∙ ap (λ x. record b { state = x; resolved_at = some now }) (sym state),
      subst (λ o. read_challenge context out.store o ≡ ok (some r)) same v.reread,
      v.connections,
    )

resolved_state-decided :
    (expired : Bool) → challenge_eq (resolved_state expired) ChallengeState.pending ≡ false
resolved_state-decided true = refl
resolved_state-decided false = refl

-- The transaction again, once it has resolved a challenge: the same record, and nothing is written.
pub authorize_challenge-again :
    (context : Context) (id connection_id operation_id : Digest) (generation now later : ℕ)
    (rate : RatePolicy) (subjects others : List Subject) (s : Store) (out : Authorization)
    (r : ChallengeRecord)
    → authorize_challenge context id connection_id operation_id generation now rate subjects s
      ≡ ok out
    → out.result ≡ resolved r
    → now ≤ later
    → authorize_challenge context id connection_id operation_id generation later rate others
        out.store
      ≡ ok (record { result = replay r; rate_rows = none; store = out.store })
unfolding authorize_challenge authorize_bound
authorize_challenge-again context id connection_id operation_id generation now later rate subjects
      others s out r h f l =
    let (b, bound, c, ids, _, e3, e4, v) =
      authorize-Resolution context id connection_id operation_id generation now rate subjects s out
        r h f in
    let admits : bound_refused bound c b now ≡ false = v.admits in
    let same : b.operation_id ≡ operation_id = ground arith in
    let ids2 : ids_refused r id connection_id operation_id generation ≡ false =
      subst (λ x. ids_refused x id connection_id operation_id generation ≡ false) (sym v.result)
        ids in
    let admits2 : bound_refused bound c r later ≡ false =
      subst (λ x. bound_refused bound c x later ≡ false) (sym v.result) (ground arith) in
    let decided : challenge_eq r.state ChallengeState.pending ≡ false =
      subst (λ t. challenge_eq t ChallengeState.pending ≡ false)
        (sym (ap (λ (x : ChallengeRecord). x.state) v.result))
        (resolved_state-decided (is_expired_at b c now)) in
    let reread : read_challenge context out.store operation_id ≡ ok (some r) =
      subst (λ o. read_challenge context out.store o ≡ ok (some r)) same v.reread in
    let connection : read_connection context out.store connection_id ≡ ok c =
      sym (same_connections context s out.store connection_id v.connections) ∙ e4 in
    rw reread (rw ids2 (rw e3 (rw connection (rw admits2 (rw decided refl)))))
