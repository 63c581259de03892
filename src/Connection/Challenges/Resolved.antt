-- ===== src/Connection/Challenges/Resolved.antt =====
-- A challenge is resolved once.
use myc.Common.{
  ℕ, ◌≡◌, refl, sym, subst, ◌∙◌, ap, Bool, true, ◌&&◌, Option, none, some, List, ok, err, Result,
  >>=-eq-ok, ok_or, arith, both_true, find, ◌==◌, update_first, update_first-find,
}
use myc.Governance.Rates.{GovernanceError, RateRow}
use myc.Governance.Audit.{
  Digest, AuditKind, AuditOutcome, AuditReason, AuditEvidence, AuditRecord, AuditLog,
}
use myc.Connection.Types.{
  ConnectionError, binding, storage, ChallengeState, ChallengeRow, DecisionRow, Store, Context,
}
use myc.Connection.Rows.{has_operation}
use myc.Connection.Statements.{
  update_row, record_event, audited, update_decision, decision_legal, with_decisions,
}
use myc.Connection.Challenges.{
  challenge_eq, ChallengeRecord, resolved, Authorization, challenge_record, parse_challenge,
  parse_some_challenge, of_operation, read_challenge, challenge_legal, resolve_challenge,
  update_challenge_decision, resolved_state, resolved_decision, resolved_reason, resolved_outcome,
  resolved_event, authorize_governed,
}

-- The records of the challenges and the connections are the same in both stores.
abbrev pub SameReads : Store → Store → Type 0
SameReads s s' = (s.connections ≡ s'.connections) × (s.challenges ≡ s'.challenges)

update_decision-SameReads :
    (operation_id : Digest) (matches : DecisionRow → Bool) (set : DecisionRow → DecisionRow)
    (s s' : Store)
    → update_decision operation_id matches set s ≡ ok s'
    → SameReads s s'
unfolding update_decision
update_decision-SameReads operation_id matches set s s' h =
    let (rows, _, e) =
      >>=-eq-ok
        (update_first (has_operation operation_id) storage (update_row matches decision_legal set)
          s.decisions)
        _ h in
    let written : with_decisions s rows ≡ s' = ground arith in
    (ap (λ (t : Store). t.connections) written, ap (λ (t : Store). t.challenges) written)

update_challenge_decision-SameReads :
    (b : ChallengeRecord) (expired : Bool) (now : ℕ) (s s' : Store)
    → update_challenge_decision b.operation_id b.connection_id b.id b.policy_generation
        (resolved_decision expired)
        (resolved_reason expired)
        now
        s
      ≡ ok s'
    → SameReads s s'
unfolding update_challenge_decision
update_challenge_decision-SameReads b expired now s s' h =
    update_decision-SameReads b.operation_id _ _ s s' h

audited-SameReads :
    (s s' : Store) (r : Result GovernanceError (AuditRecord × AuditLog))
    → audited s r ≡ ok s'
    → SameReads s s'
audited-SameReads s s' (err e) h = ground arith
audited-SameReads s s' (ok (a, log)) h =
    let written : record s { log = log } ≡ s' = ground arith in
    (ap (λ (t : Store). t.connections) written, ap (λ (t : Store). t.challenges) written)

record_event-SameReads :
    (context : Context) (evidence : AuditEvidence) (kind : AuditKind) (outcome : AuditOutcome)
    (reason : AuditReason) (s s' : Store)
    → record_event context evidence kind outcome reason s ≡ ok s'
    → SameReads s s'
unfolding record_event
record_event-SameReads context evidence kind outcome reason s s' h = audited-SameReads s s' _ h

parse_challenge-eq-ok :
    (context : Context) (w : ChallengeRow) (b : ChallengeRecord)
    → parse_challenge context w ≡ ok b
    → challenge_record w ≡ b
unfolding parse_challenge
parse_challenge-eq-ok context w b h = ground arith

challenge_row :
    (context : Context) (found : Option ChallengeRow) (b : ChallengeRecord)
    → parse_some_challenge context found ≡ ok (some b)
    → (w : ChallengeRow) × (found ≡ some w) × (challenge_record w ≡ b)
challenge_row context none b h = ground arith
challenge_row context (some w) b h =
    let (c, e, e') = >>=-eq-ok (parse_challenge context w) _ h in
    let same : c ≡ b = ground arith in (w, refl, parse_challenge-eq-ok context w c e ∙ same)

-- The row that RESOLVE_CHALLENGE_SQL writes.
abbrev answered : ChallengeState → ℕ → ChallengeRow → ChallengeRow
answered state now w = record w { state = state; resolved_at = some now }

resolve_row :
    (matches : ChallengeRow → Bool) (state : ChallengeState) (now : ℕ) (x y : ChallengeRow)
    → update_row matches challenge_legal (answered state now) x ≡ ok y
    → (matches x ≡ true) × (answered state now x ≡ y)
unfolding update_row
resolve_row matches state now x y h = ground arith

-- The row of a resolved challenge.
resolve_challenge-find :
    (context : Context) (b : ChallengeRecord) (state : ChallengeState) (now : ℕ) (s s' : Store)
    → read_challenge context s b.operation_id ≡ ok (some b)
    → resolve_challenge b.id b.connection_id b.operation_id b.policy_generation state now s ≡ ok s'
    → (s.connections ≡ s'.connections)
      × ((w : ChallengeRow) × (challenge_record w ≡ b)
          × (find (of_operation b.operation_id) s'.challenges ≡ some (answered state now w)))
unfolding resolve_challenge read_challenge
resolve_challenge-find context b state now s s' read h =
    let (w, found, same) =
      challenge_row context (find (of_operation b.operation_id) s.challenges) b read in
    let matches : ChallengeRow → Bool = λ r.
      r.connection_id == b.connection_id
      && r.operation_id == b.operation_id
      && r.policy_generation == b.policy_generation
      && challenge_eq r.state ChallengeState.pending in
    let step : ChallengeRow → Result ConnectionError ChallengeRow =
      update_row matches challenge_legal (answered state now) in
    let (rows, e, e') =
      >>=-eq-ok (update_first (λ r. r.id == b.id) storage step s.challenges) _ h in
    let written : record s { challenges = rows } ≡ s' = ground arith in
    let same_id : w.id ≡ b.id = ap (λ (c : ChallengeRecord). c.id) same in
    let (y, stepped, last) =
      update_first-find (λ (r : ChallengeRow). r.id == b.id) (of_operation b.operation_id) storage
        step s.challenges rows w
        (λ x y g.
          let (m, z) = resolve_row matches state now x y g in
          let own : of_operation b.operation_id x ≡ true =
            (both_true (x.connection_id == b.connection_id) (x.operation_id == b.operation_id)
              (both_true _ (x.policy_generation == b.policy_generation)
                (both_true _ (challenge_eq x.state ChallengeState.pending) m).0).0).1 in
          (own, subst (λ u. of_operation b.operation_id u ≡ true) z own))
        e found (ground arith) in
    let (_, out) = resolve_row matches state now w y stepped in
    (
      ap (λ (t : Store). t.connections) written,
      (
        w,
        same,
        subst
            (λ (t : Store).
              find (of_operation b.operation_id) t.challenges ≡ some (answered state now w))
            written (subst (λ z. find (of_operation b.operation_id) rows ≡ some z) (sym out) last),
      ),
    )

pub some_value :
    {A : Type 0} (found : Option A) (a : A) → ok_or found binding ≡ ok a → found ≡ some a
some_value none a h = ground arith
some_value (some b) a h = ground arith

read_challenge-same :
    (context : Context) (s s' : Store) (operation_id : Digest)
    → s.challenges ≡ s'.challenges
    → read_challenge context s operation_id ≡ read_challenge context s' operation_id
unfolding read_challenge
read_challenge-same context s s' operation_id e =
    ap (λ rows. parse_some_challenge context (find (of_operation operation_id) rows)) e

pub resolved_record : (a b : ChallengeRecord) → resolved a ≡ resolved b → a ≡ b
resolved_record a b h = ground arith

-- The challenge that is read after its row was answered.
answered_record :
    (context : Context) (b after : ChallengeRecord) (state : ChallengeState) (now : ℕ)
    (w : ChallengeRow) (s : Store)
    → challenge_record w ≡ b
    → find (of_operation b.operation_id) s.challenges ≡ some (answered state now w)
    → read_challenge context s b.operation_id ≡ ok (some after)
    → record b { state = state; resolved_at = some now } ≡ after
unfolding read_challenge
answered_record context b after state now w s same f read =
    let (w2, f2, same2) =
      challenge_row context (find (of_operation b.operation_id) s.challenges) after read in
    let row : answered state now w ≡ w2 = ground arith in
    ap (λ (c : ChallengeRecord). record c { state = state; resolved_at = some now }) (sym same)
    ∙ (ap (λ (r : ChallengeRow). challenge_record r) row ∙ same2)

-- What a resolution leaves.
pub authorize_governed-resolved :
    (context : Context) (b : ChallengeRecord) (expired : Bool) (now : ℕ) (evidence : AuditEvidence)
    (rate_rows : Option (List RateRow)) (s : Store) (out : Authorization) (r : ChallengeRecord)
    → read_challenge context s b.operation_id ≡ ok (some b)
    → authorize_governed context b expired now evidence rate_rows s ≡ ok out
    → out.result ≡ resolved r
    → (r ≡ record b { state = resolved_state expired; resolved_at = some now })
      × (s.connections ≡ out.store.connections)
      × (read_challenge context out.store b.operation_id ≡ ok (some r))
unfolding authorize_governed
authorize_governed-resolved context b expired now evidence rate_rows s out r read h e =
    let state = resolved_state expired in
    let (s1, e1, h1) =
      >>=-eq-ok
        (resolve_challenge b.id b.connection_id b.operation_id b.policy_generation state now s) _
        h in
    let (s2, e2, h2) =
      >>=-eq-ok
        (update_challenge_decision b.operation_id b.connection_id b.id b.policy_generation
          (resolved_decision expired) (resolved_reason expired) now s1)
        _ h1 in
    let (found, e3, h3) = >>=-eq-ok (read_challenge context s2 b.operation_id) _ h2 in
    let (after, e4, h4) = >>=-eq-ok (ok_or found binding) _ h3 in
    let (s3, e5, h5) =
      >>=-eq-ok
        (record_event context evidence AuditKind.challenge_authorization (resolved_outcome expired)
          (resolved_event expired) s2)
        _ h4 in
    let last : record { result = resolved after; rate_rows = rate_rows; store = s3 } ≡ out =
      ground arith in
    let same_after : after ≡ r =
      resolved_record after r (ap (λ (o : Authorization). o.result) last ∙ e) in
    let same_store : s3 ≡ out.store = ap (λ (o : Authorization). o.store) last in
    let (c1, (w, same, f1)) = resolve_challenge-find context b state now s s1 read e1 in
    let (c2, d2) = update_challenge_decision-SameReads b expired now s1 s2 e2 in
    let (c3, d3) = record_event-SameReads context evidence _ _ _ s2 s3 e5 in
    let read2 : read_challenge context s2 b.operation_id ≡ ok (some after) =
      e3 ∙ ap (λ (f : Option ChallengeRecord). ok f) (some_value found after e4) in
    let f2 : find (of_operation b.operation_id) s2.challenges ≡ some (answered state now w) =
      subst (λ rows. find (of_operation b.operation_id) rows ≡ some (answered state now w)) d2 f1 in
    (
      sym (answered_record context b after state now w s2 same f2 read2 ∙ same_after),
      c1 ∙ (c2 ∙ (c3 ∙ ap (λ (t : Store). t.connections) same_store)),
      sym (
            read_challenge-same context s2 out.store b.operation_id
              (d3 ∙ ap (λ (t : Store). t.challenges) same_store))
          ∙ (read2 ∙ ap (λ (c : ChallengeRecord). ok (some c)) same_after),
    )
