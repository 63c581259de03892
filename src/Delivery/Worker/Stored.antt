-- ===== src/Delivery/Worker/Stored.antt =====
-- What is stored of an attempt after the calls of the repository that the worker makes.
use myc.Common.{
  on_first-eq-ok, update_first-eq-ok, ℕ, ◌≡◌, refl, sym, subst, ap, ◌∙◌, ◌⊎◌, inl, inr, Bool, true,
  false, ◌&&◌, Option, none, some, Result, ok, arith, find, find-true, on_first, update_first,
  Bool-cases, >>=-eq-ok, ok_or, ◌==◌, bytes_eq, is_some_of, leb,
}
use myc.Delivery.Types.{
  Digest, RelayId, OperationError, binding, storage, AttemptStatus, TargetStatus, AttemptOutcome,
  Reason, Attempt, Target, Job, Claim, attempt_is_leased, is_terminal,
}
use myc.Delivery.Rows.{read_job}
use myc.Delivery.Statements.{has_relay, on_target, read_attempt, update_one, attempt_legal}
use myc.Delivery.Invariant.{read_job-eq-ok}
use myc.Delivery.Claim.{claim_target, claim_live, claim_on_target, activate, mark_job_active}
use myc.Delivery.Submit.{mark_submitted, submit_on_target, submit_attempt, submit_target}
use myc.Delivery.Resolve.{
  attempt_status_eq, reason_eq, outcome_status, outcome_reason, outcome_on_target, required_prior,
  record_outcome, finalize_if,
}
use myc.Delivery.Resolve.Invariant.{outcome_on_target-eq-ok}
use myc.Delivery.Resolve.Reread.{read_attempt-found, read_attempt-resolved, find_same_id, resolved}
use myc.Delivery.Resolve.Replay.{outcome_on_target-relay, finalize_if-targets}

-- The job's target with this relay has this attempt.
abbrev pub StoredAttempt : RelayId → Digest → Job → Attempt → Type 0
StoredAttempt relay_id id j a =
    (t : Target) × (find (has_relay relay_id) j.targets ≡ some t)
    × (find (λ b. b.id == id) t.attempts ≡ some a)

status_same : (s u : AttemptStatus) → attempt_status_eq s u ≡ true → s ≡ u
status_same s u h = ground arith

reason_same : (o : Option Reason) (r : Reason) → reason_eq o r ≡ true → o ≡ some r
reason_same o r h = ground arith

-- A call of `outcome_on_target` that writes nothing finds the attempt ended so already.
outcome_on_target-before :
    (job : Job) (id : Digest) (outcome : AttemptOutcome) (jitter observed_at : ℕ) (t t' : Target)
    → outcome_on_target job id outcome jitter observed_at t ≡ ok (false, t')
    → (a : Attempt) × (read_attempt t id ≡ ok (some a))
      × (attempt_status_eq a.status (outcome_status outcome) ≡ true)
      × (reason_eq a.reason (outcome_reason outcome) ≡ true)
unfolding outcome_on_target
outcome_on_target-before job id outcome jitter observed_at t t' h =
    let (found, e, e') = >>=-eq-ok (read_attempt t id) _ h in
    let (a, f, f') = >>=-eq-ok (ok_or found binding) _ e' in
    let some_a : found ≡ some a = ground arith in
    (a, e ∙ ap (λ (o : Option Attempt). ok o) some_a, ground arith, ground arith)

-- How an outcome ends an attempt.
abbrev pub EndedBy : AttemptOutcome → Attempt → Attempt → Type 0
EndedBy outcome a a' =
    (a'.status ≡ outcome_status outcome)
    × (a'.reason ≡ some (outcome_reason outcome))
    × (a'.submitted_at ≡ a.submitted_at)

outcome_on_target-stored :
    (job : Job) (id : Digest) (outcome : AttemptOutcome) (jitter observed_at : ℕ) (t : Target)
    (now : Bool) (t' : Target)
    → outcome_on_target job id outcome jitter observed_at t ≡ ok (now, t')
    → (a : Attempt) × (a' : Attempt) × (find (λ b. b.id == id) t.attempts ≡ some a)
      × (find (λ b. b.id == id) t'.attempts ≡ some a')
      × EndedBy outcome a a'
outcome_on_target-stored job id outcome jitter observed_at t now t' h =
    elim (outcome_on_target-eq-ok job id outcome jitter observed_at t now t' h) [
      | inl same ↦
          let (a, read, status, reason) =
            outcome_on_target-before job id outcome jitter observed_at t t' (
              subst (λ b. outcome_on_target job id outcome jitter observed_at t ≡ ok (b, t')) same.0
                h) in
          let (found, _) = read_attempt-found t id a read in
          (
            a,
            a,
            found,
            subst (λ u. find (λ b. b.id == id) u.attempts ≡ some a) (sym same.1) found,
            (
              status_same a.status (outcome_status outcome) status,
              reason_same a.reason (outcome_reason outcome) reason,
              refl,
            ),
          )
      | inr write ↦
          let (a, read, e) = write in
          let (found, _) = read_attempt-found t id a read in
          let again =
            read_attempt-resolved job a id (required_prior outcome a.status)
              (outcome_status outcome) (outcome_reason outcome) jitter observed_at t t' read
              (find_same_id id t.attempts a found) e in
          let (found', _) = read_attempt-found t' id _ again in
          (
            a,
            resolved (outcome_status outcome) (outcome_reason outcome) observed_at a,
            found,
            found',
            (refl, refl, refl),
          )
    ]

-- After `record_outcome`, the attempt is stored with the status and the reason of the outcome.
pub record_outcome-stored :
    (relay_id : RelayId) (id : Digest) (outcome : AttemptOutcome) (jitter observed_at : ℕ)
    (j j' : Job)
    → record_outcome relay_id id outcome jitter observed_at j ≡ ok j'
    → (a : Attempt) × (a' : Attempt) × StoredAttempt relay_id id j a
      × StoredAttempt relay_id id j' a'
      × EndedBy outcome a a'
unfolding record_outcome on_target
record_outcome-stored relay_id id outcome jitter observed_at j j' h =
    let (job, e, e') = >>=-eq-ok (read_job j) _ h in
    let same : job ≡ j = read_job-eq-ok j job e in
    let step : Target → Result OperationError (Bool × Target) =
      outcome_on_target job id outcome jitter observed_at in
    let (r, f, f') = >>=-eq-ok (on_target relay_id step job) _ e' in
    let (s, g, g') = >>=-eq-ok (on_first (has_relay relay_id) binding step job.targets) _ f in
    let er : r ≡ (s.0, record job { targets = s.1 }) = cc in
    let done : finalize_if s.0 observed_at (record job { targets = s.1 }) ≡ ok j' =
      subst (λ x. finalize_if x.0 observed_at x.1 ≡ ok j') er f' in
    let (kept, _) = finalize_if-targets s.0 observed_at (record job { targets = s.1 }) j' done in
    let (t, t', found, stepped, after) =
      on_first-eq-ok (has_relay relay_id) binding step job.targets s.0 s.1 g in
    let relay = outcome_on_target-relay job id outcome jitter observed_at s.0 t t' stepped in
    let found' : find (has_relay relay_id) s.1 ≡ some t' = after (
      subst (λ x. bytes_eq x relay_id ≡ true) (sym relay)
        (find-true (has_relay relay_id) job.targets found)) in
    let (a, a', one, two, ended) =
      outcome_on_target-stored job id outcome jitter observed_at t s.0 t' stepped in
    (
      a,
      a',
      (t, subst (λ x. find (has_relay relay_id) x.targets ≡ some t) same found, one),
      (t', subst (λ ts. find (has_relay relay_id) ts ≡ some t') (sym kept) found', two),
      ended,
    )

submitted_row :
    (at : ℕ) (x y : Attempt)
    → update_one
        (λ a. attempt_is_leased a.status && leb at a.lease_expires_at)
        attempt_legal
        (λ a. record a { status = AttemptStatus.submitted; submitted_at = some at })
        x
      ≡ ok y
    → (y.submitted_at ≡ some at) × (y.id ≡ x.id)
unfolding update_one
submitted_row at x y h = ground arith

submit_attempt-stored :
    (id : Digest) (at : ℕ) (t m : Target)
    → submit_attempt id at t ≡ ok m
    → (a : Attempt) × (find (λ b. b.id == id) m.attempts ≡ some a)
      × (a.submitted_at ≡ some at)
      × (m.relay_id ≡ t.relay_id)
unfolding submit_attempt
submit_attempt-stored id at t m h =
    let (rows, e, e') =
      >>=-eq-ok
        (update_first (λ a. a.id == id) storage
          (update_one (λ a. attempt_is_leased a.status && leb at a.lease_expires_at) attempt_legal
            (λ a. record a { status = AttemptStatus.submitted; submitted_at = some at }))
          t.attempts)
        _ h in
    let written : record t { attempts = rows } ≡ m = ground arith in
    let (x, y, f, s, g) = update_first-eq-ok (λ a. a.id == id) storage _ t.attempts rows e in
    let (when, same) = submitted_row at x y s in
    let hit = find-true (λ (b : Attempt). b.id == id) t.attempts f in
    (
      y,
      subst (λ u. find (λ b. b.id == id) u.attempts ≡ some y) written
          (g (subst (λ n. (n == id) ≡ true) (sym same) hit)),
      when,
      sym (ap (λ (u : Target). u.relay_id) written),
    )

-- A success is a replay of the same submission, or writes the two rows.
submit_on_target-cases :
    (id : Digest) (at : ℕ) (t t' : Target) (a : Attempt)
    → submit_on_target id at t ≡ ok (a, t')
    → ((b : Attempt) × (read_attempt t id ≡ ok (some b))
        × (is_some_of b.submitted_at at ≡ true)
        × (t' ≡ t))
      ⊎ ((m : Target) × (submit_attempt id at t ≡ ok m)
          × (t' ≡ record m { status = TargetStatus.submitted; updated_at = at }))
unfolding submit_on_target submit_target
submit_on_target-cases id at t t' a h = ground arith

some_of : (o : Option ℕ) (n : ℕ) → is_some_of o n ≡ true → o ≡ some n
some_of none n h = cc
some_of (some m) n h = ground arith

submit_on_target-stored :
    (id : Digest) (at : ℕ) (t t' : Target) (a : Attempt)
    → submit_on_target id at t ≡ ok (a, t')
    → (b : Attempt) × (find (λ c. c.id == id) t'.attempts ≡ some b)
      × (b.submitted_at ≡ some at)
      × (t'.relay_id ≡ t.relay_id)
submit_on_target-stored id at t t' a h = elim (submit_on_target-cases id at t t' a h) [
  | inl before ↦
      let (b, read, when, same) = before in
      let (found, _) = read_attempt-found t id b read in
      (
        b,
        subst (λ u. find (λ c. c.id == id) u.attempts ≡ some b) (sym same) found,
        some_of b.submitted_at at when,
        ap (λ (u : Target). u.relay_id) same,
      )
  | inr write ↦
      let (m, e, out) = write in
      let (b, found, when, relay) = submit_attempt-stored id at t m e in
      (
        b,
        subst (λ u. find (λ c. c.id == id) u.attempts ≡ some b) (sym out) found,
        when,
        ap (λ (u : Target). u.relay_id) out ∙ relay,
      )
]

-- After `mark_submitted`, the attempt is stored with the time of its submission.
pub mark_submitted-stored :
    (relay_id : RelayId) (id : Digest) (at : ℕ) (j : Job) (a : Attempt) (j' : Job)
    → mark_submitted relay_id id at j ≡ ok (a, j')
    → (b : Attempt) × StoredAttempt relay_id id j' b × (b.submitted_at ≡ some at)
unfolding mark_submitted on_target
mark_submitted-stored relay_id id at j a j' h =
    let (job, e, e') = >>=-eq-ok (read_job j) _ h in
    let (s, g, g') =
      >>=-eq-ok (on_first (has_relay relay_id) binding (submit_on_target id at) job.targets) _ e' in
    let written : record job { targets = s.1 } ≡ j' = ground arith in
    let (t, t', found, stepped, after) =
      on_first-eq-ok (has_relay relay_id) binding (submit_on_target id at) job.targets s.0 s.1 g in
    let (b, stored, when, relay) = submit_on_target-stored id at t t' s.0 stepped in
    let found' : find (has_relay relay_id) s.1 ≡ some t' = after (
      subst (λ x. bytes_eq x relay_id ≡ true) (sym relay)
        (find-true (has_relay relay_id) job.targets found)) in
    (
      b,
      (
        t',
        subst (λ (k : Job). find (has_relay relay_id) k.targets ≡ some t') written found',
        stored,
      ),
      when,
    )

module _ (derive : Digest → ℕ → ℕ → Digest → Digest) (in_use : Digest → Bool) where
  activate-artifact_digest :
      (at : ℕ) (c : Claim) (j k : Job)
      → activate derive in_use at c j ≡ ok k
      → k.artifact_digest ≡ j.artifact_digest
  unfolding mark_job_active
  activate-artifact_digest at (Claim.claimed a) j k h = ground arith
  activate-artifact_digest at (Claim.exact_replay a) j k h = ground arith
  activate-artifact_digest at Claim.not_ready j k h = ground arith
  activate-artifact_digest at Claim.terminal j k h = ground arith

  claim_live-artifact_digest :
      (relay_id : RelayId) (nonce at : ℕ) (j : Job) (c : Claim) (k : Job)
      → claim_live derive in_use relay_id nonce at j ≡ ok (c, k)
      → k.artifact_digest ≡ j.artifact_digest
  unfolding claim_live on_target
  claim_live-artifact_digest relay_id nonce at j c k h =
      let (r, e, e') =
        >>=-eq-ok (on_target relay_id (claim_on_target derive in_use j nonce at) j) _ h in
      let (s, f, f') =
        >>=-eq-ok
          (on_first (has_relay relay_id) binding (claim_on_target derive in_use j nonce at)
            j.targets)
          _ e in
      let written : (s.0, record j { targets = s.1 }) ≡ r = ground arith in
      let (m, g, g') = >>=-eq-ok (activate derive in_use at r.0 r.1) _ e' in
      let same : m ≡ k = ground arith in
      ap (λ (x : Job). x.artifact_digest) (sym same)
      ∙ (activate-artifact_digest at r.0 r.1 m g
          ∙ ap (λ (x : Claim × Job). x.1.artifact_digest) (sym written))

  -- A claim leaves the artifact's digest.
  pub claim_target-artifact_digest :
      (relay_id : RelayId) (nonce at : ℕ) (j : Job) (c : Claim) (k : Job)
      → claim_target derive in_use relay_id nonce at j ≡ ok (c, k)
      → k.artifact_digest ≡ j.artifact_digest
  unfolding claim_target
  claim_target-artifact_digest relay_id nonce at j c k h =
      let (job, e, e') = >>=-eq-ok (read_job j) _ h in
      let same : job.artifact_digest ≡ j.artifact_digest =
        ap (λ (x : Job). x.artifact_digest) (read_job-eq-ok j job e) in
      elim (Bool-cases (is_terminal job.status)) [
        | inl over ↦
            let given : Result OperationError (Claim × Job) = ok (Claim.terminal, job) in
            let stopped : given ≡ ok (c, k) = rw over at e' in
            let kept : job ≡ k = ground arith in
            ap (λ (x : Job). x.artifact_digest) (sym kept) ∙ same
        | inr live ↦ claim_live-artifact_digest relay_id nonce at job c k (rw live at e') ∙ same
      ]
