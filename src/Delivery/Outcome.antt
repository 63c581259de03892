-- ===== src/Delivery/Outcome.antt =====
-- The status of a job tells exactly how its policy stands, in every state that the calls reach.
use myc.Common.{
  ℕ, ◌≡◌, refl, sym, ◌∙◌, ◌⊎◌, inl, inr, Bool, true, false, ap, Result, ok, arith, >>=-eq-ok,
  Bool-cases,
}
use myc.Delivery.Types.{
  Digest, OperationError, RelayId, Claim, Attempt, AttemptOutcome, Target, Job, JobStatus,
  is_terminal,
}
use myc.Delivery.Rows.{read_job}
use myc.Delivery.Statements.{on_target}
use myc.Delivery.Claim.{claim_target, claim_on_target, claim_live, mark_job_active, activate}
use myc.Delivery.Submit.{mark_submitted, submit_on_target}
use myc.Delivery.Finalize.{
  is_delivered, is_possible, finalize_job, finalize_job_if_terminal, terminal_status,
}
use myc.Delivery.Resolve.{
  record_outcome, recover_expired, outcome_on_target, recover_on_target, finalize_if,
}
use myc.Delivery.Invariant.{read_job-eq-ok}
use myc.Delivery.Progress.{
  Advances, Keeps, claim_on_target-Keeps, submit_on_target-Keeps, outcome_on_target-Advances,
  recover_on_target-Advances, outcome_on_target-Keeps, recover_on_target-Keeps,
}
use myc.Delivery.Standing.{
  JobAdvances, JobKeeps, is_delivered-JobAdvances, is_possible-JobAdvances, is_delivered-JobKeeps,
  is_possible-JobKeeps, on_target-JobAdvances, on_target-JobKeeps, on_target-status,
  is_possible-is_delivered,
}
use myc.Delivery.Lifecycle.{Step, Reach, claims, submits, records, recovers, here, next}

pub record Decided (j : Job) : Type 0 where
  pub while_open : is_terminal j.status ≡ false → (is_delivered j ≡ false) × (is_possible j ≡ true)
  pub when_delivered : j.status ≡ JobStatus.delivered → is_delivered j ≡ true
  pub when_failed : j.status ≡ JobStatus.failed → is_possible j ≡ false
  pub when_unknown : j.status ≡ JobStatus.unknown → is_possible j ≡ false

-- A job that ended keeps its status and the time at which it ended.
abbrev pub Ended : Job → Job → Type 0
Ended j j' =
    is_terminal j.status ≡ true → (j'.status ≡ j.status) × (j'.finalized_at ≡ j.finalized_at)

-- What a call that is no outcome does to the standing: nothing.
keeps-Decided :
    (j j' : Job)
    → JobKeeps j j'
    → is_terminal j'.status ≡ is_terminal j.status
    → Ended j j'
    → Decided j
    → Decided j'
keeps-Decided j j' k same e v =
    ground (arith, is_delivered-JobKeeps j j' k, is_possible-JobKeeps j j' k)

-- Before the job is finalized: the status lags behind, and never runs ahead.
record Lagging (j : Job) : Type 0 where
  lag_delivered : j.status ≡ JobStatus.delivered → is_delivered j ≡ true
  lag_failed : j.status ≡ JobStatus.failed → is_possible j ≡ false
  lag_unknown : j.status ≡ JobStatus.unknown → is_possible j ≡ false

advances-Lagging : (j j' : Job) → JobAdvances j j' → j'.status ≡ j.status → Decided j → Lagging j'
advances-Lagging j j' a s v =
    ground (arith, is_delivered-JobAdvances j j' a, is_possible-JobAdvances j j' a)

-- Finalizing brings the status up to date.
finalize-Decided :
    (observed_at : ℕ) (j j' : Job)
    → finalize_job_if_terminal observed_at j ≡ ok j'
    → Lagging j
    → Decided j'
unfolding finalize_job_if_terminal finalize_job terminal_status read_job is_possible is_delivered
finalize-Decided observed_at j j' h v = ground (arith, is_possible-is_delivered j)

finalize-Ended :
    (observed_at : ℕ) (j j' : Job) → finalize_job_if_terminal observed_at j ≡ ok j' → Ended j j'
unfolding finalize_job_if_terminal finalize_job read_job
finalize-Ended observed_at j j' h = ground arith

module _ (derive : Digest → ℕ → ℕ → Digest → Digest) (in_use : Digest → Bool) where
  activate-JobKeeps :
      (claimed_at : ℕ) (c : Claim) (j k j' : Job)
      → JobKeeps j k
      → activate derive in_use claimed_at c k ≡ ok j'
      → is_terminal k.status ≡ false
      → JobKeeps j j' × (is_terminal j'.status ≡ false)
  unfolding mark_job_active
  activate-JobKeeps claimed_at c j k j' v h o = ground arith

  claim_target-eq-ok :
      (relay_id : RelayId) (nonce claimed_at : ℕ) (j : Job) (c : Claim) (j' : Job)
      → claim_target derive in_use relay_id nonce claimed_at j ≡ ok (c, j')
      → ((is_terminal j.status ≡ true) × (j' ≡ j))
        ⊎ ((k : Job) × (is_terminal j.status ≡ false)
            × (on_target relay_id (claim_on_target derive in_use j nonce claimed_at) j ≡ ok (c, k))
            × (activate derive in_use claimed_at c k ≡ ok j'))
  unfolding claim_target read_job
  claim_target-eq-ok relay_id nonce claimed_at j c j' h = elim (Bool-cases (is_terminal j.status)) [
    | inl ended ↦ inl (ended, ground arith)
    | inr live ↦
        let chain : claim_live derive in_use relay_id nonce claimed_at j ≡ ok (c, j') =
          ground arith in
        let (r, e, h') =
          >>=-eq-ok (on_target relay_id (claim_on_target derive in_use j nonce claimed_at) j) _
            chain in
        let (a, e', h'') = >>=-eq-ok (activate derive in_use claimed_at r.0 r.1) _ h' in
        inr (r.1, live, cc, cc)
  ]

  claim_target-Decided :
      (relay_id : RelayId) (nonce claimed_at : ℕ) (j : Job) (c : Claim) (j' : Job)
      → claim_target derive in_use relay_id nonce claimed_at j ≡ ok (c, j')
      → Decided j
      → Decided j' × Ended j j'
  claim_target-Decided relay_id nonce claimed_at j c j' h v =
      elim (claim_target-eq-ok relay_id nonce claimed_at j c j' h) [
        | inl ended ↦ ground arith
        | inr live ↦
            let (k, o, e, a) = live in
            let (es, ef) = on_target-status relay_id _ j c k e in
            let kept =
              on_target-JobKeeps relay_id _ j c k e
                (λ t t'. claim_on_target-Keeps derive in_use j nonce claimed_at t c t') in
            let (keeps, still) = activate-JobKeeps claimed_at c j k j' kept a (rw es o) in
            let ends : Ended j j' = ground arith in
            (keeps-Decided j j' keeps (still ∙ sym o) ends v, ends)
      ]

mark_submitted-Decided :
    (relay_id : RelayId) (attempt_id submitted_at : ℕ) (row : Job) (a : Attempt) (j' : Job)
    → mark_submitted relay_id attempt_id submitted_at row ≡ ok (a, j')
    → Decided row
    → Decided j' × Ended row j'
unfolding mark_submitted
mark_submitted-Decided relay_id attempt_id submitted_at row a j' h v =
    let (j, r, h') = >>=-eq-ok (read_job row) _ h in
    let same = read_job-eq-ok row j r in
    let e : on_target relay_id (submit_on_target attempt_id submitted_at) row ≡ ok (a, j') =
      rw same at h' in
    let (es, ef) = on_target-status relay_id _ row a j' e in
    let kept =
      on_target-JobKeeps relay_id _ row a j' e
        (λ t t'. submit_on_target-Keeps row.max_attempts attempt_id submitted_at t a t') in
    (keeps-Decided row j' kept (ap is_terminal es) (λ _. (es, ef)) v, λ _. (es, ef))

-- A target's rows change, then the job is finalized unless the call is a replay.
settle-Decided :
    (relay_id : RelayId) (step : Target → Result OperationError (Bool × Target)) (observed_at : ℕ)
    (j : Job) (now : Bool) (k j' : Job)
    → ((t t' : Target) → step t ≡ ok (now, t') → Advances j.max_attempts t t')
    → ((t t' : Target) → step t ≡ ok (false, t') → Keeps j.max_attempts t t')
    → on_target relay_id step j ≡ ok (now, k)
    → finalize_if now observed_at k ≡ ok j'
    → Decided j
    → Decided j' × Ended j j'
settle-Decided relay_id step observed_at j false k j' adv keep e f v =
    let (es, ef) = on_target-status relay_id step j false k e in
    let kept = on_target-JobKeeps relay_id step j false k e keep in
    ground (arith, keeps-Decided j k kept (ap is_terminal es) (λ _. (es, ef)) v)
settle-Decided relay_id step observed_at j true k j' adv keep e f v =
    let (es, ef) = on_target-status relay_id step j true k e in
    let advances = on_target-JobAdvances relay_id step j true k e adv in
    (
      finalize-Decided observed_at k j' f (advances-Lagging j k advances es v),
      λ ended. ground (arith, finalize-Ended observed_at k j' f),
    )

record_outcome-Decided :
    (relay_id : RelayId) (attempt_id : Digest) (outcome : AttemptOutcome) (jitter observed_at : ℕ)
    (row j' : Job)
    → record_outcome relay_id attempt_id outcome jitter observed_at row ≡ ok j'
    → Decided row
    → Decided j' × Ended row j'
unfolding record_outcome
record_outcome-Decided relay_id attempt_id outcome jitter observed_at row j' h v =
    let (j, r, h') = >>=-eq-ok (read_job row) _ h in
    let same = sym (read_job-eq-ok row j r) in
    let (p, e, f) = >>=-eq-ok (on_target relay_id _ j) _ h' in
    rw same (
      settle-Decided relay_id (outcome_on_target j attempt_id outcome jitter observed_at)
        observed_at j p.0 p.1 j'
        (λ t t'. outcome_on_target-Advances j attempt_id outcome jitter observed_at t p.0 t')
        (outcome_on_target-Keeps j attempt_id outcome jitter observed_at) e f (rw same at v))

recover_expired-Decided :
    (relay_id : RelayId) (attempt_id : Digest) (jitter observed_at : ℕ) (row j' : Job)
    → recover_expired relay_id attempt_id jitter observed_at row ≡ ok j'
    → Decided row
    → Decided j' × Ended row j'
unfolding recover_expired
recover_expired-Decided relay_id attempt_id jitter observed_at row j' h v =
    let (j, r, h') = >>=-eq-ok (read_job row) _ h in
    let same = sym (read_job-eq-ok row j r) in
    let (p, e, f) = >>=-eq-ok (on_target relay_id _ j) _ h' in
    rw same (
      settle-Decided relay_id (recover_on_target j attempt_id jitter observed_at) observed_at j p.0
        p.1 j' (λ t t'. recover_on_target-Advances j attempt_id jitter observed_at t p.0 t')
        (recover_on_target-Keeps j attempt_id jitter observed_at) e f (rw same at v))

module _ (derive : Digest → ℕ → ℕ → Digest → Digest) where
  Step-Decided : (j j' : Job) → Step derive j j' → Decided j → Decided j' × Ended j j'
  Step-Decided j j' (claims in_use relay_id nonce claimed_at c h) v =
      claim_target-Decided derive in_use relay_id nonce claimed_at j c j' h v
  Step-Decided j j' (submits relay_id attempt_id submitted_at a h) v =
      mark_submitted-Decided relay_id attempt_id submitted_at j a j' h v
  Step-Decided j j' (records relay_id attempt_id outcome jitter observed_at h) v =
      record_outcome-Decided relay_id attempt_id outcome jitter observed_at j j' h v
  Step-Decided j j' (recovers relay_id attempt_id jitter observed_at h) v =
      recover_expired-Decided relay_id attempt_id jitter observed_at j j' h v

  -- Whatever the order of the calls, a pending or active job has too few acknowledgements and can
  -- still get enough; a delivered one has enough; a failed or unknown one can never get enough.
  pub Reach-Decided : {j j' : Job} → Decided j → Reach derive j j' → Decided j'
  Reach-Decided v here = v
  Reach-Decided v (next r s) = (Step-Decided _ _ s (Reach-Decided v r)).0

  -- Whatever calls follow, a job that ended keeps its status and the time at which it ended.
  pub Reach-Ended : {j j' : Job} → Decided j → Reach derive j j' → Ended j j'
  Reach-Ended v here ended = (refl, refl)
  Reach-Ended v (next {k} {l} r s) ended =
      let (status, time) = Reach-Ended v r ended in
      let (status', time') = (Step-Decided _ _ s (Reach-Decided v r)).1 (rw status ended) in
      (status' ∙ status, time' ∙ time)
