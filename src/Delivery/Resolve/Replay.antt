-- ===== src/Delivery/Resolve/Replay.antt =====
-- A call of `record_outcome` that is sent again changes nothing.
use myc.Common.{
  on_first-again, on_first-same, ℕ, ◌≡◌, refl, inl, inr, Bool, true, false, some, List, Result, ok,
  arith, on_first, Bool-cases, >>=-eq-ok, subst, sym, ap, ◌∙◌, bytes_eq,
}
use myc.Delivery.Types.{
  Digest, RelayId, Attempt, AttemptOutcome, Target, Job, OperationError, binding,
}
use myc.Delivery.Rows.{read_job}
use myc.Delivery.Statements.{on_target, read_attempt, has_relay}
use myc.Delivery.Finalize.{finalize_job_if_terminal, finalize_job}
use myc.Delivery.Invariant.{read_job-eq-ok}
use myc.Delivery.Resolve.{
  outcome_on_target, required_prior, outcome_status, outcome_reason, record_outcome, finalize_if,
}
use myc.Delivery.Resolve.Reread.{resolved, read_attempt-found, read_attempt-resolved, find_same_id}
use myc.Delivery.Resolve.Invariant.{
  resolve_attempt_and_target-eq-ok, resolve_attempt-frame, outcome_on_target-eq-ok,
}

-- A resolved attempt with this outcome is a replay.
outcome_on_target-resolved :
    (job : Job) (id : Digest) (outcome : AttemptOutcome) (jitter observed_at : ℕ) (t : Target)
    (a : Attempt)
    → read_attempt t id
      ≡ ok (some (resolved (outcome_status outcome) (outcome_reason outcome) observed_at a))
    → outcome_on_target job id outcome jitter observed_at t ≡ ok (false, t)
unfolding outcome_on_target
outcome_on_target-resolved job id AttemptOutcome.delivered jitter observed_at t a r = ground arith
outcome_on_target-resolved job id AttemptOutcome.relay_rejected jitter observed_at t a r =
    ground arith
outcome_on_target-resolved job id AttemptOutcome.transport_failed jitter observed_at t a r =
    ground arith
outcome_on_target-resolved job id AttemptOutcome.unknown_acknowledgement jitter observed_at t a r =
    ground arith

outcome_on_target-unchanged :
    (job job' : Job) (id : Digest) (outcome : AttemptOutcome) (jitter observed_at : ℕ)
    (t t' : Target)
    → outcome_on_target job id outcome jitter observed_at t ≡ ok (false, t')
    → outcome_on_target job' id outcome jitter observed_at t' ≡ ok (false, t')
unfolding outcome_on_target
outcome_on_target-unchanged job job' id outcome jitter observed_at t t' h = ground arith

-- The work of `record_outcome` on the target again, at the same instant.
outcome_on_target-again :
    (job job' : Job) (id : Digest) (outcome : AttemptOutcome) (jitter observed_at : ℕ) (now : Bool)
    (t t' : Target)
    → outcome_on_target job id outcome jitter observed_at t ≡ ok (now, t')
    → outcome_on_target job' id outcome jitter observed_at t' ≡ ok (false, t')
outcome_on_target-again job job' id outcome jitter observed_at now t t' h =
    elim (outcome_on_target-eq-ok job id outcome jitter observed_at t now t' h) [
      | inl same ↦
          outcome_on_target-unchanged job job' id outcome jitter observed_at t t' (
            subst (λ b. outcome_on_target job id outcome jitter observed_at t ≡ ok (b, t')) same.0
              h)
      | inr write ↦
          let (a, read, e) = write in
          let (found, parsed) = read_attempt-found t id a read in
          outcome_on_target-resolved job' id outcome jitter observed_at t' a (
            read_attempt-resolved job a id (required_prior outcome a.status)
              (outcome_status outcome) (outcome_reason outcome) jitter observed_at t t' read
              (find_same_id id t.attempts a found) e)
    ]

pub outcome_on_target-relay :
    (job : Job) (id : Digest) (outcome : AttemptOutcome) (jitter observed_at : ℕ) (now : Bool)
    (t t' : Target)
    → outcome_on_target job id outcome jitter observed_at t ≡ ok (now, t')
    → t'.relay_id ≡ t.relay_id
outcome_on_target-relay job id outcome jitter observed_at now t t' h =
    elim (outcome_on_target-eq-ok job id outcome jitter observed_at t now t' h) [
      | inl same ↦ ap (λ x. x.relay_id) same.1
      | inr write ↦
          let (a, read, e) = write in
          let (m, em, _, _, _, out) =
            resolve_attempt_and_target-eq-ok job a (required_prior outcome a.status)
              (outcome_status outcome) (outcome_reason outcome) jitter observed_at t t' e in
          let frame =
            resolve_attempt-frame a.id (required_prior outcome a.status) (outcome_status outcome)
              (outcome_reason outcome) observed_at t m em in
          ground arith
    ]

outcome_on_target-same :
    (job : Job) (id : Digest) (outcome : AttemptOutcome) (jitter observed_at : ℕ) (t t' : Target)
    → outcome_on_target job id outcome jitter observed_at t ≡ ok (false, t')
    → t' ≡ t
unfolding outcome_on_target
outcome_on_target-same job id outcome jitter observed_at t t' h = ground arith

pub finalize_if-targets :
    (now : Bool) (observed_at : ℕ) (k j' : Job)
    → finalize_if now observed_at k ≡ ok j'
    → (j'.targets ≡ k.targets) × (now ≡ true → read_job j' ≡ ok j')
unfolding finalize_job_if_terminal finalize_job read_job
finalize_if-targets true observed_at k j' h = ground arith
finalize_if-targets false observed_at k j' h = ground arith

record_outcome-replay :
    (relay_id : RelayId) (id : Digest) (outcome : AttemptOutcome) (jitter observed_at : ℕ) (j : Job)
    → read_job j ≡ ok j
    → on_first
        (has_relay relay_id)
        binding
        (outcome_on_target j id outcome jitter observed_at)
        j.targets
      ≡ ok (false, j.targets)
    → record_outcome relay_id id outcome jitter observed_at j ≡ ok j
unfolding record_outcome on_target
record_outcome-replay relay_id id outcome jitter observed_at j e f = simp (e, f) refl

-- Without a resolution now, the job is the one that was read.
unresolved_same :
    (relay_id : RelayId) (id : Digest) (outcome : AttemptOutcome) (jitter observed_at : ℕ)
    (job j' : Job) (ts : List Target)
    → on_first
        (has_relay relay_id)
        binding
        (outcome_on_target job id outcome jitter observed_at)
        job.targets
      ≡ ok (false, ts)
    → finalize_if false observed_at (record job { targets = ts }) ≡ ok j'
    → j' ≡ job
unresolved_same relay_id id outcome jitter observed_at job j' ts f g =
    let same =
      on_first-same (has_relay relay_id) binding
        (outcome_on_target job id outcome jitter observed_at) false job.targets ts
        (outcome_on_target-same job id outcome jitter observed_at) f in
    let out : record job { targets = ts } ≡ j' = cc in
    sym out ∙ ap (λ x. record job { targets = x }) same

-- `record_outcome` sent again, with the same arguments and on the state that it left, succeeds and
-- changes nothing.
pub record_outcome-again :
    (relay_id : RelayId) (attempt_id : Digest) (outcome : AttemptOutcome) (jitter observed_at : ℕ)
    (j j' : Job)
    → record_outcome relay_id attempt_id outcome jitter observed_at j ≡ ok j'
    → record_outcome relay_id attempt_id outcome jitter observed_at j' ≡ ok j'
unfolding record_outcome on_target
record_outcome-again relay_id attempt_id outcome jitter observed_at j j' h =
    let (job, e, e') = >>=-eq-ok (read_job j) _ h in
    let step : Job → Target → Result OperationError (Bool × Target) =
      λ k. outcome_on_target k attempt_id outcome jitter observed_at in
    let (r, f, f') = >>=-eq-ok (on_target relay_id (step job) job) _ e' in
    let (s, g, g') = >>=-eq-ok (on_first (has_relay relay_id) binding (step job) job.targets) _ f in
    let er : r ≡ (s.0, record job { targets = s.1 }) = cc in
    let f'' : finalize_if s.0 observed_at (record job { targets = s.1 }) ≡ ok j' =
      subst (λ x. finalize_if x.0 observed_at x.1 ≡ ok j') er f' in
    let (targets, read) =
      finalize_if-targets s.0 observed_at (record job { targets = s.1 }) j' f'' in
    let again : on_first (has_relay relay_id) binding (step j') s.1 ≡ ok (false, s.1) =
      on_first-again (has_relay relay_id) binding (step job) (step j') s.0 false job.targets s.1
        (λ x y w hit. (
          subst (λ id. bytes_eq id relay_id ≡ true)
              (sym (outcome_on_target-relay job attempt_id outcome jitter observed_at s.0 x y w))
              hit,
          outcome_on_target-again job j' attempt_id outcome jitter observed_at s.0 x y w,
        ))
        g in
    let valid : read_job j' ≡ ok j' = elim (Bool-cases s.0) [
      | inl now ↦ read now
      | inr before ↦
          let same =
            unresolved_same relay_id attempt_id outcome jitter observed_at job j' s.1
              (subst
                (λ b. on_first (has_relay relay_id) binding (step job) job.targets ≡ ok (b, s.1))
                before g)
              (subst (λ b. finalize_if b observed_at (record job { targets = s.1 }) ≡ ok j') before
                f'') in
          subst (λ x. read_job x ≡ ok x) (sym same)
            (subst (λ x. read_job x ≡ ok job) (sym (read_job-eq-ok j job e)) e)
    ] in
    record_outcome-replay relay_id attempt_id outcome jitter observed_at j' valid (
      subst (λ ts. on_first (has_relay relay_id) binding (step j') ts ≡ ok (false, ts))
        (sym targets) again)
