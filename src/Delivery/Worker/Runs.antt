-- ===== src/Delivery/Worker/Runs.antt =====
-- The courses that a run of the worker can take, from the calls of the repository that it makes.
use myc.Common.{
  ℕ, ◌≡◌, ◌≢◌, inl, inr, Bool, not, ◌||◌, Bool-cases, refl, sym, subst, List, [], ◌∷◌, Result, ok,
  err,
}
use myc.Delivery.Types.{
  Digest, RelayId, OperationError, AttemptOutcome, Attempt, Job, Claim, claimed,
}
use myc.Delivery.Rows.{read_job}
use myc.Delivery.Invariant.{read_job-eq-ok}
use myc.Delivery.Claim.{claim_target}
use myc.Delivery.Submit.{mark_submitted}
use myc.Delivery.Resolve.{record_outcome}
use myc.Delivery.Lifecycle.{Reach, claims, here, next}
use myc.Delivery.Worker.{
  WorkerError, WorkerResult, completed, Surroundings, Evidence, Request, Run, recorded,
  persist_with, persist_outcome, execute, execute_submitted, execution_outcome, attempt_request,
  deliver_event, deliver_read, deliver_claimed, read_exact_event, claim_result, after_claim,
  run_with_adapter,
}

module _ (derive : Digest → ℕ → ℕ → Digest → Digest) (in_use : Digest → Bool) (env : Surroundings)
    (relay_id : RelayId) (nonce : Digest) (ev : Evidence) (start : Job) where
  -- The run's claim took this attempt and left this job.
  abbrev pub Claims : Attempt → Job → Type 0
  Claims a k = claim_target derive in_use relay_id nonce ev.claimed_at start ≡ ok (claimed a, k)

  -- A run records no outcome; or it gives up with nothing asked of the relay; or it submits, asks, and
  -- fails to record the answer; or it records it.
  pub data Course (run : Run) : Type 0 where
    quiet :
        Reach derive start run.job
        → run.executed ≡ []
        → ((k : Job) → run.result ≢ ok (completed k))
        → Course run
    gives_up :
        (a : Attempt) (k : Job) (jitter : ℕ)
        → Claims a k
        → record_outcome relay_id a.id AttemptOutcome.transport_failed jitter ev.observed_at k
          ≡ ok run.job
        → run.executed ≡ []
        → run.result ≡ ok (completed run.job)
        → Course run
    unrecorded :
        (a : Attempt) (k : Job) (bytes : List ℕ) (b : Attempt)
        → Claims a k
        → read_exact_event env k ≡ ok bytes
        → mark_submitted relay_id a.id ev.submitted_at k ≡ ok (b, run.job)
        → run.executed ≡ attempt_request relay_id k a bytes ∷ []
        → ((l : Job) → run.result ≢ ok (completed l))
        → Course run
    answered :
        (a : Attempt) (k : Job) (bytes : List ℕ) (b : Attempt) (m : Job) (jitter : ℕ)
        → Claims a k
        → read_exact_event env k ≡ ok bytes
        → mark_submitted relay_id a.id ev.submitted_at k ≡ ok (b, m)
        → record_outcome relay_id a.id
            (execution_outcome (env.executes (attempt_request relay_id k a bytes)))
            jitter
            ev.observed_at
            m
          ≡ ok run.job
        → run.executed ≡ attempt_request relay_id k a bytes ∷ []
        → run.result ≡ ok (completed run.job)
        → Course run

  Claims-Reach : (a : Attempt) (k : Job) → Claims a k → Reach derive start k
  Claims-Reach a k h = next here (claims in_use relay_id nonce ev.claimed_at (claimed a) h)

  refused_outcome :
      (e : WorkerError) (k : Job)
      → ◌≢◌ {A = Result WorkerError WorkerResult} (err e) (ok (completed k))
  refused_outcome e k h = cc

  gives_up-recorded :
      (a : Attempt) (k : Job) (jitter : ℕ) (x : Result OperationError Job)
      → Claims a k
      → record_outcome relay_id a.id AttemptOutcome.transport_failed jitter ev.observed_at k ≡ x
      → Course (recorded [] k x)
  gives_up-recorded a k jitter (ok after) c e = gives_up a k jitter c e refl refl
  gives_up-recorded a k jitter (err x) c e =
      quiet (Claims-Reach a k c) refl (refused_outcome WorkerError.state)

  gives_up-persisted :
      (a : Attempt) (k : Job) (x : Result WorkerError ℕ)
      → Claims a k
      → Course (persist_with relay_id AttemptOutcome.transport_failed a ev [] k x)
  gives_up-persisted a k (err e) c = quiet (Claims-Reach a k c) refl (refused_outcome e)
  gives_up-persisted a k (ok jitter) c = gives_up-recorded a k jitter _ c refl

  module _ (a : Attempt) (k : Job) (bytes : List ℕ) (b : Attempt) (m : Job) (c : Claims a k)
      (exact : read_exact_event env k ≡ ok bytes)
      (marked : mark_submitted relay_id a.id ev.submitted_at k ≡ ok (b, m)) where
    abbrev asked : Request
    asked = attempt_request relay_id k a bytes

    answered-recorded :
        (jitter : ℕ) (x : Result OperationError Job)
        → record_outcome relay_id a.id
            (execution_outcome (env.executes asked))
            jitter
            ev.observed_at
            m
          ≡ x
        → Course (recorded (asked ∷ []) m x)
    answered-recorded jitter (ok after) e = answered a k bytes b m jitter c exact marked e refl refl
    answered-recorded jitter (err x) e =
        unrecorded a k bytes b c exact marked refl (refused_outcome WorkerError.state)

    answered-persisted :
        (x : Result WorkerError ℕ)
        → Course
            (persist_with relay_id (execution_outcome (env.executes asked)) a ev (asked ∷ []) m x)
    answered-persisted (err e) = unrecorded a k bytes b c exact marked refl (refused_outcome e)
    answered-persisted (ok jitter) = answered-recorded jitter _ refl

  execute_submitted-Course :
      (a : Attempt) (k : Job) (bytes : List ℕ) (x : Result OperationError (Attempt × Job))
      → Claims a k
      → read_exact_event env k ≡ ok bytes
      → mark_submitted relay_id a.id ev.submitted_at k ≡ x
      → Course (execute_submitted env relay_id ev k a (attempt_request relay_id k a bytes) k x)
  unfolding execute persist_outcome
  execute_submitted-Course a k bytes (err e) c exact marked =
      quiet (Claims-Reach a k c) refl (refused_outcome WorkerError.state)
  execute_submitted-Course a k bytes (ok (b, m)) c exact marked =
      answered-persisted a k bytes b m c exact marked _

  deliver_event-Course :
      (a : Attempt) (k : Job) (x : Result WorkerError (List ℕ))
      → Claims a k
      → read_exact_event env k ≡ x
      → Course (deliver_event env relay_id ev a k k x)
  unfolding persist_outcome
  deliver_event-Course a k (err e) c exact = quiet (Claims-Reach a k c) refl (refused_outcome e)
  deliver_event-Course a k (ok bytes) c exact =
      elim (Bool-cases (
        not (env.prepares (attempt_request relay_id k a bytes))
        || env.cancelled_before_submission)) [
          | inl given_up ↦ rw given_up (gives_up-persisted a k _ c)
          | inr goes_on ↦ rw goes_on (execute_submitted-Course a k bytes _ c exact refl)
        ]

  deliver_read-Course :
      (a : Attempt) (k : Job) (x : Result OperationError Job)
      → Claims a k
      → read_job k ≡ x
      → Course (deliver_read env relay_id ev a k x)
  deliver_read-Course a k (err e) c read =
      quiet (Claims-Reach a k c) refl (refused_outcome WorkerError.state)
  deliver_read-Course a k (ok job) c read =
      subst (λ z. Course (deliver_event env relay_id ev a k z (read_exact_event env z)))
        (sym (read_job-eq-ok k job read)) (deliver_event-Course a k _ c refl)

  after_claim-Course :
      (c : Claim) (k : Job)
      → claim_target derive in_use relay_id nonce ev.claimed_at start ≡ ok (c, k)
      → Course (after_claim env relay_id ev c k)
  unfolding deliver_claimed
  after_claim-Course (Claim.claimed a) k h = deliver_read-Course a k _ h refl
  after_claim-Course (Claim.exact_replay a) k h =
      quiet (next here (claims in_use relay_id nonce ev.claimed_at _ h)) refl (λ l e. cc)
  after_claim-Course Claim.not_ready k h =
      quiet (next here (claims in_use relay_id nonce ev.claimed_at _ h)) refl (λ l e. cc)
  after_claim-Course Claim.terminal k h =
      quiet (next here (claims in_use relay_id nonce ev.claimed_at _ h)) refl (λ l e. cc)

  claim_result-Course :
      (x : Result OperationError (Claim × Job))
      → claim_target derive in_use relay_id nonce ev.claimed_at start ≡ x
      → Course (claim_result env relay_id ev start x)
  claim_result-Course (err x) e = quiet here refl (refused_outcome WorkerError.state)
  claim_result-Course (ok (c, k)) e = after_claim-Course c k e

  pub run_with_adapter-Course : Course (run_with_adapter derive in_use env relay_id nonce ev start)
  unfolding run_with_adapter
  run_with_adapter-Course = elim (Bool-cases env.cancelled_at_start) [
    | inl stop ↦ simp stop (quiet here refl (λ l e. cc))
    | inr go ↦ simp go (claim_result-Course _ refl)
  ]
