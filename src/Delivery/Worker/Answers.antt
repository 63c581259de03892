-- ===== src/Delivery/Worker/Answers.antt =====
-- What a run of the worker asks of the relay, and what it records of the answer.
use myc.Common.{
  same_some, ℕ, ◌≤◌, ◌≡◌, ◌⊎◌, inl, inr, refl, sym, subst, ap, ◌∙◌, Option, none, some, List, [],
  ◌∷◌, Result, ok, Bool, All, ◌==◌, find, length, arith,
}
use myc.Delivery.Types.{Digest, RelayId, AttemptStatus, AttemptOutcome, Reason, Attempt, Job}
use myc.Delivery.Statements.{has_relay}
use myc.Delivery.Resolve.{outcome_status, outcome_reason}
use myc.Delivery.Lifecycle.{Reach, claims, submits, records, here, next}
use myc.Delivery.Worker.{
  WorkerError, WorkerResult, completed, ExecutionOutcome, Surroundings, Evidence, Request, Run,
  execution_outcome, attempt_request, read_exact_event, run_with_adapter,
}
use myc.Delivery.Worker.Stored.{
  StoredAttempt, EndedBy, record_outcome-stored, mark_submitted-stored,
  claim_target-artifact_digest,
}
use myc.Delivery.Worker.Runs.{
  Claims, Course, quiet, gives_up, unrecorded, answered, run_with_adapter-Course,
}

-- The attempt's row says what the relay answered; an answer that did not come is a lost one.
abbrev pub Recorded : Option ExecutionOutcome → Attempt → Type 0
Recorded (some ExecutionOutcome.accepted) a =
    (a.status ≡ AttemptStatus.delivered) × (a.reason ≡ some Reason.accepted)
Recorded (some ExecutionOutcome.rejected) a =
    (a.status ≡ AttemptStatus.failed) × (a.reason ≡ some Reason.relay_rejected)
Recorded (some ExecutionOutcome.transport_failed) a =
    (a.status ≡ AttemptStatus.failed) × (a.reason ≡ some Reason.transport_failed)
Recorded (some ExecutionOutcome.unknown_acknowledgement) a =
    (a.status ≡ AttemptStatus.unknown) × (a.reason ≡ some Reason.acknowledgement_lost)
Recorded none a = (a.status ≡ AttemptStatus.unknown) × (a.reason ≡ some Reason.acknowledgement_lost)

EndedBy-Recorded :
    (answer : Option ExecutionOutcome) (a a' : Attempt)
    → EndedBy (execution_outcome answer) a a'
    → Recorded answer a'
unfolding execution_outcome outcome_status outcome_reason
EndedBy-Recorded none a a' v = (v.0, v.1)
EndedBy-Recorded (some ExecutionOutcome.accepted) a a' v = (v.0, v.1)
EndedBy-Recorded (some ExecutionOutcome.rejected) a a' v = (v.0, v.1)
EndedBy-Recorded (some ExecutionOutcome.transport_failed) a a' v = (v.0, v.1)
EndedBy-Recorded (some ExecutionOutcome.unknown_acknowledgement) a a' v = (v.0, v.1)

EndedBy-failed :
    (a a' : Attempt)
    → EndedBy AttemptOutcome.transport_failed a a'
    → Recorded (some ExecutionOutcome.transport_failed) a'
unfolding outcome_status outcome_reason
EndedBy-failed a a' v = (v.0, v.1)

-- The exact event is what is stored, and it has the job's digest.
read_exact_event-ok :
    (env : Surroundings) (job : Job) (bytes : List ℕ)
    → read_exact_event env job ≡ ok bytes
    → (env.stored job ≡ ok bytes) × (env.sha256 bytes ≡ job.artifact_digest)
unfolding read_exact_event
read_exact_event-ok env job bytes h = ground arith

-- An attempt is stored once.
StoredAttempt-unique :
    (relay_id : RelayId) (id : Digest) (j : Job) (a b : Attempt)
    → StoredAttempt relay_id id j a
    → StoredAttempt relay_id id j b
    → a ≡ b
StoredAttempt-unique relay_id id j a b (t, f, g) (u, f', g') =
    let same : t ≡ u = same_some (find (has_relay relay_id) j.targets) t u f f' in
    same_some (find (λ c. c.id == id) t.attempts) a b g
      (subst (λ x. find (λ c. c.id == id) x.attempts ≡ some b) (sym same) g')

same_completed :
    (j k : Job)
    → ◌≡◌ {A = Result WorkerError WorkerResult} (ok (completed j)) (ok (completed k))
    → j ≡ k
same_completed j k h = cc

module _ (derive : Digest → ℕ → ℕ → Digest → Digest) (in_use : Digest → Bool) (env : Surroundings)
    (relay_id : RelayId) (nonce : Digest) (ev : Evidence) (start : Job) where
  -- The request carries the stored event, which has the digest of the job's artifact, to this relay; and
  -- the job stores its attempt as submitted at the run's time of submission.
  abbrev pub IsCovered : Job → Request → Type 0
  IsCovered left q =
      (env.sha256 q.event_bytes ≡ start.artifact_digest)
      × (q.relay_id ≡ relay_id)
      × ((a : Attempt) × StoredAttempt relay_id q.attempt_id left a
          × (a.submitted_at ≡ some ev.submitted_at))

  digest_of :
      (a : Attempt) (k : Job) (bytes : List ℕ)
      → Claims derive in_use env relay_id nonce ev start a k
      → read_exact_event env k ≡ ok bytes
      → env.sha256 bytes ≡ start.artifact_digest
  digest_of a k bytes c exact =
      (read_exact_event-ok env k bytes exact).1
      ∙ claim_target-artifact_digest derive in_use relay_id nonce ev.claimed_at start _ k c

  -- Whatever a run has asked, at its end.
  abbrev pub Asked : Run → Type 0
  Asked run =
      Reach derive start run.job × (length run.executed ≤ 1) × All (IsCovered run.job) run.executed

  Course-Asked : (run : Run) → Course derive in_use env relay_id nonce ev start run → Asked run
  Course-Asked run (quiet reach silent _) = (reach, rw silent (omega arith), rw silent tt)
  Course-Asked run (gives_up a k jitter c e silent _) = (
    next (next here (claims in_use relay_id nonce ev.claimed_at _ c))
        (records relay_id a.id _ jitter ev.observed_at e),
    rw silent (omega arith),
    rw silent tt,
  )
  Course-Asked run (unrecorded a k bytes b c exact marked one _) =
      let (d, stored, when) =
        mark_submitted-stored relay_id a.id ev.submitted_at k b run.job marked in
      (
        next (next here (claims in_use relay_id nonce ev.claimed_at _ c))
            (submits relay_id a.id ev.submitted_at b marked),
        rw one (omega arith),
        subst (All (IsCovered run.job)) (sym one)
            ((digest_of a k bytes c exact, refl, (d, stored, when)), tt),
      )
  Course-Asked run (answered a k bytes b m jitter c exact marked e one _) =
      let (d, stored, when) = mark_submitted-stored relay_id a.id ev.submitted_at k b m marked in
      let (x, y, before, after, ended) =
        record_outcome-stored relay_id a.id _ jitter ev.observed_at m run.job e in
      (
        next
            (next (next here (claims in_use relay_id nonce ev.claimed_at _ c))
              (submits relay_id a.id ev.submitted_at b marked))
            (records relay_id a.id _ jitter ev.observed_at e),
        rw one (omega arith),
        subst (All (IsCovered run.job)) (sym one) (
          (
            digest_of a k bytes c exact,
            refl,
            (
              y,
              after,
              ended.2
                  ∙ (ap (λ (z : Attempt). z.submitted_at)
                        (StoredAttempt-unique relay_id a.id m x d before stored)
                      ∙ when),
            ),
          ),
          tt,
        ),
      )

  -- Whatever its surroundings do, a run leaves a state that the calls of the repository reach from where
  -- it started. It asks the relay at most once, with bytes that have the digest of the job's artifact, and
  -- of an attempt that the state stores as submitted at the run's time of submission.
  pub run_with_adapter-Asked : Asked (run_with_adapter derive in_use env relay_id nonce ev start)
  run_with_adapter-Asked =
      Course-Asked (run_with_adapter derive in_use env relay_id nonce ev start)
        (run_with_adapter-Course derive in_use env relay_id nonce ev start)

  -- What a run that completes has recorded of its attempt.
  abbrev pub Completion : Run → Attempt → Job → Attempt → Type 0
  Completion run claim k a =
      Claims derive in_use env relay_id nonce ev start claim k
      × StoredAttempt relay_id claim.id run.job a
      × (((run.executed ≡ []) × Recorded (some ExecutionOutcome.transport_failed) a)
          ⊎ ((bytes : List ℕ) × (env.stored k ≡ ok bytes)
              × (env.sha256 bytes ≡ start.artifact_digest)
              × (run.executed ≡ attempt_request relay_id k claim bytes ∷ [])
              × (a.submitted_at ≡ some ev.submitted_at)
              × Recorded (env.executes (attempt_request relay_id k claim bytes)) a))

  Course-Completion :
      (run : Run) (after : Job)
      → Course derive in_use env relay_id nonce ev start run
      → run.result ≡ ok (completed after)
      → (claim : Attempt) × (k : Job) × (a : Attempt) × (run.job ≡ after) × Completion run claim k a
  Course-Completion run after (quiet reach silent other) h = absurd (other after h)
  Course-Completion run after (gives_up a k jitter c e silent done) h =
      let (x, y, before, stored, ended) =
        record_outcome-stored relay_id a.id _ jitter ev.observed_at k run.job e in
      (
        a,
        k,
        y,
        same_completed run.job after (sym done ∙ h),
        (c, stored, inl (silent, EndedBy-failed x y ended)),
      )
  Course-Completion run after (unrecorded a k bytes b c exact marked one other) h =
      absurd (other after h)
  Course-Completion run after (answered a k bytes b m jitter c exact marked e one done) h =
      let (d, submitted, when) = mark_submitted-stored relay_id a.id ev.submitted_at k b m marked in
      let (x, y, before, stored, ended) =
        record_outcome-stored relay_id a.id _ jitter ev.observed_at m run.job e in
      (
        a,
        k,
        y,
        same_completed run.job after (sym done ∙ h),
        (
          c,
          stored,
          inr (
            bytes,
            (read_exact_event-ok env k bytes exact).0,
            digest_of a k bytes c exact,
            one,
            ended.2
                ∙ (ap (λ (z : Attempt). z.submitted_at)
                      (StoredAttempt-unique relay_id a.id m x d before submitted)
                    ∙ when),
            EndedBy-Recorded (env.executes (attempt_request relay_id k a bytes)) x y ended,
          ),
        ),
      )

  -- A run that completes has claimed an attempt and returns the state that it leaves. If it asked nothing
  -- of the relay, the attempt is stored as failed in transport. Else it asked once, with the stored event,
  -- whose digest is the job's, and the attempt is stored as submitted, with the status and the reason of
  -- the relay's answer: accepted as delivered, rejected and a failure of transport as failed, and an
  -- unknown or missing answer as unknown.
  pub run_with_adapter-Completion :
      (after : Job)
      → (run_with_adapter derive in_use env relay_id nonce ev start).result ≡ ok (completed after)
      → (claim : Attempt) × (k : Job) × (a : Attempt) × ((run_with_adapter derive in_use env
            relay_id nonce ev start).job
          ≡ after)
        × Completion (run_with_adapter derive in_use env relay_id nonce ev start) claim k a
  run_with_adapter-Completion after h =
      Course-Completion (run_with_adapter derive in_use env relay_id nonce ev start) after
        (run_with_adapter-Course derive in_use env relay_id nonce ev start) h
