-- ===== src/Delivery/Worker.antt =====
-- src/delivery_worker.rs: one delivery attempt of a worker. The relay adapter, the cancellation and
-- the stored artifact are the worker's surroundings; each of its calls of the repository is a
-- transaction of its own, so what is written before an error stays.
pub mod Jitter
pub mod Stored
pub mod Runs
pub mod Answers
use myc.Common.{
  ℕ, ◌+◌, ◌-◌, ◌%◌, min, Bool, true, false, not, ◌||◌, Option, none, some, List, [], ◌∷◌, Result,
  ok, err, leb, ◌==◌, if◌then◌else◌, saturating_mul, checked_shl_one, unwrap_or, u64_max,
}
use myc.Delivery.Types.{
  Digest, RelayId, StateError, AttemptOutcome, Attempt, Job, Claim, OperationError,
  retry_jitter_new,
}
use myc.Delivery.Rows.{read_job}
use myc.Delivery.Claim.{claim_target}
use myc.Delivery.Submit.{mark_submitted}
use myc.Delivery.Resolve.{record_outcome}

pub data WorkerError : Type 0 where
  configuration state artifact : WorkerError

pub data WorkerResult : Type 0 where
  completed : Job → WorkerResult
  exact_replay not_ready terminal : WorkerResult

-- What the relay adapter reports of an execution.
pub data ExecutionOutcome : Type 0 where
  accepted rejected transport_failed unknown_acknowledgement : ExecutionOutcome

-- `MycDeliveryExecutionEvidence`; the eight bytes of entropy are read as a number.
pub record Evidence : Type 0 where
  pub claimed_at : ℕ
  pub submitted_at : ℕ
  pub observed_at : ℕ
  pub retry_entropy : ℕ

-- What the worker hands to `prepare` of the adapter: the request's id is that of the job and the attempt.
pub record Request : Type 0 where
  pub relay_id : RelayId
  pub job_id : Digest
  pub attempt_id : Digest
  pub event_bytes : List ℕ
  pub deadline : ℕ

-- `prepares` says whether the adapter prepares a request. `executes` is what it answers to a prepared
-- one, `none` if it reports an error or the cancellation comes first; `stored` is what the repository
-- returns for the job's source.
pub record Surroundings : Type 0 where
  pub cancelled_at_start : Bool
  pub cancelled_before_submission : Bool
  pub stored : Job → Result WorkerError (List ℕ)
  pub sha256 : List ℕ → Digest
  pub prepares : Request → Bool
  pub executes : Request → Option ExecutionOutcome

-- The state after the run, what it returned, and the requests that the adapter was asked to execute.
-- No other caller comes between the transactions of a run.
pub record Run : Type 0 where
  pub job : Job
  pub result : Result WorkerError WorkerResult
  pub executed : List Request

abbrev pub outcome_is_delivered : AttemptOutcome → Bool
outcome_is_delivered AttemptOutcome.delivered = true
outcome_is_delivered _ = false

unfoldable pub worker_maximum_delay : Job → ℕ → ℕ
worker_maximum_delay job attempt_number =
    let exponent = min (attempt_number - 1) 31 in
    let factor = unwrap_or (checked_shl_one exponent) u64_max in
    min (saturating_mul job.initial_backoff_ms factor) job.maximum_backoff_ms

abbrev pub as_state {ℓ} : {A : Type ℓ} → Result StateError A → Result WorkerError A
as_state (ok a) = ok a
as_state (err e) = err state

unfoldable pub delivery_retry_jitter : Job → ℕ → AttemptOutcome → ℕ → Result WorkerError ℕ
delivery_retry_jitter job attempt_number outcome entropy =
    if outcome_is_delivered outcome || leb job.max_attempts attempt_number
    then as_state (retry_jitter_new 0)
    else as_state (retry_jitter_new (entropy % (worker_maximum_delay job attempt_number + 1)))

-- `read_exact_event`: the stored bytes must have the job's digest.
unfoldable pub read_exact_event : Surroundings → Job → Result WorkerError (List ℕ)
read_exact_event env job = elim (env.stored job) [
  | err e ↦ err e
  | ok bytes ↦ if env.sha256 bytes == job.artifact_digest then ok bytes else err artifact
]

abbrev pub recorded : List Request → Job → Result OperationError Job → Run
recorded executed before (ok after) = record {
  job = after;
  result = ok (completed after);
  executed = executed;
}
recorded executed before (err e) = record { job = before; result = err state; executed = executed }

abbrev pub persist_with :
    RelayId → AttemptOutcome → Attempt → Evidence → List Request → Job → Result WorkerError ℕ → Run
persist_with relay_id outcome attempt evidence executed current (err e) = record {
  job = current;
  result = err e;
  executed = executed;
}
persist_with relay_id outcome attempt evidence executed current (ok jitter) =
    recorded executed current
      (record_outcome relay_id attempt.id outcome jitter evidence.observed_at current)

unfoldable pub persist_outcome :
    RelayId → AttemptOutcome → Job → Attempt → Evidence → List Request → Job → Run
persist_outcome relay_id outcome job attempt evidence executed current =
    persist_with relay_id outcome attempt evidence executed current
      (delivery_retry_jitter job attempt.number outcome evidence.retry_entropy)

-- `adapter.execute`: the answer, and what was asked.
unfoldable pub execute : Surroundings → Request → Option ExecutionOutcome × List Request
execute env request = (env.executes request, request ∷ [])

unfoldable pub execution_outcome : Option ExecutionOutcome → AttemptOutcome
execution_outcome none = AttemptOutcome.unknown_acknowledgement
execution_outcome (some accepted) = AttemptOutcome.delivered
execution_outcome (some rejected) = AttemptOutcome.relay_rejected
execution_outcome (some transport_failed) = AttemptOutcome.transport_failed
execution_outcome (some unknown_acknowledgement) = AttemptOutcome.unknown_acknowledgement

-- From the durable submission on.
abbrev pub execute_submitted :
    Surroundings
    → RelayId
    → Evidence
    → Job
    → Attempt
    → Request
    → Job
    → Result OperationError (Attempt × Job)
    → Run
execute_submitted env relay_id evidence job attempt request current (err e) = record {
  job = current;
  result = err state;
  executed = [];
}
execute_submitted env relay_id evidence job attempt request current (ok (_, submitted)) =
    let (answer, executed) = execute env request in
    persist_outcome relay_id (execution_outcome answer) job attempt evidence executed submitted

abbrev pub attempt_request : RelayId → Job → Attempt → List ℕ → Request
attempt_request relay_id job attempt bytes = record {
  relay_id = relay_id;
  job_id = job.id;
  attempt_id = attempt.id;
  event_bytes = bytes;
  deadline = attempt.lease_expires_at;
}

-- From the claimed attempt on: the job that the worker reads again, and the exact event.
abbrev pub deliver_event :
    Surroundings → RelayId → Evidence → Attempt → Job → Job → Result WorkerError (List ℕ) → Run
deliver_event env relay_id evidence attempt current job (err e) = record {
  job = current;
  result = err e;
  executed = [];
}
deliver_event env relay_id evidence attempt current job (ok bytes) =
    let request = attempt_request relay_id job attempt bytes in
    if not (env.prepares request) || env.cancelled_before_submission
    then persist_outcome relay_id AttemptOutcome.transport_failed job attempt evidence [] current
    else execute_submitted env relay_id evidence job attempt request current
        (mark_submitted relay_id attempt.id evidence.submitted_at current)

abbrev pub deliver_read :
    Surroundings → RelayId → Evidence → Attempt → Job → Result OperationError Job → Run
deliver_read env relay_id evidence attempt current (err e) = record {
  job = current;
  result = err state;
  executed = [];
}
deliver_read env relay_id evidence attempt current (ok job) =
    deliver_event env relay_id evidence attempt current job (read_exact_event env job)

unfoldable pub deliver_claimed : Surroundings → RelayId → Evidence → Attempt → Job → Run
deliver_claimed env relay_id evidence attempt current =
    deliver_read env relay_id evidence attempt current (read_job current)

abbrev pub stopped : Job → WorkerResult → Run
stopped current result = record { job = current; result = ok result; executed = [] }

abbrev pub after_claim : Surroundings → RelayId → Evidence → Claim → Job → Run
after_claim env relay_id evidence (Claim.claimed attempt) current =
    deliver_claimed env relay_id evidence attempt current
after_claim env relay_id evidence (Claim.exact_replay attempt) current =
    stopped current WorkerResult.exact_replay
after_claim env relay_id evidence Claim.not_ready current = stopped current WorkerResult.not_ready
after_claim env relay_id evidence Claim.terminal current = stopped current WorkerResult.terminal

abbrev pub claim_result :
    Surroundings → RelayId → Evidence → Job → Result OperationError (Claim × Job) → Run
claim_result env relay_id evidence start (err e) = record {
  job = start;
  result = err state;
  executed = [];
}
claim_result env relay_id evidence start (ok (claim, current)) =
    after_claim env relay_id evidence claim current

unfoldable pub run_with_adapter :
    (Digest → ℕ → ℕ → Digest → Digest)
    → (Digest → Bool)
    → Surroundings
    → RelayId
    → Digest
    → Evidence
    → Job
    → Run
run_with_adapter derive_attempt_id in_use env relay_id nonce evidence start =
    if env.cancelled_at_start
    then stopped start WorkerResult.not_ready
    else claim_result env relay_id evidence start
        (claim_target derive_attempt_id in_use relay_id nonce evidence.claimed_at start)
