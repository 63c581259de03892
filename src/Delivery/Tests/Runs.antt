-- ===== src/Delivery/Tests/Runs.antt =====
-- A run of the worker, on the job of the tests.
use myc.Common.{
  ◌≤◌, ◌≡◌, refl, false, true, some, [], ◌∷◌, ok, All, length, find, all, any, bytes_eq, on_first,
  update_first, count_if,
}
use myc.Delivery.Types.{Job, Attempt, retry_jitter_new}
use myc.Delivery.Create.{new_targets}
use myc.Delivery.Claim.{
  claim_target, claim_live, claim_on_target, lease_attempt, insert_attempt, lease_target,
  mark_job_active,
}
use myc.Delivery.Submit.{mark_submitted, submit_on_target, submit_attempt, submit_target}
use myc.Delivery.Resolve.{
  record_outcome, outcome_on_target, outcome_refused, required_prior, resolve_attempt_and_target,
  resolve_attempt, resolve_target, resolution, outcome_status, outcome_reason, next_attempt_time,
  maximum_delay,
}
use myc.Delivery.Rows.{
  targets_check, read_job, job_rows_valid, target_row_valid, valid_relay_id, parse_attempt,
  attempts_check, attempts_guard_update, targets_guard_update, jobs_check, jobs_guard_update,
}
use myc.Delivery.Statements.{on_target, update_one, update_any, read_attempt, read_attempt_by_nonce}
use myc.Delivery.Finalize.{
  finalize_job_if_terminal, finalize_job, is_delivered, is_possible, terminal_status,
}
use myc.Delivery.Lifecycle.{Reach}
use myc.Delivery.Worker.{
  Surroundings, Evidence, Run, ExecutionOutcome, completed, run_with_adapter, deliver_claimed,
  read_exact_event, execute, execution_outcome, persist_outcome, delivery_retry_jitter,
  worker_maximum_delay,
}
use myc.Delivery.Worker.Answers.{
  IsCovered, Completion, run_with_adapter-Asked, run_with_adapter-Completion,
}
use myc.Delivery.Tests.{relay_a, attempt_id_of, unused, first_job, delivered_job}

abbrev surroundings : Surroundings
surroundings = record {
  cancelled_at_start = false;
  cancelled_before_submission = false;
  stored = λ j. ok (7 ∷ []);
  sha256 = λ bytes. 7;
  prepares = λ request. true;
  executes = λ request. some ExecutionOutcome.accepted;
}

abbrev evidence : Evidence
evidence = record {
  claimed_at = 2_000;
  submitted_at = 2_500;
  observed_at = 3_000;
  retry_entropy = 99;
}

abbrev run_a : Run
run_a = run_with_adapter attempt_id_of unused surroundings relay_a 9 evidence first_job

run_with_adapter-Asked_example :
    Reach attempt_id_of first_job run_a.job
    × (length run_a.executed ≤ 1)
    × All
        (IsCovered attempt_id_of unused surroundings relay_a 9 evidence first_job run_a.job)
        run_a.executed
run_with_adapter-Asked_example =
    run_with_adapter-Asked attempt_id_of unused surroundings relay_a 9 evidence first_job

run_completes : run_a.result ≡ ok (completed delivered_job)
unfolding read_job job_rows_valid target_row_valid valid_relay_id all on_target on_first bytes_eq
    find update_one update_first read_attempt read_attempt_by_nonce parse_attempt attempts_check
    attempts_guard_update targets_check targets_guard_update jobs_check jobs_guard_update any
    new_targets update_any claim_target claim_live claim_on_target lease_attempt insert_attempt
    lease_target mark_job_active mark_submitted submit_on_target submit_attempt submit_target
    record_outcome outcome_on_target outcome_refused required_prior resolve_attempt_and_target
    resolve_attempt resolve_target resolution outcome_status outcome_reason next_attempt_time
    maximum_delay finalize_job_if_terminal finalize_job is_delivered is_possible terminal_status
    count_if run_with_adapter deliver_claimed read_exact_event execute execution_outcome
    persist_outcome delivery_retry_jitter worker_maximum_delay retry_jitter_new
run_completes = refl

run_with_adapter-Completion_example :
    (claim : Attempt) × (k : Job) × (a : Attempt) × (run_a.job ≡ delivered_job)
    × Completion attempt_id_of unused surroundings relay_a 9 evidence first_job run_a claim k a
run_with_adapter-Completion_example =
    run_with_adapter-Completion attempt_id_of unused surroundings relay_a 9 evidence first_job
      delivered_job run_completes
