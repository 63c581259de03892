-- ===== src/Delivery/Finalize.antt =====
-- `finalize_job_if_terminal` of src/state_delivery.rs: when a job ends, and how.
use myc.Common.{
  ℕ, Bool, not, ◌&&◌, ◌||◌, some, Result, ok, ◌>>=◌, leb, count_if, any, if◌then◌else◌,
}
use myc.Delivery.Types.{
  OperationError, PolicyMode, at_least_one_required, all_required, required_quorum, JobStatus,
  Target, Job, is_terminal, target_is_delivered, target_is_exhausted, target_is_unknown,
}
use myc.Delivery.Rows.{read_job}
use myc.Delivery.Statements.{update_any, job_legal}

abbrev pub is_delivered_required : Target → Bool
is_delivered_required t = t.required && target_is_delivered t.status

-- A target whose last attempt was used up with its acknowledgement lost.
abbrev pub is_unknown_for_good : ℕ → Target → Bool
is_unknown_for_good max_attempts t = target_is_unknown t.status && leb max_attempts t.attempt_count

abbrev pub is_possible_required : ℕ → Target → Bool
is_possible_required max_attempts t =
    t.required && not (target_is_exhausted t.status) && not (is_unknown_for_good max_attempts t)

-- The two `match job.policy_mode` of the function.
abbrev pub enough : PolicyMode → ℕ → ℕ → Bool
enough at_least_one_required required count = leb required count
enough all_required required count = leb required count
enough required_quorum required count = leb required count

unfoldable pub is_delivered : Job → Bool
is_delivered job =
    enough job.policy_mode job.required_acknowledgements
      (count_if is_delivered_required job.targets)

unfoldable pub is_possible : Job → Bool
is_possible job =
    enough job.policy_mode job.required_acknowledgements
      (count_if (is_possible_required job.max_attempts) job.targets)

unfoldable pub terminal_status : Job → JobStatus
unfolding is_delivered
terminal_status job =
    if is_delivered job
    then JobStatus.delivered
    else (if any (λ t. t.required && is_unknown_for_good job.max_attempts t) job.targets
        then JobStatus.unknown
        else JobStatus.failed)

-- FINALIZE_JOB_SQL.
unfoldable pub finalize_job : JobStatus → ℕ → Job → Result OperationError Job
unfolding update_any
finalize_job status observed_at =
    update_any (λ j. not (is_terminal j.status)) job_legal
      (λ j. record j { status = status; updated_at = observed_at; finalized_at = some observed_at })

unfoldable pub finalize_job_if_terminal : ℕ → Job → Result OperationError Job
unfolding finalize_job is_possible terminal_status
finalize_job_if_terminal observed_at row = do
  job ← read_job row
  ended ←
      if is_delivered job || not (is_possible job)
      then finalize_job (terminal_status job) observed_at job
      else ok job
  read_job ended >>= read_job
