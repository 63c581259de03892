-- ===== src/Delivery/Tests.antt =====
-- The life of one delivery job, run through the definitions of src/state_delivery.rs.
pub mod Work
pub mod Runs
pub mod Admissions
use myc.Common.{
  ℕ, ◌+◌, ◌*◌, ◌≡◌, refl, Bool, true, false, none, some, [], ◌∷◌, Result, ok, All, err, find,
  count_if, bytes_eq, all, on_first, update_first, any,
}
use myc.Delivery.Types.{
  Digest, RelayId, at_least_one_required, Source, signer_response, Job, AttemptOutcome, Attempt,
  AttemptStatus, Claim, OperationError, is_terminal,
}
use myc.Common.{sort_by, has_equal_neighbours}
use myc.Delivery.Policy.{Policies, policies_new, policy_valid, sort_targets, bytes_lt}
use myc.Delivery.Create.{
  Outbox, created, create_job, new_job, read_job_by_source, insert_job, jobs_insert_check,
  new_targets,
}
use myc.Delivery.Claim.{
  claim_target, leased_attempt, claim_live, claim_on_target, lease_attempt, insert_attempt,
  lease_target, mark_job_active,
}
use myc.Delivery.Submit.{mark_submitted, submit_on_target, submit_attempt, submit_target}
use myc.Delivery.Resolve.{
  record_outcome, outcome_on_target, outcome_refused, required_prior, resolve_attempt_and_target,
  resolve_attempt, resolve_target, resolution, outcome_status, outcome_reason, next_attempt_time,
  maximum_delay,
}
use myc.Delivery.Rows.{
  targets_check, read_job, job_rows_valid, target_row_valid, valid_relay_id, parse_attempt,
  attempts_check, attempts_guard_update, targets_guard_update, jobs_check, jobs_guard_update,
}
use myc.Delivery.Invariant.{TargetInv}
use myc.Delivery.Lifecycle.{Reach, here, next, claims, submits, records}
use myc.Delivery.Reading.{acknowledged, attainable}
use myc.Delivery.Lifetime.{StatusMeans, job-StatusMeans, job_targets_inv, job_end_is_final}
use myc.Delivery.Statements.{on_target, update_one, update_any, read_attempt, read_attempt_by_nonce}
use myc.Delivery.Finalize.{
  finalize_job_if_terminal, finalize_job, is_delivered, is_possible, terminal_status,
}

abbrev pub relay_a : RelayId
relay_a = b'a' ∷ []

abbrev pub relay_b : RelayId
relay_b = b'b' ∷ []

abbrev pub policy : Policies
policy = record {
  mode = at_least_one_required;
  required_acknowledgements = 1;
  max_attempts = 3;
  initial_backoff_ms = 1_000;
  maximum_backoff_ms = 4_000;
  attempt_deadline_ms = 5_000;
  outbox_maximum = 16;
  targets =
      record { relay_id = relay_a; required = true }
      ∷ record { relay_id = relay_b; required = true }
      ∷ [];
}

abbrev pub job_id_of : Source → Digest → Digest
job_id_of source artifact = source.id + artifact

abbrev pub attempt_id_of : Digest → ℕ → ℕ → Digest → Digest
attempt_id_of job index number nonce = 100 * index + 10 * number + nonce

abbrev pub unused : Digest → Bool
unused id = false

abbrev pub outbox : Outbox
outbox = record { jobs = []; requests = 5 ∷ []; generations = [] }

abbrev pub response : Source
response = record { kind = signer_response; id = 5 }

abbrev pub first_job : Job
first_job = new_job 12 response 7 1_000 policy

pub policy_accepted :
    policies_new at_least_one_required none 3 1_000 4_000 5_000 16 (
      record { relay_id = relay_b; required = true }
      ∷ record { relay_id = relay_a; required = true }
      ∷ [])
    ≡ ok policy
unfolding policies_new policy_valid sort_targets bytes_lt has_equal_neighbours bytes_eq count_if
    sort_by
policy_accepted = refl

policy_is_valid : policy_valid policy ≡ true
unfolding policy_valid has_equal_neighbours bytes_eq count_if
policy_is_valid = refl

pub first_job_created :
    create_job job_id_of outbox response 7 1_000 policy
    ≡ ok (created first_job, record outbox { jobs = first_job ∷ [] })
unfolding create_job read_job_by_source find count_if insert_job jobs_insert_check new_targets
    targets_check read_job job_rows_valid target_row_valid valid_relay_id
first_job_created = refl

abbrev job_after : {A : Type 0} → Result OperationError (A × Job) → Job
job_after (ok (_, j)) = j
job_after (err _) = first_job

abbrev job_done : Result OperationError Job → Job
job_done (ok j) = j
job_done (err _) = first_job

abbrev pub leased_job : Job
leased_job = job_after (claim_target attempt_id_of unused relay_a 9 2_000 first_job)

abbrev pub first_attempt : Attempt
first_attempt = leased_attempt 19 1 9 2_000 7_000

claimed_first :
    claim_target attempt_id_of unused relay_a 9 2_000 first_job
    ≡ ok (Claim.claimed first_attempt, leased_job)
unfolding read_job job_rows_valid target_row_valid valid_relay_id all on_target on_first bytes_eq
    find update_one update_first read_attempt read_attempt_by_nonce parse_attempt attempts_check
    attempts_guard_update targets_check targets_guard_update jobs_check jobs_guard_update any
    new_targets update_any claim_target claim_live claim_on_target lease_attempt insert_attempt
    lease_target mark_job_active
claimed_first = refl

abbrev pub submitted_job : Job
submitted_job = job_after (mark_submitted relay_a 19 2_500 leased_job)

submitted_first :
    mark_submitted relay_a 19 2_500 leased_job
    ≡ ok (
      record first_attempt { status = AttemptStatus.submitted; submitted_at = some 2_500 },
      submitted_job,
    )
unfolding read_job job_rows_valid target_row_valid valid_relay_id all on_target on_first bytes_eq
    find update_one update_first read_attempt read_attempt_by_nonce parse_attempt attempts_check
    attempts_guard_update targets_check targets_guard_update jobs_check jobs_guard_update any
    new_targets update_any claim_target claim_live claim_on_target lease_attempt insert_attempt
    lease_target mark_job_active mark_submitted submit_on_target submit_attempt submit_target
submitted_first = refl

abbrev pub delivered_job : Job
delivered_job = job_done (record_outcome relay_a 19 AttemptOutcome.delivered 0 3_000 submitted_job)

pub delivered_first :
    record_outcome relay_a 19 AttemptOutcome.delivered 0 3_000 submitted_job ≡ ok delivered_job
unfolding read_job job_rows_valid target_row_valid valid_relay_id all on_target on_first bytes_eq
    find update_one update_first read_attempt read_attempt_by_nonce parse_attempt attempts_check
    attempts_guard_update targets_check targets_guard_update jobs_check jobs_guard_update any
    new_targets update_any claim_target claim_live claim_on_target lease_attempt insert_attempt
    lease_target mark_job_active mark_submitted submit_on_target submit_attempt submit_target
    record_outcome outcome_on_target outcome_refused required_prior resolve_attempt_and_target
    resolve_attempt resolve_target resolution outcome_status outcome_reason next_attempt_time
    maximum_delay finalize_job_if_terminal finalize_job is_delivered is_possible terminal_status
    count_if
delivered_first = refl

delivered_reached : Reach attempt_id_of first_job delivered_job
delivered_reached =
    next
      (next (next here (claims unused relay_a 9 2_000 (Claim.claimed first_attempt) claimed_first))
        (submits relay_a 19 2_500 _ submitted_first))
      (records relay_a 19 AttemptOutcome.delivered 0 3_000 delivered_first)

claimed_again :
    claim_target attempt_id_of unused relay_b 10 4_000 delivered_job
    ≡ ok (Claim.terminal, delivered_job)
unfolding read_job job_rows_valid target_row_valid valid_relay_id all on_target on_first bytes_eq
    find update_one update_first read_attempt read_attempt_by_nonce parse_attempt attempts_check
    attempts_guard_update targets_check targets_guard_update jobs_check jobs_guard_update any
    new_targets update_any claim_target claim_live claim_on_target lease_attempt insert_attempt
    lease_target mark_job_active mark_submitted submit_on_target submit_attempt submit_target
    record_outcome outcome_on_target outcome_refused required_prior resolve_attempt_and_target
    resolve_attempt resolve_target resolution outcome_status outcome_reason next_attempt_time
    maximum_delay finalize_job_if_terminal finalize_job is_delivered is_possible terminal_status
    count_if
claimed_again = refl

abbrev pub box_after : Outbox
box_after = record outbox { jobs = first_job ∷ [] }

job-StatusMeans_example :
    StatusMeans delivered_job.status delivered_job.required_acknowledgements
      (acknowledged delivered_job)
      (attainable delivered_job)
job-StatusMeans_example =
    job-StatusMeans job_id_of attempt_id_of outbox response 7 1_000 policy policy_is_valid first_job
      box_after first_job_created delivered_job delivered_reached

job_targets_inv_example : All (TargetInv delivered_job.max_attempts) delivered_job.targets
job_targets_inv_example =
    job_targets_inv job_id_of attempt_id_of outbox response 7 1_000 policy policy_is_valid first_job
      box_after first_job_created delivered_job delivered_reached

delivered_is_terminal : is_terminal delivered_job.status ≡ true
unfolding read_job job_rows_valid target_row_valid valid_relay_id all on_target on_first bytes_eq
    find update_one update_first read_attempt read_attempt_by_nonce parse_attempt attempts_check
    attempts_guard_update targets_check targets_guard_update jobs_check jobs_guard_update any
    new_targets update_any claim_target claim_live claim_on_target lease_attempt insert_attempt
    lease_target mark_job_active mark_submitted submit_on_target submit_attempt submit_target
    record_outcome outcome_on_target outcome_refused required_prior resolve_attempt_and_target
    resolve_attempt resolve_target resolution outcome_status outcome_reason next_attempt_time
    maximum_delay finalize_job_if_terminal finalize_job is_delivered is_possible terminal_status
    count_if
delivered_is_terminal = refl

job_end_is_final_example :
    (delivered_job.status ≡ delivered_job.status)
    × (delivered_job.finalized_at ≡ delivered_job.finalized_at)
job_end_is_final_example =
    job_end_is_final job_id_of attempt_id_of outbox response 7 1_000 policy policy_is_valid
      first_job box_after first_job_created delivered_job delivered_job delivered_reached
      delivered_is_terminal
      (next here (claims unused relay_b 10 4_000 Claim.terminal claimed_again))
