-- ===== src/Delivery/Tests/Admissions.antt =====
-- The policy, the outbox, the order of the ready targets and the replay of an outcome, on the job of
-- the tests.
use myc.Common.{
  refl, some, all, Ascending, ◌≤◌, ◌≡◌, true, none, [], ◌∷◌, ok, arith, length, count_if,
}
use myc.Delivery.Types.{AttemptOutcome, at_least_one_required}
use myc.Delivery.Policy.{required_count, target_lt}
use myc.Delivery.Policy.Accepted.{policies_new-Ascending}
use myc.Delivery.Create.{new_targets, created, exact_replay, create_job, active_jobs}
use myc.Delivery.Create.Admission.{create_job-active_jobs, create_job-exact_replay}
use myc.Delivery.Ready.{next_ready_row}
use myc.Delivery.Ready.{
  next_ready_delivery_target, next_ready_row, ready_rows, ready_targets, target_ready, row_before,
  first_row, earlier,
}
use myc.Delivery.Rows.{valid_relay_id}
use myc.Delivery.Ready.Terms.{IsNext}
use myc.Delivery.Ready.First.{next_ready_row-IsNext}
use myc.Delivery.Resolve.{record_outcome}
use myc.Delivery.Resolve.Replay.{record_outcome-again}
use myc.Delivery.Tests.{
  relay_a, relay_b, policy, policy_accepted, job_id_of, outbox, response, first_job, box_after,
  first_job_created, submitted_job, delivered_job, delivered_first,
}

policies_new-Ascending_example :
    Ascending target_lt policy.targets
    × (length policy.targets ≡ 2)
    × (2 ≤ 32)
    × (required_count policy.targets
        ≡ required_count (
            record { relay_id = relay_b; required = true }
            ∷ record { relay_id = relay_a; required = true }
            ∷ []))
    × (1 ≤ policy.required_acknowledgements)
    × (policy.required_acknowledgements
        ≤ required_count (
            record { relay_id = relay_b; required = true }
            ∷ record { relay_id = relay_a; required = true }
            ∷ []))
policies_new-Ascending_example =
    policies_new-Ascending at_least_one_required none 3 1_000 4_000 5_000 16
      (record { relay_id = relay_b; required = true }
        ∷ record { relay_id = relay_a; required = true }
        ∷ [])
      policy policy_accepted

nothing_active : active_jobs outbox.jobs ≤ policy.outbox_maximum
unfolding count_if
nothing_active = omega arith

create_job-active_jobs_example : active_jobs box_after.jobs ≤ policy.outbox_maximum
create_job-active_jobs_example =
    create_job-active_jobs job_id_of outbox response 7 1_000 policy (created first_job) box_after
      nothing_active first_job_created

create_job-exact_replay_example :
    create_job job_id_of box_after response 7 1_000 policy ≡ ok (exact_replay first_job, box_after)
create_job-exact_replay_example =
    create_job-exact_replay job_id_of outbox response 7 1_000 policy first_job box_after
      first_job_created

next_ready_first : next_ready_delivery_target 2_000 box_after ≡ ok (some (first_job.id, relay_a))
unfolding next_ready_delivery_target ready_rows ready_targets target_ready row_before first_row
    earlier valid_relay_id all new_targets
next_ready_first = refl

next_ready_row-IsNext_example : IsNext (next_ready_row 2_000 box_after) 2_000 box_after.jobs
next_ready_row-IsNext_example = next_ready_row-IsNext 2_000 box_after

record_outcome-again_example :
    record_outcome relay_a 19 AttemptOutcome.delivered 0 3_000 delivered_job ≡ ok delivered_job
record_outcome-again_example =
    record_outcome-again relay_a 19 AttemptOutcome.delivered 0 3_000 submitted_job delivered_job
      delivered_first
