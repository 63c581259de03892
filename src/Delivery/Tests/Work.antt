-- ===== src/Delivery/Tests/Work.antt =====
-- The worker's choice of a target and its retry delays, on the job of the tests.
use myc.Common.{
  ℕ, ◌+◌, ◌≤◌, ◌≡◌, ◌↔◌, ◌⊎◌, ◌||◌, ◌==◌, refl, true, false, none, some, List, ok, bytes_eq, all,
  any, leb, i64_max, arith, find,
}
use myc.Delivery.Types.{AttemptOutcome, Claim, Target, Attempt}
use myc.Delivery.Rows.{
  job_rows_valid, target_row_valid, valid_relay_id, attempts_check, targets_guard_update,
  targets_check, parse_attempt,
}
use myc.Delivery.Statements.{has_relay, read_attempt, read_attempt_by_nonce}
use myc.Delivery.Invariant.{TargetInv, JobInv}
use myc.Delivery.Create.{new_targets, new_target}
use myc.Delivery.Claim.{claim_target, claim_on_target, lease_attempt, leased_attempt}
use myc.Delivery.Claim.Lease.{leased_target}
use myc.Delivery.Resolve.{next_attempt_time}
use myc.Delivery.Retry.{backoff, next_attempt_time_iff}
use myc.Delivery.Worker.{delivery_retry_jitter, outcome_is_delivered}
use myc.Delivery.Worker.Jitter.{delivery_retry_jitter_accepted}
use myc.Delivery.Ready.{target_ready}
use myc.Delivery.Ready.Claims.{is_claimed, claim_on_target-target_ready}
use myc.Delivery.Ready.Leases.{active_job, ready_target_is_claimed}
use myc.Delivery.Tests.{relay_a, relay_b, attempt_id_of, unused, first_job}

first_job_valid : job_rows_valid first_job ≡ true
unfolding job_rows_valid new_targets all target_row_valid valid_relay_id
first_job_valid = refl

next_attempt_time_iff_example : (next_attempt_time first_job 2 1_500 10_000 ≡ ok 11_500) ↔ (
    (11_500 ≡ 10_000 + 1_500)
    × (1_500 ≤ backoff first_job 2)
    × (1 ≤ 10_000 + 1_500)
    × (10_000 + 1_500 ≤ i64_max))
next_attempt_time_iff_example =
    next_attempt_time_iff first_job 2 1_500 10_000 11_500 first_job_valid (omega arith)

delivery_retry_jitter_accepted_example :
    (jitter : ℕ) × (delivery_retry_jitter first_job 1 AttemptOutcome.transport_failed 123_456
      ≡ ok jitter)
    × (jitter ≤ backoff first_job 1)
    × ((outcome_is_delivered AttemptOutcome.transport_failed || leb first_job.max_attempts 1)
          ≡ false
        ⊎ (jitter ≡ 0))
delivery_retry_jitter_accepted_example =
    delivery_retry_jitter_accepted first_job 1 AttemptOutcome.transport_failed 123_456
      first_job_valid (omega arith)

abbrev target_a : Target
target_a = new_target 0 1_000 (record { relay_id = relay_a; required = true })

abbrev leased_a : Attempt
leased_a = leased_attempt 19 1 9 2_000 7_000

ready_a : target_ready first_job 2_000 target_a ≡ true
unfolding target_ready
ready_a = refl

target_a_valid : target_row_valid target_a ≡ true
unfolding target_row_valid valid_relay_id all
target_a_valid = refl

nothing_seen : any (λ b. b.id == 19 || b.nonce == 9) target_a.attempts ≡ false
unfolding any
nothing_seen = refl

target_a_inv : TargetInv 3 target_a
target_a_inv = record { capped = omega arith; numbered = refl; history = (refl, refl); spent = tt }

claimed_a :
    claim_on_target attempt_id_of unused first_job 9 2_000 target_a
    ≡ ok (Claim.claimed leased_a, leased_target leased_a 2_000 target_a)
unfolding claim_on_target read_attempt_by_nonce find lease_attempt attempts_check
    targets_guard_update targets_check read_attempt parse_attempt
claimed_a = refl

unseen_a : find (λ a. a.nonce == 9) target_a.attempts ≡ none
unfolding find
unseen_a = refl

claim_on_target-target_ready_example :
    is_claimed (Claim.claimed leased_a) ≡ target_ready first_job 2_000 target_a
claim_on_target-target_ready_example =
    claim_on_target-target_ready attempt_id_of unused first_job 9 2_000 target_a
      (Claim.claimed leased_a) (leased_target leased_a 2_000 target_a) refl unseen_a claimed_a

abbrev target_b : Target
target_b = new_target 1 1_000 (record { relay_id = relay_b; required = true })

target_b_inv : TargetInv 3 target_b
target_b_inv = record { capped = omega arith; numbered = refl; history = (refl, refl); spent = tt }

found_a : find (has_relay relay_a) first_job.targets ≡ some target_a
unfolding find bytes_eq new_targets
found_a = refl

first_job_inv : JobInv first_job
unfolding new_targets
first_job_inv = record { targets_inv = (target_a_inv, (target_b_inv, tt)) }

ready_target_is_claimed_example :
    (targets : List Target) × (claim_target attempt_id_of unused relay_a 9 2_000 first_job
      ≡ ok (Claim.claimed leased_a, active_job 2_000 first_job targets))
    × (find (has_relay relay_a) targets ≡ some (leased_target leased_a 2_000 target_a))
ready_target_is_claimed_example =
    ready_target_is_claimed attempt_id_of unused first_job relay_a 9 2_000 target_a found_a ready_a
      first_job_valid first_job_inv (omega arith) (omega arith) (omega arith) (omega arith) refl
      nothing_seen
