-- ===== src/Delivery/Create/Admission.antt =====
-- The outbox's bound, and the replay of an admission.
use myc.Common.{
  ℕ, suc, ◌≤◌, ◌≡◌, refl, true, List, [], ◌∷◌, ok, arith, find, count_if, bytes_eq_refl,
}
use myc.Delivery.Types.{Digest, Source, Job}
use myc.Delivery.Rows.{read_job}
use myc.Delivery.Policy.{TargetPolicy, Policies}
use myc.Delivery.Create.{
  Outbox, JobAdmission, created, exact_replay, create_job, insert_job, active_jobs, source_eq,
  same_targets, new_targets, exact_job, read_job_by_source, new_job,
}

source_eq_refl : (s : Source) → source_eq s s ≡ true
source_eq_refl s = ground arith

same_targets-new_targets :
    (index created_at : ℕ) (ps : List TargetPolicy)
    → same_targets (new_targets index created_at ps) ps ≡ true
unfolding same_targets new_targets
same_targets-new_targets index created_at [] = refl
same_targets-new_targets index created_at (p ∷ ps) =
    ground (arith, bytes_eq_refl p.relay_id, same_targets-new_targets (suc index) created_at ps)

exact_job-new_job :
    (id : Digest) (source : Source) (artifact created_at : ℕ) (policy : Policies)
    → exact_job (new_job id source artifact created_at policy) source artifact created_at policy
      ≡ true
unfolding exact_job
exact_job-new_job id source artifact created_at policy =
    ground (arith, source_eq_refl source, same_targets-new_targets 0 created_at policy.targets)

module _ (derive_job_id : Source → Digest → Digest) (box : Outbox) (source : Source)
    (artifact created_at : ℕ) (policy : Policies) where
  -- A call of `create_job` that succeeds leaves at most as many live jobs in the outbox as the policy
  -- allows, if there were no more before.
  pub create_job-active_jobs :
      (admission : JobAdmission) (box' : Outbox)
      → active_jobs box.jobs ≤ policy.outbox_maximum
      → create_job derive_job_id box source artifact created_at policy ≡ ok (admission, box')
      → active_jobs box'.jobs ≤ policy.outbox_maximum
  unfolding create_job insert_job count_if
  create_job-active_jobs admission box' bounded h = ground arith

  -- The same call again, after one that created a job, returns that job as a replay and leaves the
  -- outbox as it is.
  pub create_job-exact_replay :
      (j : Job) (box' : Outbox)
      → create_job derive_job_id box source artifact created_at policy ≡ ok (created j, box')
      → create_job derive_job_id box' source artifact created_at policy ≡ ok (exact_replay j, box')
  unfolding create_job insert_job read_job_by_source find read_job
  create_job-exact_replay j box' h = ground (
    arith,
    source_eq_refl source,
    exact_job-new_job (derive_job_id source artifact) source artifact created_at policy,
  )
