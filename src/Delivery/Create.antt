-- ===== src/Delivery/Create.antt =====
-- `create_job` of src/state_delivery.rs: the admission of a job to the bounded outbox. The outbox is
-- the three delivery tables, with the ids of the rows that a job's source must name.
pub mod Admission
use myc.Common.{
  ℕ, suc, Bool, true, false, not, ◌&&◌, ◌||◌, Option, none, some, List, [], ◌∷◌, Result, ok, err,
  ◌>>=◌, leb, ◌==◌, in_range, same, bytes_eq, any, find, count_if, if◌then◌else◌, i64_max,
}
use myc.Delivery.Types.{
  Digest, OperationError, binding, storage, PolicyMode, at_least_one_required, all_required,
  required_quorum, SourceKind, signer_response, discovery_handler, Source, JobStatus, TargetStatus,
  Target, Job, is_terminal,
}
use myc.Delivery.Rows.{read_job, targets_check}
use myc.Delivery.Policy.{TargetPolicy, Policies}

pub record Outbox : Type 0 where
  pub jobs : List Job
  pub requests : List Digest
  pub generations : List Digest

pub data JobAdmission : Type 0 where
  created exact_replay : Job → JobAdmission

abbrev pub source_kind_eq : SourceKind → SourceKind → Bool
source_kind_eq signer_response signer_response = true
source_kind_eq discovery_handler discovery_handler = true
source_kind_eq _ _ = false

abbrev pub source_eq : Source → Source → Bool
source_eq a b = source_kind_eq a.kind b.kind && a.id == b.id

abbrev pub mode_eq : PolicyMode → PolicyMode → Bool
mode_eq at_least_one_required at_least_one_required = true
mode_eq all_required all_required = true
mode_eq required_quorum required_quorum = true
mode_eq _ _ = false

-- The lists agree in length, relay ids and the required flags.
unfoldable pub same_targets : List Target → List TargetPolicy → Bool
unfolding bytes_eq
same_targets [] [] = true
same_targets (t ∷ ts) (p ∷ ps) =
    bytes_eq t.relay_id p.relay_id && same t.required p.required && same_targets ts ps
same_targets _ _ = false

unfoldable pub exact_job : Job → Source → Digest → ℕ → Policies → Bool
unfolding same_targets
exact_job job source artifact_digest created_at policy =
    source_eq job.source source
    && job.artifact_digest == artifact_digest
    && mode_eq job.policy_mode policy.mode
    && job.required_acknowledgements == policy.required_acknowledgements
    && job.max_attempts == policy.max_attempts
    && job.initial_backoff_ms == policy.initial_backoff_ms
    && job.maximum_backoff_ms == policy.maximum_backoff_ms
    && job.attempt_deadline_ms == policy.attempt_deadline_ms
    && job.created_at == created_at
    && same_targets job.targets policy.targets

abbrev pub read_found : Option Job → Result OperationError (Option Job)
read_found none = ok none
read_found (some j) = read_job j >>= λ job. ok (some job)

unfoldable pub read_job_by_source : Outbox → Source → Result OperationError (Option Job)
read_job_by_source box source = read_found (find (λ j. source_eq j.source source) box.jobs)

-- READ_ACTIVE_JOB_COUNT_SQL.
abbrev pub active_jobs : List Job → ℕ
active_jobs = count_if (λ j. not (is_terminal j.status))

-- INSERT_TARGET_SQL.
abbrev pub new_target : ℕ → ℕ → TargetPolicy → Target
new_target index created_at p = record {
  index = index;
  relay_id = p.relay_id;
  required = p.required;
  attempt_count = 0;
  status = TargetStatus.pending;
  active_attempt_id = none;
  next_attempt_at = none;
  updated_at = created_at;
  attempts = [];
}

-- The loop over the targets of the policy.
unfoldable pub new_targets : ℕ → ℕ → List TargetPolicy → List Target
new_targets index created_at [] = []
new_targets index created_at (p ∷ ps) =
    new_target index created_at p ∷ new_targets (suc index) created_at ps

-- INSERT_JOB_SQL with its targets.
abbrev pub new_job : Digest → Source → Digest → ℕ → Policies → Job
new_job id source artifact_digest created_at policy = record {
  id = id;
  source = source;
  artifact_digest = artifact_digest;
  policy_mode = policy.mode;
  required_acknowledgements = policy.required_acknowledgements;
  max_attempts = policy.max_attempts;
  initial_backoff_ms = policy.initial_backoff_ms;
  maximum_backoff_ms = policy.maximum_backoff_ms;
  attempt_deadline_ms = policy.attempt_deadline_ms;
  status = JobStatus.pending;
  created_at = created_at;
  updated_at = created_at;
  finalized_at = none;
  targets = new_targets 0 created_at policy.targets;
}

-- The trigger `delivery_jobs_guard_insert`.
abbrev pub source_is_known : Outbox → SourceKind → Digest → Bool
source_is_known box signer_response id = any (λ r. r == id) box.requests
source_is_known box discovery_handler id = any (λ g. g == id) box.generations

-- The CHECKs of `delivery_jobs` on a new row.
unfoldable pub jobs_insert_check : Job → Bool
jobs_insert_check j =
    in_range 1 32 j.required_acknowledgements
    && in_range 1 32 j.max_attempts
    && in_range 1 30_000 j.initial_backoff_ms
    && in_range j.initial_backoff_ms 300_000 j.maximum_backoff_ms
    && in_range 1 30_000 j.attempt_deadline_ms
    && in_range 1 i64_max j.created_at

-- The CHECKs of `delivery_targets` on each new row, and UNIQUE (job_id, relay_id).
unfoldable pub targets_insertable : List Target → Bool
unfolding bytes_eq any
targets_insertable [] = true
targets_insertable (t ∷ ts) =
    targets_check t && not (any (λ u. bytes_eq u.relay_id t.relay_id) ts) && targets_insertable ts

-- The inserts of `create_job`, with the keys and constraints of the tables.
unfoldable pub insert_job : Outbox → Job → Result OperationError Outbox
unfolding targets_insertable any
insert_job box job =
    if any (λ j. j.id == job.id || source_eq j.source job.source) box.jobs
      || not (source_is_known box job.source.kind job.source.id)
      || not (jobs_insert_check job)
      || not (targets_insertable job.targets)
    then err storage
    else ok (record box { jobs = job ∷ box.jobs })

unfoldable pub create_job :
    (Source → Digest → Digest)
    → Outbox
    → Source
    → Digest
    → ℕ
    → Policies
    → Result OperationError (JobAdmission × Outbox)
create_job derive_job_id box source artifact_digest created_at policy =
    read_job_by_source box source >>= λ found. elim found [
      | some existing ↦
          if exact_job existing source artifact_digest created_at policy
          then ok (exact_replay existing, box)
          else err binding
      | none ↦
          if leb policy.outbox_maximum (active_jobs box.jobs)
          then err binding
          else (let job =
                new_job (derive_job_id source artifact_digest) source artifact_digest created_at
                  policy in
              insert_job box job >>= λ box'. read_job job >>= λ record_. ok (created record_, box'))
    ]
