-- ===== src/Delivery/Lifetime.antt =====
-- From the creation of a job on: what holds in every state that a job of an accepted policy reaches.
use myc.Common.{
  ℕ, suc, ◌≤◌, ◌<◌, ◌≡◌, refl, sym, subst, true, Option, List, [], ◌∷◌, All, ok, arith, count_if,
}
use myc.Delivery.Types.{Digest, Source, PolicyMode, Job, JobStatus, is_terminal}
use myc.Delivery.Rows.{read_job}
use myc.Delivery.Policy.{TargetPolicy, Policies, policies_new, policy_valid, required_count}
use myc.Delivery.Create.{Outbox, created, create_job, new_job, new_targets}
use myc.Delivery.Finalize.{is_delivered, is_possible, is_delivered_required, is_possible_required}
use myc.Delivery.Invariant.{TargetInv, JobInv}
use myc.Delivery.Reading.{acknowledged, attainable, targets_reading}
use myc.Delivery.Outcome.{Decided, Reach-Decided, Reach-Ended}
use myc.Delivery.Lifecycle.{Reach, Reach-JobInv}

new_targets-TargetInv :
    (max_attempts index created_at : ℕ) (ps : List TargetPolicy)
    → All (TargetInv max_attempts) (new_targets index created_at ps)
unfolding new_targets
new_targets-TargetInv max_attempts index created_at [] = tt
new_targets-TargetInv max_attempts index created_at (p ∷ ps) =
    (ground arith, new_targets-TargetInv max_attempts (suc index) created_at ps)

new_targets-delivered :
    (index created_at : ℕ) (ps : List TargetPolicy)
    → count_if is_delivered_required (new_targets index created_at ps) ≡ 0
unfolding new_targets count_if
new_targets-delivered index created_at [] = refl
new_targets-delivered index created_at (p ∷ ps) =
    ground (arith, new_targets-delivered (suc index) created_at ps)

new_targets-possible :
    (max_attempts index created_at : ℕ) (ps : List TargetPolicy)
    → count_if (is_possible_required max_attempts) (new_targets index created_at ps)
      ≡ required_count ps
unfolding new_targets count_if
new_targets-possible max_attempts index created_at [] = refl
new_targets-possible max_attempts index created_at (p ∷ ps) =
    ground (arith, new_targets-possible max_attempts (suc index) created_at ps)

-- A new job has no attempt, and its policy can still be met.
new_job-Decided :
    (id : Digest) (source : Source) (artifact created_at : ℕ) (policy : Policies)
    → policy_valid policy ≡ true
    → Decided (new_job id source artifact created_at policy)
unfolding policy_valid is_delivered is_possible
new_job-Decided id source artifact created_at policy h = ground (
  arith,
  new_targets-delivered 0 created_at policy.targets,
  new_targets-possible policy.max_attempts 0 created_at policy.targets,
)

policies_new-valid :
    (mode : PolicyMode) (quorum : Option ℕ) (attempts initial maximum deadline outbox : ℕ)
    (targets : List TargetPolicy) (p : Policies)
    → policies_new mode quorum attempts initial maximum deadline outbox targets ≡ ok p
    → policy_valid p ≡ true
unfolding policies_new
policies_new-valid mode quorum attempts initial maximum deadline outbox targets p h = ground arith

create_job-eq-created :
    (derive_job_id : Source → Digest → Digest) (box : Outbox) (source : Source)
    (artifact created_at : ℕ) (policy : Policies) (j : Job) (box' : Outbox)
    → create_job derive_job_id box source artifact created_at policy ≡ ok (created j, box')
    → j ≡ new_job (derive_job_id source artifact) source artifact created_at policy
unfolding create_job read_job
create_job-eq-created derive_job_id box source artifact created_at policy j box' h = ground arith

-- What a status says of the acknowledgements that the policy needs.
abbrev pub StatusMeans : JobStatus → ℕ → ℕ → ℕ → Type 0
StatusMeans JobStatus.pending needed got can = (got < needed) × (needed ≤ can)
StatusMeans JobStatus.active needed got can = (got < needed) × (needed ≤ can)
StatusMeans JobStatus.delivered needed got can = needed ≤ got
StatusMeans JobStatus.failed needed got can = can < needed
StatusMeans JobStatus.unknown needed got can = can < needed

Decided-StatusMeans :
    (status : JobStatus) (j : Job)
    → j.status ≡ status
    → Decided j
    → StatusMeans status j.required_acknowledgements
        (count_if is_delivered_required j.targets)
        (count_if (is_possible_required j.max_attempts) j.targets)
unfolding is_delivered is_possible
Decided-StatusMeans JobStatus.pending j e v = ground (arith, v.while_open)
Decided-StatusMeans JobStatus.active j e v = ground (arith, v.while_open)
Decided-StatusMeans JobStatus.delivered j e v = ground (arith, v.when_delivered e)
Decided-StatusMeans JobStatus.failed j e v = ground (arith, v.when_failed e)
Decided-StatusMeans JobStatus.unknown j e v = ground (arith, v.when_unknown e)

module _ (derive_job_id : Source → Digest → Digest)
    (derive_attempt_id : Digest → ℕ → ℕ → Digest → Digest) (box : Outbox) (source : Source)
    (artifact created_at : ℕ) (policy : Policies) (valid : policy_valid policy ≡ true) (j : Job)
    (box' : Outbox)
    (admitted : create_job derive_job_id box source artifact created_at policy
      ≡ ok (created j, box')) where
  created-Decided : Decided j
  created-Decided =
      subst Decided
        (sym (
          create_job-eq-created derive_job_id box source artifact created_at policy j box'
            admitted))
        (new_job-Decided _ source artifact created_at policy valid)

  created-JobInv : JobInv j
  created-JobInv =
      subst JobInv
        (sym (
          create_job-eq-created derive_job_id box source artifact created_at policy j box'
            admitted))
        (record {
          targets_inv = new_targets-TargetInv policy.max_attempts 0 created_at policy.targets;
        })

  -- A job is created under a valid policy, and any calls follow in any order. Read off the log of the
  -- attempts, while the job is pending or active, fewer required targets than the policy needs have
  -- acknowledged the artifact, and enough have or still may. Once it is delivered, enough have; once it
  -- is failed or unknown, too few have or ever can: the others used up their attempts.
  pub job-StatusMeans :
      (j' : Job)
      → Reach derive_attempt_id j j'
      → StatusMeans j'.status j'.required_acknowledgements (acknowledged j') (attainable j')
  job-StatusMeans j' r =
      let (d, p) =
        targets_reading j'.max_attempts j'.targets
          (Reach-JobInv derive_attempt_id created-JobInv r).targets_inv in
      let m =
        Decided-StatusMeans j'.status j' refl (Reach-Decided derive_attempt_id created-Decided r) in
      subst (λ n. StatusMeans j'.status j'.required_acknowledgements n (attainable j')) d
        (subst
          (λ n.
            StatusMeans j'.status j'.required_acknowledgements
              (count_if is_delivered_required j'.targets) n)
          p m)

  -- A job is created under a valid policy, and any calls follow in any order. Each of its targets has
  -- at most `max_attempts` attempts, numbered from 1 without a gap; all but the newest have ended; the
  -- target's status tells how the newest stands, its active attempt is the newest if that is open and
  -- none otherwise; an exhausted target has used all its attempts, and a retryable one has not.
  pub job_targets_inv :
      (j' : Job) → Reach derive_attempt_id j j' → All (TargetInv j'.max_attempts) j'.targets
  job_targets_inv j' r = (Reach-JobInv derive_attempt_id created-JobInv r).targets_inv

  -- A job is created under a valid policy and any calls follow. If it has ended then, whatever other
  -- calls come after, it keeps its status and the time at which it ended.
  pub job_end_is_final :
      (k l : Job)
      → Reach derive_attempt_id j k
      → is_terminal k.status ≡ true
      → Reach derive_attempt_id k l
      → (l.status ≡ k.status) × (l.finalized_at ≡ k.finalized_at)
  job_end_is_final k l r ended s =
      Reach-Ended derive_attempt_id (Reach-Decided derive_attempt_id created-Decided r) s ended
