-- ===== src/Delivery/Progress.antt =====
-- How one call may change a target: its identity stays, its attempts grow, a delivered target stays
-- delivered, and one that can no longer deliver never can again.
use myc.Common.{ℕ, ◌≤◌, ◌≡◌, inl, inr, Bool, true, false, ok, arith, leb}
use myc.Delivery.Types.{Digest, Claim, Attempt, AttemptStatus, AttemptOutcome, Reason, Target, Job}
use myc.Delivery.Claim.{claim_on_target, lease_attempt}
use myc.Delivery.Claim.Lease.{lease_attempt-eq-ok, lease_attempt_claimable}
use myc.Delivery.Submit.{submit_on_target, submit_attempt}
use myc.Delivery.Submit.Invariant.{submit_on_target-eq-ok}
use myc.Delivery.Finalize.{is_delivered_required, is_possible_required}
use myc.Delivery.Resolve.{resolve_attempt_and_target, outcome_on_target, recover_on_target}
use myc.Delivery.Resolve.Invariant.{
  resolve_attempt_and_target-eq-ok, resolve_attempt-frame, outcome_on_target-eq-ok,
  recover_on_target-eq-ok,
}

pub record Advances (max_attempts : ℕ) (t t' : Target) : Type 0 where
  pub same_index : t'.index ≡ t.index
  pub same_relay : t'.relay_id ≡ t.relay_id
  pub same_required : t'.required ≡ t.required
  pub count_grows : t.attempt_count ≤ t'.attempt_count
  pub delivered_stays : is_delivered_required t ≡ true → is_delivered_required t' ≡ true
  pub possible_shrinks :
      is_possible_required max_attempts t' ≡ true → is_possible_required max_attempts t ≡ true

-- The same, where no target's standing towards the policy changes.
pub record Keeps (max_attempts : ℕ) (t t' : Target) : Type 0 where
  pub advances : Advances max_attempts t t'
  pub delivered_same : is_delivered_required t' ≡ is_delivered_required t
  pub possible_same : is_possible_required max_attempts t' ≡ is_possible_required max_attempts t

pub Advances-refl : (max_attempts : ℕ) (t : Target) → Advances max_attempts t t
Advances-refl max_attempts t = ground arith

pub Keeps-refl : (max_attempts : ℕ) (t : Target) → Keeps max_attempts t t
Keeps-refl max_attempts t = ground arith

module _ (derive : Digest → ℕ → ℕ → Digest → Digest) (in_use : Digest → Bool) where
  lease_attempt-Keeps :
      (job : Job) (nonce claimed_at : ℕ) (t : Target) (c : Claim) (t' : Target)
      → lease_attempt derive in_use job nonce claimed_at t ≡ ok (c, t')
      → leb job.max_attempts t.attempt_count ≡ false
      → Keeps job.max_attempts t t'
  lease_attempt-Keeps job nonce claimed_at t c t' h room = ground (
    arith,
    lease_attempt-eq-ok derive in_use job nonce claimed_at t c t' h,
    lease_attempt_claimable derive in_use job nonce claimed_at t c t' h,
  )

  pub claim_on_target-Keeps :
      (job : Job) (nonce claimed_at : ℕ) (t : Target) (c : Claim) (t' : Target)
      → claim_on_target derive in_use job nonce claimed_at t ≡ ok (c, t')
      → Keeps job.max_attempts t t'
  unfolding claim_on_target
  claim_on_target-Keeps job nonce claimed_at t c t' h =
      ground (arith, lease_attempt-Keeps job nonce claimed_at t c t', Keeps-refl job.max_attempts t)

submit_attempt-frame :
    (attempt_id submitted_at : ℕ) (t m : Target)
    → submit_attempt attempt_id submitted_at t ≡ ok m
    → m ≡ record t { attempts = m.attempts }
unfolding submit_attempt
submit_attempt-frame attempt_id submitted_at t m h = ground arith

pub submit_on_target-Keeps :
    (max attempt_id submitted_at : ℕ) (t : Target) (a : Attempt) (t' : Target)
    → submit_on_target attempt_id submitted_at t ≡ ok (a, t')
    → Keeps max t t'
submit_on_target-Keeps max attempt_id submitted_at t a t' h =
    elim (submit_on_target-eq-ok attempt_id submitted_at t a t' h) [
      | inl same ↦ ground arith
      | inr write ↦
          let (m, e, leased, active, out) = write in
          ground (arith, submit_attempt-frame attempt_id submitted_at t m e)
    ]

resolve_attempt_and_target-Advances :
    (job : Job) (attempt : Attempt) (prior terminal : AttemptStatus) (reason : Reason)
    (jitter observed_at : ℕ) (t t' : Target)
    → resolve_attempt_and_target job attempt prior terminal reason jitter observed_at t ≡ ok t'
    → Advances job.max_attempts t t'
resolve_attempt_and_target-Advances job attempt prior terminal reason jitter observed_at t t' h =
    let (m, e, res, mp, ma, out) =
      resolve_attempt_and_target-eq-ok job attempt prior terminal reason jitter observed_at t t'
        h in
    ground (arith, resolve_attempt-frame attempt.id prior terminal reason observed_at t m e)

pub outcome_on_target-Advances :
    (job : Job) (attempt_id : Digest) (outcome : AttemptOutcome) (jitter observed_at : ℕ)
    (t : Target) (now : Bool) (t' : Target)
    → outcome_on_target job attempt_id outcome jitter observed_at t ≡ ok (now, t')
    → Advances job.max_attempts t t'
outcome_on_target-Advances job attempt_id outcome jitter observed_at t now t' h =
    elim (outcome_on_target-eq-ok job attempt_id outcome jitter observed_at t now t' h) [
      | inl same ↦ rw same.1 (Advances-refl job.max_attempts t)
      | inr write ↦
          let (a, prior, e) = write in
          resolve_attempt_and_target-Advances job a _ _ _ jitter observed_at t t' e
    ]

-- A replay writes nothing.
pub outcome_on_target-Keeps :
    (job : Job) (attempt_id : Digest) (outcome : AttemptOutcome) (jitter observed_at : ℕ)
    (t t' : Target)
    → outcome_on_target job attempt_id outcome jitter observed_at t ≡ ok (false, t')
    → Keeps job.max_attempts t t'
unfolding outcome_on_target
outcome_on_target-Keeps job attempt_id outcome jitter observed_at t t' h =
    ground (arith, Keeps-refl job.max_attempts t)

pub recover_on_target-Keeps :
    (job : Job) (attempt_id : Digest) (jitter observed_at : ℕ) (t t' : Target)
    → recover_on_target job attempt_id jitter observed_at t ≡ ok (false, t')
    → Keeps job.max_attempts t t'
unfolding recover_on_target
recover_on_target-Keeps job attempt_id jitter observed_at t t' h =
    ground (arith, Keeps-refl job.max_attempts t)

pub recover_on_target-Advances :
    (job : Job) (attempt_id : Digest) (jitter observed_at : ℕ) (t : Target) (now : Bool)
    (t' : Target)
    → recover_on_target job attempt_id jitter observed_at t ≡ ok (now, t')
    → Advances job.max_attempts t t'
recover_on_target-Advances job attempt_id jitter observed_at t now t' h =
    elim (recover_on_target-eq-ok job attempt_id jitter observed_at t now t' h) [
      | inl same ↦ rw same.1 (Advances-refl job.max_attempts t)
      | inr write ↦
          let (a, prior, e) = write in
          resolve_attempt_and_target-Advances job a _ _ _ jitter observed_at t t' e
    ]
