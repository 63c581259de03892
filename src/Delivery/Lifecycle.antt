-- ===== src/Delivery/Lifecycle.antt =====
-- The life of a job: the calls that change it, one transaction at a time and in any order, by any
-- callers. A call that returns an error changes nothing, so it is no step.
use myc.Common.{ℕ, ◌≡◌, Bool, ok}
use myc.Delivery.Types.{Digest, RelayId, Claim, Attempt, AttemptOutcome, Job}
use myc.Delivery.Claim.{claim_target}
use myc.Delivery.Claim.Invariant.{claim_target-JobInv}
use myc.Delivery.Submit.{mark_submitted}
use myc.Delivery.Submit.Invariant.{mark_submitted-JobInv}
use myc.Delivery.Resolve.{record_outcome, recover_expired}
use myc.Delivery.Resolve.Invariant.{record_outcome-JobInv, recover_expired-JobInv}
use myc.Delivery.Invariant.{JobInv}

module _ (derive : Digest → ℕ → ℕ → Digest → Digest) where
  -- `in_use` is what the rest of the database answers at the time of the claim.
  pub data Step (j j' : Job) : Type 0 where
    claims :
        (in_use : Digest → Bool) (relay_id : RelayId) (nonce claimed_at : ℕ) (c : Claim)
        → claim_target derive in_use relay_id nonce claimed_at j ≡ ok (c, j')
        → Step j j'
    submits :
        (relay_id : RelayId) (attempt_id submitted_at : ℕ) (a : Attempt)
        → mark_submitted relay_id attempt_id submitted_at j ≡ ok (a, j')
        → Step j j'
    records :
        (relay_id : RelayId) (attempt_id : Digest) (outcome : AttemptOutcome)
        (jitter observed_at : ℕ)
        → record_outcome relay_id attempt_id outcome jitter observed_at j ≡ ok j'
        → Step j j'
    recovers :
        (relay_id : RelayId) (attempt_id : Digest) (jitter observed_at : ℕ)
        → recover_expired relay_id attempt_id jitter observed_at j ≡ ok j'
        → Step j j'

  pub data Reach (j : Job) : Job → Type 0 where
    here : Reach j j
    next : {k l : Job} → Reach j k → Step k l → Reach j l

  Step-JobInv : (j j' : Job) → Step j j' → JobInv j → JobInv j'
  Step-JobInv j j' (claims in_use relay_id nonce claimed_at c h) v =
      claim_target-JobInv derive in_use relay_id nonce claimed_at j c j' h v
  Step-JobInv j j' (submits relay_id attempt_id submitted_at a h) v =
      mark_submitted-JobInv relay_id attempt_id submitted_at j a j' h v
  Step-JobInv j j' (records relay_id attempt_id outcome jitter observed_at h) v =
      record_outcome-JobInv relay_id attempt_id outcome jitter observed_at j j' h v
  Step-JobInv j j' (recovers relay_id attempt_id jitter observed_at h) v =
      recover_expired-JobInv relay_id attempt_id jitter observed_at j j' h v

  -- Whatever the order of the calls, the invariant holds.
  pub Reach-JobInv : {j j' : Job} → JobInv j → Reach j j' → JobInv j'
  Reach-JobInv v here = v
  Reach-JobInv v (next r s) = Step-JobInv _ _ s (Reach-JobInv v r)
