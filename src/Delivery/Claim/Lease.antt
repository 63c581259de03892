-- ===== src/Delivery/Claim/Lease.antt =====
-- What a successful claim writes.
use myc.Common.{ℕ, ◌+◌, ◌≡◌, Bool, true, none, some, ◌∷◌, ok, arith, find}
use myc.Delivery.Types.{
  Digest, TargetStatus, Attempt, Target, Job, Claim, claimed, target_is_claimable,
}
use myc.Delivery.Rows.{parse_attempt}
use myc.Delivery.Statements.{read_attempt}
use myc.Delivery.Claim.{lease_attempt, leased_attempt}

abbrev pub leased_target : Attempt → ℕ → Target → Target
leased_target a claimed_at t = record t {
  attempt_count = t.attempt_count + 1;
  status = TargetStatus.leased;
  active_attempt_id = some a.id;
  next_attempt_at = none;
  updated_at = claimed_at;
  attempts = a ∷ t.attempts;
}

module _ (derive : Digest → ℕ → ℕ → Digest → Digest) (in_use : Digest → Bool) where
  pub lease_attempt-eq-ok :
      (job : Job) (nonce claimed_at : ℕ) (t : Target) (c : Claim) (t' : Target)
      → lease_attempt derive in_use job nonce claimed_at t ≡ ok (c, t')
      → let a =
          leased_attempt
            (derive job.id t.index (t.attempt_count + 1) nonce)
            (t.attempt_count + 1)
            nonce
            claimed_at
            (claimed_at + job.attempt_deadline_ms) in
        (c ≡ claimed a) × (t' ≡ leased_target a claimed_at t)
  unfolding lease_attempt read_attempt parse_attempt find
  lease_attempt-eq-ok job nonce claimed_at t c t' h = ground arith

  -- Only a target with no open attempt is leased.
  pub lease_attempt_claimable :
      (job : Job) (nonce claimed_at : ℕ) (t : Target) (c : Claim) (t' : Target)
      → lease_attempt derive in_use job nonce claimed_at t ≡ ok (c, t')
      → target_is_claimable t.status ≡ true
  unfolding lease_attempt
  lease_attempt_claimable job nonce claimed_at t c t' h = ground arith
