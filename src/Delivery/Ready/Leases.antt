-- ===== src/Delivery/Ready/Leases.antt =====
-- The whole claim of a ready target: the lease, and the job that becomes active.
use myc.Common.{
  on_first-found, find-all, find-All, ℕ, suc, ◌+◌, if◌then◌else◌, ◌≤◌, ◌<◌, ◌≡◌, Bool, true, false,
  ◌||◌, some, List, [], ◌∷◌, ok, arith, any, find, find-true, ◌==◌, i64_max, length, Bool-cases,
  inl, inr,
}
use myc.Delivery.Types.{
  Digest, RelayId, binding, Target, Job, JobStatus, claimed, is_terminal, is_pending,
}
use myc.Delivery.Rows.{
  job_rows_valid, target_row_valid, indices_from, read_job, jobs_check, jobs_guard_update,
}
use myc.Delivery.Statements.{has_relay, on_target}
use myc.Delivery.Claim.{claim_target, claim_on_target, leased_attempt, mark_job_active}
use myc.Delivery.Claim.Lease.{leased_target}
use myc.Delivery.Invariant.{TargetInv, JobInv}
use myc.Delivery.Ready.{target_ready}
use myc.Delivery.Ready.Claims.{ready-claim_on_target}

find-index :
    (i : ℕ) (test : Target → Bool) (ts : List Target) (t : Target)
    → indices_from i ts ≡ true
    → find test ts ≡ some t
    → t.index < i + length ts
unfolding indices_from find
find-index i test [] t h f = cc
find-index i test (u ∷ ts) t h f = elim (Bool-cases (test u)) [
  | inl hit ↦ ground (arith, hit)
  | inr miss ↦ let rest = find-index (suc i) test ts t (ground arith) (rw miss at f) in ground arith
]

-- What a stored job says of one of its targets.
stored_target :
    (j : Job) (relay_id : RelayId) (t : Target)
    → job_rows_valid j ≡ true
    → find (has_relay relay_id) j.targets ≡ some t
    → (target_row_valid t ≡ true) × (t.index ≤ 31)
unfolding job_rows_valid
stored_target j relay_id t v f =
    let below = find-index 0 (has_relay relay_id) j.targets t (ground arith) f in
    (find-all target_row_valid (has_relay relay_id) j.targets t (ground arith) f, ground arith)

-- The job's row after a claim.
abbrev pub active_job : ℕ → Job → List Target → Job
active_job claimed_at j targets = record j {
  status = JobStatus.active;
  updated_at = if is_pending j.status then claimed_at else j.updated_at;
  targets = targets;
}

active_again : (s : JobStatus) → is_terminal s ≡ false → is_pending s ≡ false → s ≡ JobStatus.active
active_again s h g = ground arith

pending_status : (s : JobStatus) → is_pending s ≡ true → s ≡ JobStatus.pending
pending_status s h = ground arith

-- MARK_JOB_ACTIVE_SQL goes through on a live job.
mark_job_active_ok :
    (j : Job) (claimed_at : ℕ) (targets : List Target)
    → job_rows_valid j ≡ true
    → is_terminal j.status ≡ false
    → j.created_at ≤ j.updated_at
    → j.updated_at ≤ claimed_at
    → claimed_at ≤ i64_max
    → mark_job_active claimed_at (record j { targets = targets })
      ≡ ok (active_job claimed_at j targets)
unfolding mark_job_active jobs_check jobs_guard_update job_rows_valid
mark_job_active_ok j claimed_at targets v live a b d = elim (Bool-cases (is_pending j.status)) [
  | inl waiting ↦ ground (arith, pending_status j.status waiting)
  | inr working ↦ ground (arith, active_again j.status live working)
]

ready_live :
    (j : Job) (at : ℕ) (t : Target) → target_ready j at t ≡ true → is_terminal j.status ≡ false
unfolding target_ready
ready_live j at t h = ground arith

module _ (derive : Digest → ℕ → ℕ → Digest → Digest) (in_use : Digest → Bool) where
  -- If the query calls a target ready, the claim of that instant leases it and commits: it answers with
  -- the new attempt, leaves the job active, and the target's row with the lease. The job is stored as the
  -- tables admit it and keeps the invariant, the target is the one with that relay, neither row was
  -- changed after that instant, the lease ends at an instant that the database can hold, and the nonce
  -- and the new attempt's id are fresh.
  pub ready_target_is_claimed :
      (j : Job) (relay_id : RelayId) (nonce claimed_at : ℕ) (t : Target)
      → find (has_relay relay_id) j.targets ≡ some t
      → target_ready j claimed_at t ≡ true
      → job_rows_valid j ≡ true
      → JobInv j
      → j.created_at ≤ j.updated_at
      → j.updated_at ≤ claimed_at
      → t.updated_at ≤ claimed_at
      → claimed_at + j.attempt_deadline_ms ≤ i64_max
      → in_use (derive j.id t.index (t.attempt_count + 1) nonce) ≡ false
      → any
          (λ b. b.id == derive j.id t.index (t.attempt_count + 1) nonce || b.nonce == nonce)
          t.attempts
        ≡ false
      → let a =
          leased_attempt
            (derive j.id t.index (t.attempt_count + 1) nonce)
            (t.attempt_count + 1)
            nonce
            claimed_at
            (claimed_at + j.attempt_deadline_ms) in
        (targets : List Target) × (claim_target derive in_use relay_id nonce claimed_at j
          ≡ ok (claimed a, active_job claimed_at j targets))
        × (find (has_relay relay_id) targets ≡ some (leased_target a claimed_at t))
  unfolding claim_target read_job on_target
  ready_target_is_claimed j relay_id nonce claimed_at t found ready v inv made old later room unused
        fresh =
      let (row, small) = stored_target j relay_id t v found in
      let leased =
        ready-claim_on_target derive in_use j nonce claimed_at t ready v row small
          (find-All (TargetInv j.max_attempts) (has_relay relay_id) j.targets t inv.targets_inv
            found)
          later room unused fresh in
      let (targets, e, kept) =
        on_first-found (has_relay relay_id) binding
          (claim_on_target derive in_use j nonce claimed_at) j.targets t _ _ found leased
          (find-true (has_relay relay_id) j.targets found) in
      let live : is_terminal j.status ≡ false = ready_live j claimed_at t ready in
      (
        targets,
        rw v (
            rw live
              (rw e (rw (mark_job_active_ok j claimed_at targets v live made old (omega arith))))),
        kept,
      )
