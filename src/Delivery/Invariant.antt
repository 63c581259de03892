-- ===== src/Delivery/Invariant.antt =====
-- What every stored job satisfies: the attempts of a target are numbered without a gap up to its
-- count, at most one of them is open, it is the newest and the one that the target names as active,
-- and the target's status tells how the newest attempt stands.
use myc.Common.{
  ℕ, ◌-◌, ◌≤◌, ◌<◌, ◌≡◌, true, Option, none, some, List, [], ◌∷◌, All, arith, Result, ok,
  on_first-All,
}
use myc.Delivery.Rows.{read_job}
use myc.Delivery.Statements.{on_target, has_relay}
use myc.Delivery.Types.{
  Digest, RelayId, OperationError, binding, TargetStatus, AttemptStatus, Attempt, Target, Job,
  attempt_is_resolved, target_is_claimable,
}

abbrev pub Settled : List Attempt → Type 0
Settled = All (λ a. attempt_is_resolved a.status ≡ true)

abbrev pub Numbered : ℕ → List Attempt → Type 0
Numbered n [] = n ≡ 0
Numbered n (a ∷ older) = (a.number ≡ n) × (0 < n) × Numbered (n - 1) older

-- The newest attempt has this status and is the active one.
abbrev pub IsOpen : AttemptStatus → Option Digest → List Attempt → Type 0
IsOpen status active [] = ⊥
IsOpen status active (a ∷ older) = (active ≡ some a.id) × (a.status ≡ status) × Settled older

-- The newest attempt ended with this status, and none is active.
abbrev pub IsClosed : AttemptStatus → Option Digest → List Attempt → Type 0
IsClosed status active [] = ⊥
IsClosed status active (a ∷ older) = (active ≡ none) × (a.status ≡ status) × Settled older

abbrev pub History : TargetStatus → Option Digest → List Attempt → Type 0
History TargetStatus.pending active attempts = (active ≡ none) × (attempts ≡ [])
History TargetStatus.leased active attempts = IsOpen AttemptStatus.leased active attempts
History TargetStatus.submitted active attempts = IsOpen AttemptStatus.submitted active attempts
History TargetStatus.delivered active attempts = IsClosed AttemptStatus.delivered active attempts
History TargetStatus.retryable active attempts = IsClosed AttemptStatus.failed active attempts
History TargetStatus.unknown active attempts = IsClosed AttemptStatus.unknown active attempts
History TargetStatus.exhausted active attempts = IsClosed AttemptStatus.failed active attempts

-- No attempt is left to an exhausted target, and one is left to a target that waits for its retry.
abbrev pub Spent : TargetStatus → ℕ → ℕ → Type 0
Spent TargetStatus.exhausted count max_attempts = count ≡ max_attempts
Spent TargetStatus.retryable count max_attempts = count < max_attempts
Spent _ count max_attempts = Unit {0}

-- A target that may be claimed has no open attempt.
pub History-Settled :
    (status : TargetStatus) (active : Option Digest) (attempts : List Attempt)
    → History status active attempts
    → target_is_claimable status ≡ true
    → Settled attempts
History-Settled TargetStatus.pending active attempts v claimable = ground arith
History-Settled _ active [] v claimable = tt
History-Settled _ active (a ∷ older) v claimable = ground arith

pub record TargetInv (max_attempts : ℕ) (t : Target) : Type 0 where
  pub capped : t.attempt_count ≤ max_attempts
  pub numbered : Numbered t.attempt_count t.attempts
  pub history : History t.status t.active_attempt_id t.attempts
  pub spent : Spent t.status t.attempt_count max_attempts

pub record JobInv (j : Job) : Type 0 where
  pub targets_inv : All (TargetInv j.max_attempts) j.targets

-- Work on one target that keeps the invariant of a target keeps the invariant of the job.
pub on_target-JobInv :
    {B : Type 0} (relay_id : RelayId) (step : Target → Result OperationError (B × Target)) (j : Job)
    (b : B) (j' : Job)
    → ((t : Target) (c : B) (t' : Target)
        → step t ≡ ok (c, t')
        → TargetInv j.max_attempts t
        → TargetInv j.max_attempts t')
    → on_target relay_id step j ≡ ok (b, j')
    → JobInv j
    → JobInv j'
unfolding on_target
on_target-JobInv relay_id step j b j' keep h v = ground (
  arith,
  on_first-All (TargetInv j.max_attempts) (has_relay relay_id) binding step j.targets b j'.targets
      keep,
)

pub read_job-eq-ok : (j j' : Job) → read_job j ≡ ok j' → j' ≡ j
unfolding read_job
read_job-eq-ok j j' h = ground arith
