-- ===== src/Delivery/Ready/Terms.antt =====
-- What the query for ready targets means, said without its tests, and that its tests say so.
use mathlib.Core.List.{Memᴰ}
use myc.Common.{
  ℕ, ◌<◌, ◌≤◌, ◌≡◌, ◌⊎◌, refl, true, false, Option, none, some, List, All, arith, inl, inr,
}
use myc.Delivery.Types.{Target, Job, JobStatus, TargetStatus, is_terminal, target_is_claimable}
use myc.Delivery.Ready.{target_ready, row_before, is_due}

-- A target that work may start on: its job is live, it is not leased, delivered or exhausted, attempts
-- are left, and its next attempt is due.
abbrev pub IsLive : JobStatus → Type 0
IsLive status = (status ≡ JobStatus.pending) ⊎ (status ≡ JobStatus.active)

abbrev pub IsIdle : TargetStatus → Type 0
IsIdle status =
    (status ≡ TargetStatus.pending)
    ⊎ (status ≡ TargetStatus.retryable)
    ⊎ (status ≡ TargetStatus.unknown)

abbrev pub IsDue : Option ℕ → ℕ → Type 0
IsDue none observed_at = Unit
IsDue (some next) observed_at = next ≤ observed_at

abbrev pub IsReady : ℕ → Job × Target → Type 0
IsReady observed_at (j, t) =
    IsLive j.status
    × IsIdle t.status
    × (t.attempt_count < j.max_attempts)
    × (t.active_attempt_id ≡ none)
    × IsDue t.next_attempt_at observed_at

-- The row's job was created earlier; or at the same time, and its id is lower; or it is of the same
-- job, and its index is lower.
abbrev pub Precedes : Job × Target → Job × Target → Type 0
Precedes (j, t) (k, u) =
    (j.created_at < k.created_at)
    ⊎ ((j.created_at ≡ k.created_at) × (j.id < k.id))
    ⊎ ((j.created_at ≡ k.created_at) × (j.id ≡ k.id) × (t.index < u.index))

-- The property holds of every target of these jobs.
abbrev pub EveryTarget : (Job × Target → Type 0) → List Job → Type 0
EveryTarget P = All (λ j. All (λ t. P (j, t)) j.targets)

-- What the query returns: nothing if no target is ready; else a target of one of the jobs, which is
-- ready, and which no ready one precedes.
abbrev pub IsNext : Option (Job × Target) → ℕ → List Job → Type 0
IsNext none observed_at jobs = EveryTarget (λ x. ¬ IsReady observed_at x) jobs
IsNext (some r) observed_at jobs =
    Memᴰ r.0 jobs
    × Memᴰ r.1 r.0.targets
    × IsReady observed_at r
    × EveryTarget (λ x. ¬ (IsReady observed_at x × Precedes x r)) jobs

IsLive-status : (s : JobStatus) → is_terminal s ≡ false → IsLive s
IsLive-status JobStatus.pending h = inl refl
IsLive-status JobStatus.active h = inr refl
IsLive-status JobStatus.delivered h = cc
IsLive-status JobStatus.failed h = cc
IsLive-status JobStatus.unknown h = cc

status_live : (s : JobStatus) → IsLive s → is_terminal s ≡ false
status_live s (inl e) = ground arith
status_live s (inr e) = ground arith

IsIdle-status : (s : TargetStatus) → target_is_claimable s ≡ true → IsIdle s
IsIdle-status TargetStatus.pending h = inl refl
IsIdle-status TargetStatus.leased h = cc
IsIdle-status TargetStatus.submitted h = cc
IsIdle-status TargetStatus.retryable h = inr (inl refl)
IsIdle-status TargetStatus.unknown h = inr (inr refl)
IsIdle-status TargetStatus.delivered h = cc
IsIdle-status TargetStatus.exhausted h = cc

status_idle : (s : TargetStatus) → IsIdle s → target_is_claimable s ≡ true
status_idle s (inl e) = ground arith
status_idle s (inr (inl e)) = ground arith
status_idle s (inr (inr e)) = ground arith

due : (next : Option ℕ) (at : ℕ) → is_due next at ≡ true → IsDue next at
due none at h = tt
due (some next) at h = ground arith

is_due-IsDue : (next : Option ℕ) (at : ℕ) → IsDue next at → is_due next at ≡ true
is_due-IsDue none at v = refl
is_due-IsDue (some next) at v = ground arith

pub target_ready-IsReady :
    (at : ℕ) (j : Job) (t : Target) → target_ready j at t ≡ true → IsReady at (j, t)
unfolding target_ready
target_ready-IsReady at j t h = (
  IsLive-status j.status (ground arith),
  IsIdle-status t.status (ground arith),
  ground arith,
  ground arith,
  due t.next_attempt_at at (ground arith),
)

pub IsReady-target_ready :
    (at : ℕ) (j : Job) (t : Target) → IsReady at (j, t) → target_ready j at t ≡ true
unfolding target_ready
IsReady-target_ready at j t (live, idle, room, free, time) =
    rw (status_live j.status live)
      (rw (status_idle t.status idle) (rw (is_due-IsDue t.next_attempt_at at time) (ground arith)))

pub row_before-Precedes : (x r : Job × Target) → Precedes x r → row_before x r ≡ true
unfolding row_before
row_before-Precedes (j, t) (k, u) (inl e) = ground arith
row_before-Precedes (j, t) (k, u) (inr (inl e)) = ground arith
row_before-Precedes (j, t) (k, u) (inr (inr e)) = ground arith
