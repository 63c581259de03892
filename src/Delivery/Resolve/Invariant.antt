-- ===== src/Delivery/Resolve/Invariant.antt =====
-- Ending an attempt keeps the invariant of the job.
use myc.Common.{
  ℕ, ◌≡◌, refl, subst, ◌⊎◌, inl, inr, Bool, true, false, List, [], ◌∷◌, Option, none, some, ok, ltb,
  >>=-eq-ok, arith, update_first,
}
use myc.Delivery.Types.{
  Digest, RelayId, Attempt, AttemptStatus, AttemptOutcome, Reason, Target, TargetStatus, Job,
}
use myc.Delivery.Rows.{read_job}
use myc.Delivery.Statements.{on_target, read_attempt}
use myc.Delivery.Finalize.{finalize_job_if_terminal, finalize_job}
use myc.Delivery.Invariant.{
  IsOpen, Numbered, History, TargetInv, JobInv, on_target-JobInv, read_job-eq-ok,
}
use myc.Delivery.Resolve.{
  resolution, resolve_attempt, resolve_target, resolve_attempt_and_target, outcome_on_target,
  target_status_is_prior, required_prior, outcome_status, outcome_reason, expired_resolution,
  recover_on_target, record_outcome, recover_expired, finalize_if,
}

-- Only the open attempt is changed.
resolve_attempt_newest :
    (attempt_id : Digest) (prior terminal : AttemptStatus) (reason : Reason) (observed_at n : ℕ)
    (t t' : Target) (attempts : List Attempt)
    → t.attempts ≡ attempts
    → IsOpen prior (some attempt_id) attempts
    → Numbered n attempts
    → resolve_attempt attempt_id prior terminal reason observed_at t ≡ ok t'
    → (t' ≡ record t { attempts = t'.attempts })
      × IsOpen terminal (some attempt_id) t'.attempts
      × Numbered n t'.attempts
unfolding resolve_attempt update_first
resolve_attempt_newest attempt_id prior terminal reason observed_at n t t' [] e o m h = absurd o
resolve_attempt_newest attempt_id prior terminal reason observed_at n t t' (a ∷ older) e o m h =
    ground arith

-- A success resolves the active attempt, then the target by the matching status.
pub resolve_attempt_and_target-eq-ok :
    (job : Job) (attempt : Attempt) (prior terminal : AttemptStatus) (reason : Reason)
    (jitter observed_at : ℕ) (t t' : Target)
    → resolve_attempt_and_target job attempt prior terminal reason jitter observed_at t ≡ ok t'
    → (m : Target) × (resolve_attempt attempt.id prior terminal reason observed_at t ≡ ok m)
      × (resolution job attempt.number
            (ltb t.attempt_count job.max_attempts)
            terminal
            jitter
            observed_at
          ≡ ok (t'.status, t'.next_attempt_at))
      × (target_status_is_prior prior m.status ≡ true)
      × (m.active_attempt_id ≡ some attempt.id)
      × (t' ≡ record m {
        status = t'.status;
        active_attempt_id = none;
        next_attempt_at = t'.next_attempt_at;
        updated_at = observed_at;
      })
unfolding resolve_attempt_and_target resolve_target
resolve_attempt_and_target-eq-ok job attempt prior terminal reason jitter observed_at t t' h =
    ground arith

-- The target's new status tells how the attempt ended; `exhausted` only with no attempt left, `retryable` only
-- with one left.
resolution-History :
    (job : Job) (number id jitter observed_at : ℕ) (remaining : Bool) (terminal : AttemptStatus)
    (status : TargetStatus) (next : Option ℕ) (attempts : List Attempt)
    → resolution job number remaining terminal jitter observed_at ≡ ok (status, next)
    → IsOpen terminal (some id) attempts
    → History status none attempts
      × (status ≡ TargetStatus.exhausted → remaining ≡ false)
      × (status ≡ TargetStatus.retryable → remaining ≡ true)
unfolding resolution
resolution-History job number id jitter observed_at remaining terminal status next [] h o = absurd o
resolution-History job number id jitter observed_at remaining terminal status next (a ∷ older) h o =
    ground arith

IsOpen-prior :
    (prior : AttemptStatus) (status : TargetStatus) (active : Option Digest)
    (attempts : List Attempt)
    → target_status_is_prior prior status ≡ true
    → History status active attempts
    → IsOpen prior active attempts
IsOpen-prior AttemptStatus.leased TargetStatus.leased active attempts h v = v
IsOpen-prior AttemptStatus.submitted TargetStatus.submitted active attempts h v = v
IsOpen-prior _ _ active attempts h v = cc

pub resolve_attempt-frame :
    (attempt_id : Digest) (prior terminal : AttemptStatus) (reason : Reason) (observed_at : ℕ)
    (t m : Target)
    → resolve_attempt attempt_id prior terminal reason observed_at t ≡ ok m
    → m ≡ record t { attempts = m.attempts }
unfolding resolve_attempt
resolve_attempt-frame attempt_id prior terminal reason observed_at t m h = ground arith

pub resolve_attempt_and_target-TargetInv :
    (job : Job) (attempt : Attempt) (prior terminal : AttemptStatus) (reason : Reason)
    (jitter observed_at : ℕ) (t t' : Target)
    → resolve_attempt_and_target job attempt prior terminal reason jitter observed_at t ≡ ok t'
    → TargetInv job.max_attempts t
    → TargetInv job.max_attempts t'
resolve_attempt_and_target-TargetInv job attempt prior terminal reason jitter observed_at t t' h v =
    let (m, e, res, mp, ma, out) =
      resolve_attempt_and_target-eq-ok job attempt prior terminal reason jitter observed_at t t'
        h in
    let frame = resolve_attempt-frame attempt.id prior terminal reason observed_at t m e in
    let ea : t.active_attempt_id ≡ some attempt.id = cc in
    let es : target_status_is_prior prior t.status ≡ true = cc in
    let o : IsOpen prior (some attempt.id) t.attempts =
      subst (λ x. IsOpen prior x t.attempts) ea
        (IsOpen-prior prior t.status t.active_attempt_id t.attempts es v.history) in
    let (em, om, nm) =
      resolve_attempt_newest attempt.id prior terminal reason observed_at t.attempt_count t m
        t.attempts refl o v.numbered e in
    let (hist, spent, spare) =
      resolution-History job attempt.number attempt.id jitter observed_at _ terminal t'.status
        t'.next_attempt_at m.attempts res om in
    ground arith

pub outcome_on_target-eq-ok :
    (job : Job) (attempt_id : Digest) (outcome : AttemptOutcome) (jitter observed_at : ℕ)
    (t : Target) (now : Bool) (t' : Target)
    → outcome_on_target job attempt_id outcome jitter observed_at t ≡ ok (now, t')
    → ((now ≡ false) × (t' ≡ t))
      ⊎ ((a : Attempt) × (read_attempt t attempt_id ≡ ok (some a))
          × (resolve_attempt_and_target job a
                (required_prior outcome a.status)
                (outcome_status outcome)
                (outcome_reason outcome)
                jitter
                observed_at
                t
              ≡ ok t'))
unfolding outcome_on_target
outcome_on_target-eq-ok job attempt_id outcome jitter observed_at t now t' h = ground arith

outcome_on_target-TargetInv :
    (job : Job) (attempt_id : Digest) (outcome : AttemptOutcome) (jitter observed_at : ℕ)
    (t : Target) (now : Bool) (t' : Target)
    → outcome_on_target job attempt_id outcome jitter observed_at t ≡ ok (now, t')
    → TargetInv job.max_attempts t
    → TargetInv job.max_attempts t'
outcome_on_target-TargetInv job attempt_id outcome jitter observed_at t now t' h v =
    elim (outcome_on_target-eq-ok job attempt_id outcome jitter observed_at t now t' h) [
      | inl same ↦ rw same.1 v
      | inr write ↦
          let (a, prior, e) = write in
          resolve_attempt_and_target-TargetInv job a _ _ _ jitter observed_at t t' e v
    ]

pub recover_on_target-eq-ok :
    (job : Job) (attempt_id : Digest) (jitter observed_at : ℕ) (t : Target) (now : Bool)
    (t' : Target)
    → recover_on_target job attempt_id jitter observed_at t ≡ ok (now, t')
    → ((now ≡ false) × (t' ≡ t))
      ⊎ ((a : Attempt) × (read_attempt t attempt_id ≡ ok (some a))
          × (resolve_attempt_and_target job a a.status
                (expired_resolution a.status).0
                (expired_resolution a.status).1
                jitter
                observed_at
                t
              ≡ ok t'))
unfolding recover_on_target
recover_on_target-eq-ok job attempt_id jitter observed_at t now t' h = ground arith

recover_on_target-TargetInv :
    (job : Job) (attempt_id : Digest) (jitter observed_at : ℕ) (t : Target) (now : Bool)
    (t' : Target)
    → recover_on_target job attempt_id jitter observed_at t ≡ ok (now, t')
    → TargetInv job.max_attempts t
    → TargetInv job.max_attempts t'
recover_on_target-TargetInv job attempt_id jitter observed_at t now t' h v =
    elim (recover_on_target-eq-ok job attempt_id jitter observed_at t now t' h) [
      | inl same ↦ rw same.1 v
      | inr write ↦
          let (a, prior, e) = write in
          resolve_attempt_and_target-TargetInv job a _ _ _ jitter observed_at t t' e v
    ]

finalize_if-JobInv :
    (now : Bool) (observed_at : ℕ) (j j' : Job)
    → finalize_if now observed_at j ≡ ok j'
    → JobInv j
    → JobInv j'
unfolding finalize_job_if_terminal finalize_job read_job
finalize_if-JobInv false observed_at j j' h v = ground arith
finalize_if-JobInv true observed_at j j' h v = ground arith

-- Recording an outcome keeps the invariant of the job.
pub record_outcome-JobInv :
    (relay_id : RelayId) (attempt_id : Digest) (outcome : AttemptOutcome) (jitter observed_at : ℕ)
    (j j' : Job)
    → record_outcome relay_id attempt_id outcome jitter observed_at j ≡ ok j'
    → JobInv j
    → JobInv j'
unfolding record_outcome
record_outcome-JobInv relay_id attempt_id outcome jitter observed_at row j' h v =
    let (j, e, h') = >>=-eq-ok (read_job row) _ h in
    let (r, e', f) = >>=-eq-ok (on_target relay_id _ j) _ h' in
    finalize_if-JobInv r.0 observed_at r.1 j' f (
      on_target-JobInv relay_id _ j r.0 r.1
        (outcome_on_target-TargetInv j attempt_id outcome jitter observed_at) e'
        (rw (read_job-eq-ok row j e) v))

-- Recovering an expired lease keeps the invariant of the job.
pub recover_expired-JobInv :
    (relay_id : RelayId) (attempt_id : Digest) (jitter observed_at : ℕ) (j j' : Job)
    → recover_expired relay_id attempt_id jitter observed_at j ≡ ok j'
    → JobInv j
    → JobInv j'
unfolding recover_expired
recover_expired-JobInv relay_id attempt_id jitter observed_at row j' h v =
    let (j, e, h') = >>=-eq-ok (read_job row) _ h in
    let (r, e', f) = >>=-eq-ok (on_target relay_id _ j) _ h' in
    finalize_if-JobInv r.0 observed_at r.1 j' f (
      on_target-JobInv relay_id _ j r.0 r.1
        (recover_on_target-TargetInv j attempt_id jitter observed_at) e'
        (rw (read_job-eq-ok row j e) v))
