-- ===== src/Delivery/Submit/Invariant.antt =====
-- Marking an attempt as submitted keeps the invariant of the job.
use myc.Common.{
  ℕ, ◌≡◌, refl, ◌⊎◌, inl, inr, List, [], ◌∷◌, some, ok, arith, update_first, >>=-eq-ok,
}
use myc.Delivery.Types.{RelayId, Attempt, AttemptStatus, Target, TargetStatus, Job}
use myc.Delivery.Rows.{read_job}
use myc.Delivery.Invariant.{IsOpen, Numbered, TargetInv, JobInv, on_target-JobInv, read_job-eq-ok}
use myc.Delivery.Submit.{submit_attempt, submit_target, submit_on_target, mark_submitted}

-- Only the open attempt is changed.
submit_attempt_newest :
    (attempt_id submitted_at n : ℕ) (t : Target) (t' : Target) (attempts : List Attempt)
    → t.attempts ≡ attempts
    → IsOpen AttemptStatus.leased (some attempt_id) attempts
    → Numbered n attempts
    → submit_attempt attempt_id submitted_at t ≡ ok t'
    → (t' ≡ record t { attempts = t'.attempts })
      × IsOpen AttemptStatus.submitted (some attempt_id) t'.attempts
      × Numbered n t'.attempts
unfolding submit_attempt update_first
submit_attempt_newest attempt_id submitted_at n t t' [] e o m h = absurd o
submit_attempt_newest attempt_id submitted_at n t t' (a ∷ older) e o m h = ground arith

-- A success is a replay that writes nothing, or the two statements on the active leased attempt.
pub submit_on_target-eq-ok :
    (attempt_id submitted_at : ℕ) (t : Target) (a : Attempt) (t' : Target)
    → submit_on_target attempt_id submitted_at t ≡ ok (a, t')
    → (t' ≡ t)
      ⊎ ((m : Target) × (submit_attempt attempt_id submitted_at t ≡ ok m)
          × (t.status ≡ TargetStatus.leased)
          × (t.active_attempt_id ≡ some attempt_id)
          × (t' ≡ record m { status = TargetStatus.submitted; updated_at = submitted_at }))
unfolding submit_on_target submit_target
submit_on_target-eq-ok attempt_id submitted_at t a t' h = ground arith

submit_on_target-TargetInv :
    (max attempt_id submitted_at : ℕ) (t : Target) (a : Attempt) (t' : Target)
    → submit_on_target attempt_id submitted_at t ≡ ok (a, t')
    → TargetInv max t
    → TargetInv max t'
submit_on_target-TargetInv max attempt_id submitted_at t a t' h v =
    elim (submit_on_target-eq-ok attempt_id submitted_at t a t' h) [
      | inl same ↦ ground arith
      | inr write ↦
          let (m, e, leased, active, out) = write in
          ground (
            arith,
            submit_attempt_newest attempt_id submitted_at t.attempt_count t m t.attempts refl,
          )
    ]

-- Marking an attempt as submitted keeps the invariant of the job.
pub mark_submitted-JobInv :
    (relay_id : RelayId) (attempt_id submitted_at : ℕ) (j : Job) (a : Attempt) (j' : Job)
    → mark_submitted relay_id attempt_id submitted_at j ≡ ok (a, j')
    → JobInv j
    → JobInv j'
unfolding mark_submitted
mark_submitted-JobInv relay_id attempt_id submitted_at row a j' h v =
    let (j, e, h') = >>=-eq-ok (read_job row) _ h in
    on_target-JobInv relay_id _ j a j'
      (submit_on_target-TargetInv j.max_attempts attempt_id submitted_at) h'
      (rw (read_job-eq-ok row j e) v)
