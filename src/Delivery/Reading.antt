-- ===== src/Delivery/Reading.antt =====
-- Who acknowledged a job's artifact, and who still may: read off the logs of the attempts, without the
-- status columns by which src/state_delivery.rs decides it.
use myc.Common.{
  ℕ, ◌-◌, ◌≡◌, refl, Bool, false, not, ◌&&◌, List, [], ◌∷◌, All, arith, count_if, length, leb,
}
use myc.Delivery.Types.{Attempt, Target, Job, attempt_is_delivered}
use myc.Delivery.Resolve.{is_failed_or_unknown}
use myc.Delivery.Finalize.{is_delivered_required, is_possible_required}
use myc.Delivery.Invariant.{Numbered, TargetInv}

-- Read off the log of a target's attempts, newest first: an attempt was acknowledged.
abbrev pub is_acknowledged : List Attempt → Bool
is_acknowledged [] = false
is_acknowledged (a ∷ older) = attempt_is_delivered a.status

-- The newest attempt ended without an acknowledgement, and no further one is allowed.
abbrev pub is_given_up : ℕ → List Attempt → Bool
is_given_up max_attempts [] = false
is_given_up max_attempts (a ∷ older) =
    is_failed_or_unknown a.status && leb max_attempts (length (a ∷ older))

abbrev pub required_and_acknowledged : Target → Bool
required_and_acknowledged t = t.required && is_acknowledged t.attempts

abbrev pub required_and_attainable : ℕ → Target → Bool
required_and_attainable max_attempts t = t.required && not (is_given_up max_attempts t.attempts)

-- The required targets that acknowledged the artifact.
abbrev pub acknowledged : Job → ℕ
acknowledged j = count_if required_and_acknowledged j.targets

-- The required targets that have acknowledged it, or may yet.
abbrev pub attainable : Job → ℕ
attainable j = count_if (required_and_attainable j.max_attempts) j.targets

Numbered-length : (n : ℕ) (attempts : List Attempt) → Numbered n attempts → length attempts ≡ n
Numbered-length n [] v = ground arith
Numbered-length n (a ∷ older) v = ground (arith, Numbered-length (n - 1) older)

-- A target's status counts it just as the log of its attempts does.
target_reading :
    (max_attempts : ℕ) (t : Target) (attempts : List Attempt)
    → t.attempts ≡ attempts
    → length attempts ≡ t.attempt_count
    → TargetInv max_attempts t
    → (is_delivered_required t ≡ required_and_acknowledged t)
      × (is_possible_required max_attempts t ≡ required_and_attainable max_attempts t)
target_reading max_attempts t [] e n v = ground arith
target_reading max_attempts t (a ∷ older) e n v = ground arith

pub targets_reading :
    (max_attempts : ℕ) (ts : List Target)
    → All (TargetInv max_attempts) ts
    → (count_if is_delivered_required ts ≡ count_if required_and_acknowledged ts)
      × (count_if (is_possible_required max_attempts) ts
          ≡ count_if (required_and_attainable max_attempts) ts)
unfolding count_if
targets_reading max_attempts [] v = (refl, refl)
targets_reading max_attempts (t ∷ ts) v =
    let (d, p) =
      target_reading max_attempts t t.attempts refl
        (Numbered-length t.attempt_count t.attempts v.0.numbered) v.0 in
    ground (arith, targets_reading max_attempts ts v.1)
