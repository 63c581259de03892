-- ===== src/Delivery/Resolve/Reread.antt =====
-- A read of the attempt that a resolution has just ended.
use myc.Common.{
  ℕ, ◌≡◌, inl, inr, true, Option, some, none, List, [], ◌∷◌, Result, ok, arith, update_first, find,
  find-true, ◌==◌, Bool-cases, >>=-eq-ok, subst, ap,
}
use myc.Delivery.Types.{
  Digest, Attempt, AttemptStatus, Reason, Target, Job, OperationError, storage,
}
use myc.Delivery.Rows.{parse_attempt, attempts_check}
use myc.Delivery.Statements.{read_attempt, read_optional, update_one, attempt_legal}
use myc.Delivery.Resolve.{resolve_attempt, resolve_attempt_and_target, attempt_status_eq}
use myc.Delivery.Resolve.Invariant.{resolve_attempt_and_target-eq-ok}

-- The log of attempts after RESOLVE_ATTEMPT_SQL.
abbrev resolved_log :
    Digest
    → AttemptStatus
    → AttemptStatus
    → Reason
    → ℕ
    → List Attempt
    → Result OperationError (List Attempt)
resolved_log id prior terminal reason observed_at =
    update_first (λ a. a.id == id) storage
      (update_one (λ a. attempt_status_eq a.status prior) attempt_legal
        (λ a. record a { status = terminal; resolved_at = some observed_at; reason = some reason }))

abbrev pub resolved : AttemptStatus → Reason → ℕ → Attempt → Attempt
resolved terminal reason observed_at a = record a {
  status = terminal;
  resolved_at = some observed_at;
  reason = some reason;
}

-- The attempt that the resolution leaves.
resolved_attempt :
    (id observed_at : ℕ) (prior terminal : AttemptStatus) (reason : Reason) (a : Attempt)
    (attempts attempts' : List Attempt)
    → find (λ b. b.id == id) attempts ≡ some a
    → resolved_log id prior terminal reason observed_at attempts ≡ ok attempts'
    → (find (λ b. b.id == id) attempts' ≡ some (resolved terminal reason observed_at a))
      × (attempts_check (resolved terminal reason observed_at a) ≡ true)
unfolding update_first find update_one
resolved_attempt id observed_at prior terminal reason a [] attempts' f h = ground arith
resolved_attempt id observed_at prior terminal reason a (b ∷ older) attempts' f h =
    elim (Bool-cases (b.id == id)) [
      | inl hit ↦ ground (arith, hit)
      | inr miss ↦
          let (ys, e, e') =
            >>=-eq-ok (resolved_log id prior terminal reason observed_at older) _ (rw miss at h) in
          let found =
            resolved_attempt id observed_at prior terminal reason a older ys (rw miss at f) e in
          ground (arith, miss, found)
    ]

-- What the check of the table admits, once it has ended, a read admits too.
resolved_readable :
    (a : Attempt)
    → parse_attempt a ≡ ok a
    → (terminal : AttemptStatus) (reason : Reason) (observed_at : ℕ)
    → attempts_check (resolved terminal reason observed_at a) ≡ true
    → parse_attempt (resolved terminal reason observed_at a)
      ≡ ok (resolved terminal reason observed_at a)
unfolding parse_attempt attempts_check
resolved_readable a p terminal reason observed_at c = ground arith

parse_attempt-same : (b a : Attempt) → parse_attempt b ≡ ok a → b ≡ a
unfolding parse_attempt
parse_attempt-same b a h = ground arith

read_optional-found :
    (o : Option Attempt) (a : Attempt)
    → read_optional o ≡ ok (some a)
    → (o ≡ some a) × (parse_attempt a ≡ ok a)
read_optional-found none a h = cc
read_optional-found (some b) a h =
    let (c, e, e') = >>=-eq-ok (parse_attempt b) _ h in
    let same : c ≡ a = cc in
    let same' : b ≡ a = parse_attempt-same b a cc in
    (ap some same', subst (λ x. parse_attempt x ≡ ok a) same' cc)

pub read_attempt-found :
    (t : Target) (id : Digest) (a : Attempt)
    → read_attempt t id ≡ ok (some a)
    → (find (λ b. b.id == id) t.attempts ≡ some a) × (parse_attempt a ≡ ok a)
unfolding read_attempt
read_attempt-found t id a h = read_optional-found (find (λ b. b.id == id) t.attempts) a h

pub read_attempt-resolved :
    (job : Job) (a : Attempt) (id : Digest) (prior terminal : AttemptStatus) (reason : Reason)
    (jitter observed_at : ℕ) (t t' : Target)
    → read_attempt t id ≡ ok (some a)
    → a.id ≡ id
    → resolve_attempt_and_target job a prior terminal reason jitter observed_at t ≡ ok t'
    → read_attempt t' id ≡ ok (some (resolved terminal reason observed_at a))
unfolding read_attempt resolve_attempt
read_attempt-resolved job a id prior terminal reason jitter observed_at t t' r same h =
    let (m, e, _, _, _, out) =
      resolve_attempt_and_target-eq-ok job a prior terminal reason jitter observed_at t t' h in
    let (found, parsed) = read_attempt-found t id a r in
    let (log, el, em) =
      >>=-eq-ok (resolved_log a.id prior terminal reason observed_at t.attempts) _ e in
    let (found', checked) =
      resolved_attempt id observed_at prior terminal reason a t.attempts log found
        (rw same at el) in
    let readable = resolved_readable a parsed terminal reason observed_at checked in ground arith

pub find_same_id :
    (id : Digest) (attempts : List Attempt) (a : Attempt)
    → find (λ b. b.id == id) attempts ≡ some a
    → a.id ≡ id
find_same_id id attempts a h = let hit = find-true (λ b. b.id == id) attempts h in ground arith
