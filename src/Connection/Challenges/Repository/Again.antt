-- ===== src/Connection/Challenges/Repository/Again.antt =====
-- A call of the repository on a challenge that an earlier call resolved.
use myc.Common.{
  ℕ, ◌+◌, ◌≤◌, ◌≡◌, ◌&&◌, ltb, inl, inr, refl, ap, none, some, List, Result, ok, err, arith,
  Bool-cases, if◌then◌else◌,
}
use myc.Governance.Rates.{RatePolicy, Subject}
use myc.Governance.Audit.{Digest}
use myc.Connection.Types.{ConnectionError, binding, ChallengeState, Store, Context}
use myc.Connection.Challenges.{
  challenge_eq, ChallengeRecord, resolved, replay, AuthorizationResult, Authorization,
  authorize_challenge,
}
use myc.Connection.Challenges.Once.{authorize_challenge-resolved, authorize_challenge-again}
use myc.Connection.Challenges.Repository.{
  ChallengePolicy, is_outlived, after_authorization, repository_authorize_challenge,
}

-- An answer comes from a transaction that gave it.
after_authorization-ok :
    (policy : ChallengePolicy) (now : ℕ) (s : Store) (x : Result ConnectionError Authorization)
    (result : AuthorizationResult)
    → (after_authorization (some policy) now s x).answer ≡ ok result
    → (out : Authorization) × (x ≡ ok out)
      × (out.result ≡ result)
      × ((after_authorization (some policy) now s x).store ≡ out.store)
after_authorization-ok policy now s (err e) result h = cc
after_authorization-ok policy now s (ok out) result h =
    elim (Bool-cases (is_outlived (some policy) now out.result)) [
      | inl over ↦
          let refused : Result ConnectionError AuthorizationResult = err binding in
          let e : refused ≡ ok result = rw over at h in cc
      | inr lasts ↦
          let given : Result ConnectionError AuthorizationResult = ok out.result in
          let e : given ≡ ok result = rw lasts at h in (out, refl, ground arith, refl)
    ]

-- What a later call answers: the same record, unless that is authorized and its lifetime is over.
abbrev pub answer_again :
    ChallengePolicy → ℕ → ℕ → ChallengeRecord → Result ConnectionError AuthorizationResult
answer_again policy now later r =
    if challenge_eq r.state ChallengeState.authorized
      && ltb (now + policy.authorized_lifetime_ms) later
    then err binding
    else ok (replay r)

is_outlived-replay :
    (policy : ChallengePolicy) (now later : ℕ) (r : ChallengeRecord)
    → r.resolved_at ≡ some now
    → now ≤ later
    → is_outlived (some policy) later (replay r)
      ≡ challenge_eq r.state ChallengeState.authorized
        && ltb (now + policy.authorized_lifetime_ms) later
unfolding is_outlived
is_outlived-replay policy now later r at le = ground arith

module _ (policy : ChallengePolicy) (context : Context) (id connection_id operation_id : Digest)
    (generation now later : ℕ) (rate : RatePolicy) (subjects others : List Subject) (s left : Store)
    (r : ChallengeRecord) where
  -- Under a challenge policy, once a call has resolved a challenge, authorizing it again at a later time,
  -- whatever the rows of its rate window, counts no attempt and changes nothing. The answer is a binding
  -- error if the record is authorized and the policy's lifetime of an authorization is over; if not, it
  -- is the same record.
  pub repository_authorize_challenge-again :
      (repository_authorize_challenge
          (some policy)
          context
          id
          connection_id
          operation_id
          generation
          now
          rate
          subjects
          s).answer
        ≡ ok (resolved r)
      → (repository_authorize_challenge
          (some policy)
          context
          id
          connection_id
          operation_id
          generation
          now
          rate
          subjects
          s).store
        ≡ left
      → now ≤ later
      → repository_authorize_challenge
          (some policy)
          context
          id
          connection_id
          operation_id
          generation
          later
          rate
          others
          left
        ≡ record { answer = answer_again policy now later r; rate_rows = none; store = left }
  unfolding repository_authorize_challenge
  repository_authorize_challenge-again h kept le =
      let (out, e, f, same) =
        after_authorization-ok policy now s
          (authorize_challenge context id connection_id operation_id generation now rate subjects s)
          (resolved r) h in
      let (b, c, _, _, _, _, _, result, _, _) =
        authorize_challenge-resolved context id connection_id operation_id generation now rate
          subjects s out r e f in
      let again =
        authorize_challenge-again context id connection_id operation_id generation now later rate
          subjects others s out r e f le in
      rw (← kept) (
        rw same (
          rw again (
            rw (
              is_outlived-replay policy now later r
                (ap (λ (x : ChallengeRecord). x.resolved_at) result) le))))
