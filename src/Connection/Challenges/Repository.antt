-- ===== src/Connection/Challenges/Repository.antt =====
-- The calls of the repository in src/state_connection.rs on authorization challenges, around the
-- transactions: `issue_authorization_challenge` and `authorize_challenge`, with the tests of the
-- configured policy in src/nip46_authorization.rs.
pub mod Again
use myc.Common.{
  ℕ, ◌-◌, Bool, false, not, ◌&&◌, Option, none, some, List, Result, ok, err, ltb, leb, is_some_and,
  bytes_eq, if◌then◌else◌,
}
use myc.Governance.Rates.{RatePolicy, RateRow, Subject}
use myc.Governance.Audit.{Digest}
use myc.Connection.Types.{ConnectionError, binding, ChallengeState, Store, Context}
use myc.Connection.Challenges.{
  challenge_eq, ChallengeRequest, ChallengeRecord, AuthorizationResult, resolved, replay,
  authorization_limited, Authorization, Issued, issue_challenge, authorize_challenge,
}

-- `MycChallengePolicy`.
pub record ChallengePolicy : Type 0 where
  pub url : List ℕ
  pub pending_lifetime_ms : ℕ
  pub authorized_lifetime_ms : ℕ

-- `checked_sub`, and the test of the difference.
abbrev pub is_within : ℕ → ℕ → ℕ → Bool
is_within later earlier limit = leb earlier later && leb (later - earlier) limit

-- `admits_challenge_request`, on the policy of the configuration.
unfoldable pub admits_challenge_request : Option ChallengePolicy → ChallengeRequest → Bool
admits_challenge_request none request = false
admits_challenge_request (some policy) request =
    bytes_eq request.url policy.url
    && is_within request.expires_at request.issued_at policy.pending_lifetime_ms

-- `challenge_is_current`.
unfoldable pub challenge_is_current : Option ChallengePolicy → ChallengeRecord → ℕ → Bool
challenge_is_current none r observed_at = false
challenge_is_current (some policy) r observed_at =
    challenge_eq r.state ChallengeState.authorized
    && is_some_and r.resolved_at
        (λ at. leb at observed_at && is_within observed_at at policy.authorized_lifetime_ms)

-- `MycAuthorizationChallengeAuthorization::record`.
abbrev pub authorization_record : AuthorizationResult → Option ChallengeRecord
authorization_record (resolved r) = some r
authorization_record (replay r) = some r
authorization_record authorization_limited = none

-- `issue_authorization_challenge`.
unfoldable pub issue_authorization_challenge :
    Option ChallengePolicy
    → Context
    → ChallengeRequest
    → RatePolicy
    → List Subject
    → Store
    → Result ConnectionError Issued
issue_authorization_challenge policy context request rate_policy subjects store =
    if not (admits_challenge_request policy request)
    then err binding
    else issue_challenge context request rate_policy subjects store

-- What a call answers, the rows of the rate window that it wrote, and the store that it left: the
-- transaction is committed before the last test, so its writes stay where that test fails.
pub record Answered : Type 0 where
  pub answer : Result ConnectionError AuthorizationResult
  pub rate_rows : Option (List RateRow)
  pub store : Store

-- The record of the answer is authorized, and no longer current.
unfoldable pub is_outlived : Option ChallengePolicy → ℕ → AuthorizationResult → Bool
unfolding challenge_is_current
is_outlived policy observed_at result = is_some_and (authorization_record result) (λ r.
    challenge_eq r.state ChallengeState.authorized
    && not (challenge_is_current policy r observed_at))

-- The call after its transaction.
abbrev pub after_authorization :
    Option ChallengePolicy → ℕ → Store → Result ConnectionError Authorization → Answered
after_authorization policy observed_at before (err e) = record {
  answer = err e;
  rate_rows = none;
  store = before;
}
after_authorization policy observed_at before (ok out) = record {
  answer = if is_outlived policy observed_at out.result then err binding else ok out.result;
  rate_rows = out.rate_rows;
  store = out.store;
}

-- `authorize_challenge` of the repository.
unfoldable pub repository_authorize_challenge :
    Option ChallengePolicy
    → Context
    → Digest
    → Digest
    → Digest
    → ℕ
    → ℕ
    → RatePolicy
    → List Subject
    → Store
    → Answered
repository_authorize_challenge policy context id connection_id operation_id generation observed_at
      rate_policy subjects store =
    after_authorization policy observed_at store (
      authorize_challenge context id connection_id operation_id generation observed_at rate_policy
        subjects store)
