-- ===== src/Connection/Challenges/Records.antt =====
-- What is read of an authorization challenge, and the CHECKs and the trigger of its table.
use myc.Common.{
  ℕ, ◌+◌, Bool, false, not, ◌&&◌, ◌||◌, Option, none, some, List, Result, ok, err, ◌>>=◌, ltb, leb,
  ◌==◌, in_range, is_none, is_some, is_some_and, find, i64_max, length, bytes_eq, valid_time,
  if◌then◌else◌,
}
use myc.Governance.Rates.{RateRow}
use myc.Governance.Audit.{Digest}
use myc.Connection.Types.{
  ConnectionError, binding, ChallengeState, ChallengeRow, Store, Context, ParsedUrl,
}

abbrev pub challenge_index : ChallengeState → ℕ
challenge_index ChallengeState.pending = 0
challenge_index ChallengeState.authorized = 1
challenge_index ChallengeState.expired = 2

abbrev pub challenge_eq : ChallengeState → ChallengeState → Bool
challenge_eq a b = challenge_index a == challenge_index b

-- The test of `MycAuthorizationChallengeUrl::new` on the parsed text.
abbrev pub url_admitted : List ℕ → Option ParsedUrl → Bool
url_admitted text none = false
url_admitted text (some u) =
    (u.is_https || (u.is_http && u.is_loopback))
    && not u.has_username
    && not u.has_password
    && not u.has_fragment
    && bytes_eq u.as_str text

-- `MycAuthorizationChallengeUrl::new`.
unfoldable pub valid_challenge_url : Context → List ℕ → Bool
valid_challenge_url context text =
    in_range 1 2_048 (length text) && url_admitted text (context.parse_url text)

-- `MycAuthorizationChallengeRequest`.
pub record ChallengeRequest : Type 0 where
  pub operation_id : Digest
  pub connection_id : Digest
  pub policy_generation : ℕ
  pub url : List ℕ
  pub nonce : Digest
  pub issued_at : ℕ
  pub expires_at : ℕ

-- `MycAuthorizationChallengeRecord`.
pub record ChallengeRecord : Type 0 where
  pub id : Digest
  pub operation_id : Digest
  pub connection_id : Digest
  pub policy_generation : ℕ
  pub url : List ℕ
  pub state : ChallengeState
  pub issued_at : ℕ
  pub expires_at : ℕ
  pub resolved_at : Option ℕ

-- `MycAuthorizationChallengeAdmission`.
pub data ChallengeAdmission : Type 0 where
  created exact_replay : ChallengeRecord → ChallengeAdmission
  rate_limited : ChallengeAdmission

pub record Issued : Type 0 where
  pub answer : ChallengeAdmission
  pub rate_rows : Option (List RateRow)
  pub store : Store

-- `MycAuthorizationChallengeAuthorization`.
pub data AuthorizationResult : Type 0 where
  resolved replay : ChallengeRecord → AuthorizationResult
  authorization_limited : AuthorizationResult

pub record Authorization : Type 0 where
  pub result : AuthorizationResult
  pub rate_rows : Option (List RateRow)
  pub store : Store

-- The tests of `parse_challenge` on a row.
unfoldable pub challenge_refused : Context → ChallengeRow → Bool
challenge_refused context row =
    not (context.derive_challenge_id row.operation_id row.connection_id row.nonce == row.id)
    || leb row.expires_at row.issued_at
    || (challenge_eq row.state ChallengeState.pending && is_some row.resolved_at)
    || (not (challenge_eq row.state ChallengeState.pending)
        && (is_none row.resolved_at || is_some_and row.resolved_at (λ at. ltb at row.issued_at)))
    || not (valid_challenge_url context row.url)
    || not (in_range 1 i64_max row.policy_generation)
    || not (valid_time row.issued_at)
    || not (valid_time row.expires_at)
    || is_some_and row.resolved_at (λ at. not (valid_time at))

abbrev pub challenge_record : ChallengeRow → ChallengeRecord
challenge_record row = record {
  id = row.id;
  operation_id = row.operation_id;
  connection_id = row.connection_id;
  policy_generation = row.policy_generation;
  url = row.url;
  state = row.state;
  issued_at = row.issued_at;
  expires_at = row.expires_at;
  resolved_at = row.resolved_at;
}

-- `parse_challenge`.
unfoldable pub parse_challenge : Context → ChallengeRow → Result ConnectionError ChallengeRecord
parse_challenge context row =
    if challenge_refused context row then err binding else ok (challenge_record row)

abbrev pub parse_some_challenge :
    Context → Option ChallengeRow → Result ConnectionError (Option ChallengeRecord)
parse_some_challenge context none = ok none
parse_some_challenge context (some row) = parse_challenge context row >>= λ c. ok (some c)

abbrev pub of_operation : Digest → ChallengeRow → Bool
of_operation operation_id row = row.operation_id == operation_id

-- `read_challenge`.
unfoldable pub read_challenge :
    Context → Store → Digest → Result ConnectionError (Option ChallengeRecord)
read_challenge context store operation_id =
    parse_some_challenge context (find (of_operation operation_id) store.challenges)

-- The CHECKs of `connection_auth_challenges`.
unfoldable pub challenges_check : ChallengeRow → Bool
challenges_check row =
    in_range 1 i64_max row.policy_generation
    && in_range 1 2_048 (length row.url)
    && in_range 1 i64_max row.issued_at
    && in_range (row.issued_at + 1) i64_max row.expires_at
    && (is_none row.resolved_at
        || is_some_and row.resolved_at (λ at. in_range row.issued_at i64_max at))
    && ((challenge_eq row.state ChallengeState.pending && is_none row.resolved_at)
        || (not (challenge_eq row.state ChallengeState.pending) && is_some row.resolved_at))

-- The trigger `connection_auth_challenges_guard_update`.
unfoldable pub challenges_guard_update : ChallengeRow → ChallengeRow → Bool
challenges_guard_update old new =
    new.id == old.id
    && new.nonce == old.nonce
    && new.connection_id == old.connection_id
    && new.operation_id == old.operation_id
    && new.policy_generation == old.policy_generation
    && bytes_eq new.url old.url
    && new.issued_at == old.issued_at
    && new.expires_at == old.expires_at
    && challenge_eq old.state ChallengeState.pending
    && not (challenge_eq new.state ChallengeState.pending)
    && is_some_and new.resolved_at (λ at. leb old.issued_at at)

abbrev pub challenge_legal : ChallengeRow → ChallengeRow → Bool
challenge_legal old new = challenges_guard_update old new && challenges_check new
