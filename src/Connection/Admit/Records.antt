-- ===== src/Connection/Admit/Records.antt =====
-- The requests and results of an admission, and the record of a decision.
use myc.Common.{
  ℕ, Bool, true, false, not, ◌&&◌, ◌||◌, Option, none, some, List, Result, ok, err, ◌>>=◌, ok_or,
  leb, ◌==◌, is_some, is_some_and, if◌then◌else◌,
}
use myc.Governance.Rates.{RateRow}
use myc.Governance.Audit.{Digest, RequestRow, find_request}
use myc.Connection.Permissions.{Permission}
use myc.Connection.Types.{
  ConnectionError, binding, AdmissionPolicy, policy_eq, Decision, Status, status_eq, Store,
  ConnectionRecord, PersistedDecision, DecisionRecord, Context,
}
use myc.Connection.Rows.{read_connection}

-- `MycConnectionAdmissionRequest`.
pub record AdmissionRequest : Type 0 where
  pub operation_id : Digest
  pub client_public_key : ℕ
  pub requested_permissions : List Permission
  pub policy_generation : ℕ
  pub nonce : Digest
  pub observed_at : ℕ
  pub authorized_until : Option ℕ
  pub policy : AdmissionPolicy

-- The test of `MycConnectionAdmissionRequest::new`.
unfoldable pub admission_request_valid : AdmissionRequest → Bool
admission_request_valid r =
    not (
      policy_eq r.policy AdmissionPolicy.trusted
      && is_some_and r.authorized_until (λ until. leb until r.observed_at))
    && not (not (policy_eq r.policy AdmissionPolicy.trusted) && is_some r.authorized_until)

pub data Admission : Type 0 where
  admitted exact_replay : DecisionRecord → Admission
  rate_limited : Admission

pub record Admitted : Type 0 where
  pub admission : Admission
  pub rate_rows : Option (List RateRow)
  pub store : Store

-- `read_request_binding`.
unfoldable pub read_request_binding : Context → Digest → Result ConnectionError RequestRow
read_request_binding context operation_id =
    ok_or (find_request context.requests operation_id) binding

abbrev pub read_optional_connection :
    Context → Store → Option Digest → Result ConnectionError (Option ConnectionRecord)
read_optional_connection context store none = ok none
read_optional_connection context store (some id) =
    read_connection context store id >>= λ c. ok (some c)

-- The status that a connection must have under its policy and decision.
abbrev pub state_matches : Option AdmissionPolicy → Decision → Option Status → Bool
state_matches (some AdmissionPolicy.denied) Decision.denied none = true
state_matches (some AdmissionPolicy.trusted) Decision.allowed (some status) =
    status_eq status Status.active || status_eq status Status.expired
state_matches (some AdmissionPolicy.explicit_approval) Decision.pending_approval (some status) =
    status_eq status Status.pending
state_matches (some AdmissionPolicy.explicit_approval) Decision.allowed (some status) =
    status_eq status Status.active || status_eq status Status.expired
state_matches (some AdmissionPolicy.explicit_approval) Decision.denied (some status) =
    status_eq status Status.denied
state_matches _ _ _ = false

abbrev pub connection_status : Option ConnectionRecord → Option Status
connection_status none = none
connection_status (some c) = some c.status

-- `decision_record`.
unfoldable pub decision_record :
    Context → Store → Digest → PersistedDecision → Result ConnectionError DecisionRecord
decision_record context store operation_id decision =
    read_optional_connection context store decision.connection_id >>= λ connection.
    if is_some_and connection
        (λ c. not (context.permission_digest c.requested_permissions == decision.requested_digest))
      || is_some decision.challenge_id
      || not
          (state_matches decision.admission_policy decision.decision (connection_status connection))
    then err binding
    else ok (record {
      operation_id = operation_id;
      connection = connection;
      decision = decision.decision;
      policy_generation = decision.policy_generation;
      decided_at = decision.decided_at;
    })
