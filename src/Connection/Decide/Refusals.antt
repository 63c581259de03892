-- ===== src/Connection/Decide/Refusals.antt =====
-- The answers that `decide_connection` refuses.
use myc.Common.{
  ℕ, ◌≡◌, ◌⊎◌, inl, inr, refl, Bool, true, false, not, ◌||◌, Option, none, some, List, ok, err,
  ◌>>=◌, ok_or, arith, ◌==◌, is_some_of, Bool-cases, if◌then◌else◌, find,
}
use myc.Governance.Audit.{Digest}
use myc.Connection.Permissions.{Permission}
use myc.Connection.Types.{
  binding, Status, DecisionRow, Store, ConnectionRecord, PersistedDecision, Context,
  OperatorDecision, approve, deny,
}
use myc.Connection.Rows.{
  read_connection, read_decision, parse_decision, parse_some, decision_refused, persisted_decision,
  has_operation,
}
use myc.Connection.Decide.{
  decide_approve, approve_within, decide_deny, decide_answer, decide_found, decide_connection,
}

-- The answer is not the one that the connection has.
abbrev pub contradicts : Status → OperatorDecision → Bool
contradicts Status.expired decision = true
contradicts Status.denied (approve granted until) = true
contradicts Status.active deny = true
contradicts _ _ = false

parse_some-cases :
    (found : Option DecisionRow)
    → (parse_some found ≡ err binding)
      ⊎ ((d : Option PersistedDecision) × (parse_some found ≡ ok d))
unfolding parse_decision
parse_some-cases none = inr (none, refl)
parse_some-cases (some row) = elim (Bool-cases (decision_refused row)) [
  | inl bad ↦ inl (rw bad refl)
  | inr good ↦ inr (some (persisted_decision row), rw good refl)
]

approve-refused :
    (context : Context) (operation_id id : Digest) (generation now : ℕ) (correlation : Digest)
    (granted : List Permission) (until : Option ℕ) (existing : PersistedDecision)
    (c : ConnectionRecord) (s : Store)
    → (c.status ≡ Status.denied) ⊎ (c.status ≡ Status.expired)
    → decide_approve context operation_id id generation now correlation granted until existing c s
      ≡ err binding
unfolding decide_approve approve_within
approve-refused context operation_id id generation now correlation granted until existing c s
      (inl e) =
    rw e (ground arith)
approve-refused context operation_id id generation now correlation granted until existing c s
      (inr e) =
    rw e (ground arith)

deny-refused :
    (context : Context) (operation_id id : Digest) (generation now : ℕ) (correlation : Digest)
    (existing : PersistedDecision) (c : ConnectionRecord) (s : Store)
    → (c.status ≡ Status.active) ⊎ (c.status ≡ Status.expired)
    → decide_deny context operation_id id generation now correlation existing c s ≡ err binding
unfolding decide_deny
deny-refused context operation_id id generation now correlation existing c s (inl e) =
    rw e (ground arith)
deny-refused context operation_id id generation now correlation existing c s (inr e) =
    rw e (ground arith)

answer-refused :
    (context : Context) (operation_id id : Digest) (generation now : ℕ) (correlation : Digest)
    (decision : OperatorDecision) (status : Status) (existing : PersistedDecision)
    (c : ConnectionRecord) (s : Store)
    → c.status ≡ status
    → contradicts status decision ≡ true
    → decide_answer context operation_id id generation now correlation decision existing c s
      ≡ err binding
answer-refused context op id generation now correlation (approve granted until) Status.denied
      existing c s e h =
    approve-refused context op id generation now correlation granted until existing c s (inl e)
answer-refused context op id generation now correlation (approve granted until) Status.expired
      existing c s e h =
    approve-refused context op id generation now correlation granted until existing c s (inr e)
answer-refused context op id generation now correlation (approve granted until) Status.pending
      existing c s e h =
    ground arith
answer-refused context op id generation now correlation (approve granted until) Status.active
      existing c s e h =
    ground arith
answer-refused context op id generation now correlation deny Status.active existing c s e h =
    deny-refused context op id generation now correlation existing c s (inl e)
answer-refused context op id generation now correlation deny Status.expired existing c s e h =
    deny-refused context op id generation now correlation existing c s (inr e)
answer-refused context op id generation now correlation deny Status.pending existing c s e h =
    ground arith
answer-refused context op id generation now correlation deny Status.denied existing c s e h =
    ground arith

-- An operator's answer to a connection that is expired, an approval of one that is denied, and a denial
-- of one that is active are refused as a binding error, whatever decision, generation and time they
-- name.
pub decide_connection-refused :
    (context : Context) (operation_id id : Digest) (generation now : ℕ) (correlation : Digest)
    (decision : OperatorDecision) (c : ConnectionRecord) (s : Store)
    → read_connection context s id ≡ ok c
    → contradicts c.status decision ≡ true
    → decide_connection context operation_id id generation now correlation decision s ≡ err binding
unfolding decide_connection decide_found read_decision
decide_connection-refused context operation_id id generation now correlation decision c s read h =
    elim (parse_some-cases (find (has_operation operation_id) s.decisions)) [
      | inl bad ↦ rw bad refl
      | inr (found, good) ↦ rw good (rest found)
    ]
  where
    rest :
        (found : Option PersistedDecision)
        → (ok_or found binding >>= λ existing.
            if not (is_some_of existing.connection_id id)
              || not (existing.policy_generation == generation)
            then err binding
            else decide_found context operation_id id generation now correlation decision existing
                s)
          ≡ err binding
    rest none = refl
    rest (some existing) =
        let refused =
          answer-refused context operation_id id generation now correlation decision c.status
            existing c s refl h in
        rw read (ground (arith, refused))
