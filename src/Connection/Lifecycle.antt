-- ===== src/Connection/Lifecycle.antt =====
-- The life of the connections: the calls of src/state_connection.rs that change them, one transaction
-- at a time, in any order, by any callers and at any times. A call that returns an error changes nothing,
-- so it is no step.
pub mod Onwards
pub mod Grants
use myc.Common.{
  ℕ, ◌≡◌, sym, subst, ◌∙◌, true, false, Option, some, List, [], ◌∷◌, ok, arith, find, any, ◌==◌,
  inl, inr, Bool-cases, equal_sound,
}
use myc.Governance.Rates.{RatePolicy, Subject}
use myc.Governance.Audit.{Digest}
use myc.Connection.Types.{ConnectionRow, Store, ConnectionRecord, Context, OperatorDecision}
use myc.Connection.Rows.{has_id}
use myc.Connection.Decide.{decide_connection}
use myc.Connection.Expire.{expire_connection, AdminAction, apply_admin_connection_mutation}
use myc.Connection.Admit.{AdmissionRequest, Admitted, admit_connection}
use myc.Connection.Challenges.{
  ChallengeRequest, Issued, Authorization, issue_challenge, authorize_challenge,
}
use myc.Connection.Moves.{Moves}
use myc.Connection.Effects.{Effect, keeps, moves, opens, found_same}
use myc.Connection.Effects.Answers.{decide_connection-Effect}
use myc.Connection.Effects.Endings.{expire_connection-Effect, admin-Effect}
use myc.Connection.Effects.Questions.{issue_challenge-connections, authorize_challenge-connections}
use myc.Connection.Effects.Openings.{admit_connection-Effect}

pub data Transition (s s' : Store) : Type 0 where
  admits :
      (context : Context) (request : AdmissionRequest) (rate : Option RatePolicy)
      (subjects : List Subject) (out : Admitted)
      → admit_connection context request rate subjects s ≡ ok out
      → out.store ≡ s'
      → Transition s s'
  decides :
      (context : Context) (operation_id id : Digest) (generation now : ℕ) (correlation : Digest)
      (decision : OperatorDecision) (r : ConnectionRecord)
      → decide_connection context operation_id id generation now correlation decision s ≡ ok (r, s')
      → Transition s s'
  expires :
      (context : Context) (id : Digest) (generation now : ℕ) (correlation : Digest)
      (r : ConnectionRecord)
      → expire_connection context id generation now correlation s ≡ ok (r, s')
      → Transition s s'
  administers :
      (context : Context) (id : Digest) (generation now : ℕ) (correlation : Digest)
      (action : AdminAction) (before after : ConnectionRecord)
      → apply_admin_connection_mutation context id generation now correlation action s
        ≡ ok (before, after, s')
      → Transition s s'
  issues :
      (context : Context) (request : ChallengeRequest) (rate : RatePolicy) (subjects : List Subject)
      (out : Issued)
      → issue_challenge context request rate subjects s ≡ ok out
      → out.store ≡ s'
      → Transition s s'
  authorizes :
      (context : Context) (id connection_id operation_id : Digest) (generation now : ℕ)
      (rate : RatePolicy) (subjects : List Subject) (out : Authorization)
      → authorize_challenge context id connection_id operation_id generation now rate subjects s
        ≡ ok out
      → out.store ≡ s'
      → Transition s s'

pub data Reachable (s : Store) : Store → Type 0 where
  here : Reachable s s
  next : {t u : Store} → Reachable s t → Transition t u → Reachable s u

pub Transition-Effect : {s s' : Store} → Transition s s' → Effect s s'
Transition-Effect {s} (admits context request rate subjects out h e) =
    subst (Effect s) e (admit_connection-Effect context request rate subjects s out h)
Transition-Effect {s} {s'} (decides context op id generation now correlation decision r h) =
    decide_connection-Effect context op id generation now correlation decision r s s' h
Transition-Effect {s} {s'} (expires context id generation now correlation r h) =
    expire_connection-Effect context id generation now correlation r s s' h
Transition-Effect {s} {s'}
      (administers context id generation now correlation action before after h) =
    admin-Effect context id generation now correlation action before after s s' h
Transition-Effect {s} (issues context request rate subjects out h e) =
    subst (Effect s) e (keeps (issue_challenge-connections context request rate subjects s out h))
Transition-Effect {s}
      (authorizes context id connection_id op generation now rate subjects out h e) =
    subst (Effect s) e (
      keeps (
        authorize_challenge-connections context id connection_id op generation now rate subjects s
          out h))

find-any :
    (id : Digest) (xs : List ConnectionRow) (x : ConnectionRow)
    → find (has_id id) xs ≡ some x
    → any (has_id id) xs ≡ true
unfolding find any
find-any id [] x h = ground arith
find-any id (y ∷ ys) x h = ground (arith, find-any id ys x)

-- A new row hides no other.
fresh_row :
    (id : Digest) (row x : ConnectionRow) (xs : List ConnectionRow)
    → any (has_id row.id) xs ≡ false
    → find (has_id id) xs ≡ some x
    → (row.id == id) ≡ false
fresh_row id row x xs fresh h = elim (Bool-cases (row.id == id)) [
  | inl same ↦
      let e : row.id ≡ id = equal_sound row.id id same in
      let present : any (has_id id) xs ≡ true = find-any id xs x h in
      let absent : any (has_id id) xs ≡ false = subst (λ k. any (has_id k) xs ≡ false) e fresh in cc
  | inr other ↦ other
]

-- What a relation that every move has says of a row after a step: the row is there, as it was or moved.
pub Effect-find :
    (R : ConnectionRow → ConnectionRow → Type 0)
    → ((x : ConnectionRow) → R x x)
    → ((x y : ConnectionRow) → Moves x y → R x y)
    → {s s' : Store} (id : Digest) (x : ConnectionRow) → Effect s s'
    → find (has_id id) s.connections ≡ some x
    → (y : ConnectionRow) × (find (has_id id) s'.connections ≡ some y) × R x y
unfolding find
Effect-find R r m {s} {s'} id x (keeps same) h =
    (x, subst (λ rows. find (has_id id) rows ≡ some x) same h, r x)
Effect-find R r m {s} {s'} id x (moves k a b rewritten move) h = elim (Bool-cases (id == k)) [
  | inl own ↦
      let e : id ≡ k = equal_sound id k own in
      let a_found : find (has_id id) s.connections ≡ some a =
        subst (λ j. find (has_id j) s.connections ≡ some a) (sym e) rewritten.before in
      let b_found : find (has_id id) s'.connections ≡ some b =
        subst (λ j. find (has_id j) s'.connections ≡ some b) (sym e) rewritten.after in
      let same : a ≡ x = found_same _ a_found h in
      (b, b_found, subst (λ z. R z b) same (m a b move))
  | inr other ↦ (x, rewritten.others id other ∙ h, r x)
]
Effect-find R r m {s} {s'} id x (opens row fresh is_opened same) h = (
  x,
  subst (λ rows. find (has_id id) rows ≡ some x) same
      (rw (fresh_row id row x s.connections fresh h) h),
  r x,
)
