-- ===== src/Connection/Effects.antt =====
-- Each transaction of src/state_connection.rs keeps the rows of the connections, moves one of them, or
-- adds one.
pub mod Answers
pub mod Endings
pub mod Openings
pub mod Questions
use myc.Common.{
  ℕ, ◌≤◌, ◌≡◌, refl, sym, subst, ap, ◌∙◌, true, false, ◌&&◌, Option, some, List, [], ◌∷◌, ok, arith,
  both_true, leb, Rewrites, Rewrites-trans, ◌==◌, ◌⊎◌, any,
}
use myc.Governance.Audit.{Digest}
use myc.Connection.Permissions.{Permission, is_subset_of}
use myc.Connection.Types.{Status, ConnectionRow, Store, ConnectionRecord, Context}
use myc.Connection.Rows.{
  has_id, read_permissions, read_connection, connections_guard_update, status_moves,
}
use myc.Connection.Statements.{grant_permissions}
use myc.Connection.Decide.{approve_connection, deny_connection}
use myc.Connection.Moves.{
  Moves, approves, denies, Rewritten, status_sound, update_connection-Rewritten,
  grant_permissions-Rewritten, read_connection-eq-ok,
}

-- A new row: pending with no grant, or active with all that it requested.
abbrev pub IsOpened : ConnectionRow → Type 0
IsOpened row =
    ((row.status ≡ Status.pending) × (row.granted ≡ []))
    ⊎ ((row.status ≡ Status.active) × (row.granted ≡ row.requested))

pub data Effect (s s' : Store) : Type 0 where
  keeps : s.connections ≡ s'.connections → Effect s s'
  moves : (id : Digest) (x y : ConnectionRow) → Rewritten id s s' x y → Moves x y → Effect s s'
  opens :
      (row : ConnectionRow)
      → any (has_id row.id) s.connections ≡ false
      → IsOpened row
      → row ∷ s.connections ≡ s'.connections
      → Effect s s'

-- Later statements that leave the connections leave the effect.
pub Effect-later : (s s' s2 : Store) → s'.connections ≡ s2.connections → Effect s s' → Effect s s2
Effect-later s s' s2 e (keeps same) = keeps (same ∙ e)
Effect-later s s' s2 e (moves id x y r m) =
    moves id x y
      (subst (λ rows. Rewrites (λ (r : ConnectionRow). r.id) id x y s.connections rows) e r) m
Effect-later s s' s2 e (opens row fresh is_opened same) = opens row fresh is_opened (same ∙ e)

pub leb_sound : (a b : ℕ) → leb a b ≡ true → a ≤ b
leb_sound a b h = ground arith

pub guard_time :
    (x y : ConnectionRow) → connections_guard_update x y ≡ true → x.updated_at ≤ y.updated_at
unfolding connections_guard_update
guard_time x y h =
    let earlier : leb x.updated_at y.updated_at ≡ true =
      (both_true _ (leb x.updated_at y.updated_at)
        (both_true
          (y.id == x.id
            && y.nonce == x.nonce
            && y.client_public_key == x.client_public_key
            && y.requested_digest == x.requested_digest
            && y.policy_generation == x.policy_generation
            && y.created_at == x.created_at
            && leb x.updated_at y.updated_at)
          (status_moves x.status y.status y.authorized_until y.updated_at) h).0).1 in
    leb_sound x.updated_at y.updated_at earlier

pub deny_connection-Rewritten :
    (id : Digest) (generation now : ℕ) (s s' : Store)
    → deny_connection id generation now s ≡ ok s'
    → (x : ConnectionRow) × (y : ConnectionRow) × Rewritten id s s' x y × Moves x y
unfolding deny_connection
deny_connection-Rewritten id generation now s s' h =
    let (x, matched, guarded, _, r) = update_connection-Rewritten id _ _ s s' (λ r. refl) h in
    let status = status_sound x.status Status.pending (both_true _ _ matched).0 in
    (x, _, r, denies now status (guard_time x _ guarded))

approve_connection-Rewritten :
    (id : Digest) (generation now : ℕ) (until : Option ℕ) (s s' : Store)
    → approve_connection id generation now until s ≡ ok s'
    → (x : ConnectionRow) × (x.status ≡ Status.pending)
      × (x.updated_at ≤ now)
      × Rewritten id s s' x
          (record x { status = Status.active; updated_at = now; authorized_until = until })
unfolding approve_connection
approve_connection-Rewritten id generation now until s s' h =
    let (x, matched, guarded, _, r) = update_connection-Rewritten id _ _ s s' (λ r. refl) h in
    let status = status_sound x.status Status.pending (both_true _ _ matched).0 in
    (x, status, guard_time x _ guarded, r)

pub found_same :
    {x y : ConnectionRow} (found : Option ConnectionRow) → found ≡ some x → found ≡ some y → x ≡ y
found_same found h g = ground arith

-- The grant and the approval are one move of one row.
pub approval-Rewritten :
    (context : Context) (id : Digest) (generation now : ℕ) (granted : List Permission)
    (until : Option ℕ) (c : ConnectionRecord) (s s1 s2 : Store)
    → read_connection context s id ≡ ok c
    → is_subset_of granted c.requested_permissions ≡ true
    → grant_permissions id granted s ≡ ok s1
    → approve_connection id generation now until s1 ≡ ok s2
    → (x : ConnectionRow) × (y : ConnectionRow) × Rewritten id s s2 x y × Moves x y
approval-Rewritten context id generation now granted until c s s1 s2 h sub g a =
    let (w, found, _, requested) = read_connection-eq-ok context s id c h in
    let (x, codes, inserted, _, first) = grant_permissions-Rewritten id granted s s1 g in
    let (x1, status, time, second) = approve_connection-Rewritten id generation now until s1 s2 a in
    let same : x ≡ w = found_same _ first.before found in
    let same1 : record x { granted = codes } ≡ x1 = found_same _ first.after second.before in
    let both : Rewritten id s s2 x
        (record x1 { status = Status.active; updated_at = now; authorized_until = until }) =
      Rewrites-trans (λ (r : ConnectionRow). r.id) id x (record x { granted = codes }) x1
        (record x1 { status = Status.active; updated_at = now; authorized_until = until })
        s.connections s1.connections s2.connections first second in
    (
      x,
      record x {
        status = Status.active;
        updated_at = now;
        authorized_until = until;
        granted = codes;
      },
      subst
          (λ (z : ConnectionRow).
            Rewritten id s s2 x
              (record z { status = Status.active; updated_at = now; authorized_until = until }))
          (sym same1) both,
      approves granted c.requested_permissions codes until now
          (ap (λ (r : ConnectionRow). r.status) same1 ∙ status)
          (ap (λ (r : ConnectionRow). read_permissions r.requested) same ∙ requested) sub inserted
          (subst (λ (r : ConnectionRow). r.updated_at ≤ now) (sym same1) time),
    )
