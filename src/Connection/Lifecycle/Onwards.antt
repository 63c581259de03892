-- ===== src/Connection/Lifecycle/Onwards.antt =====
-- A connection only moves onward.
use myc.Common.{
  ◌≤◌, ◌≡◌, ◌≢◌, ◌⊎◌, inl, inr, refl, sym, subst, ◌∙◌, Bool, true, false, some, arith, find,
}
use myc.Governance.Audit.{Digest}
use myc.Connection.Types.{ConnectionRow, Store, Status, status_index}
use myc.Connection.Rows.{has_id}
use myc.Connection.Moves.{Moves, approves, denies, ends, status_sound}
use myc.Connection.Lifecycle.{Reachable, here, next, Transition-Effect, Effect-find}

-- The order of the statuses.
abbrev pub is_onward : Status → Status → Bool
is_onward Status.pending b = true
is_onward Status.active Status.active = true
is_onward Status.active Status.expired = true
is_onward Status.denied Status.denied = true
is_onward Status.expired Status.expired = true
is_onward _ _ = false

-- The columns that no call changes.
abbrev pub SameIdentity : ConnectionRow → ConnectionRow → Type 0
SameIdentity x y =
    (x.id ≡ y.id)
    × (x.nonce ≡ y.nonce)
    × (x.client_public_key ≡ y.client_public_key)
    × (x.requested_digest ≡ y.requested_digest)
    × (x.requested ≡ y.requested)
    × (x.policy_generation ≡ y.policy_generation)
    × (x.created_at ≡ y.created_at)

-- What becomes of a connection: its identity stays, its status moves onward, and it changes only with
-- its status; its grants stay once it was answered.
pub record Follows (x y : ConnectionRow) : Type 0 where
  pub identity : SameIdentity x y
  pub onward : is_onward x.status y.status ≡ true
  pub time : x.updated_at ≤ y.updated_at
  pub at_rest : x.status ≡ y.status → x ≡ y
  pub grants : x.status ≢ Status.pending → x.granted ≡ y.granted

is_onward_refl : (a : Status) → is_onward a a ≡ true
is_onward_refl Status.pending = refl
is_onward_refl Status.active = refl
is_onward_refl Status.denied = refl
is_onward_refl Status.expired = refl

is_onward_final :
    (a c : Status) → (a ≡ Status.denied) ⊎ (a ≡ Status.expired) → is_onward a c ≡ true → a ≡ c
is_onward_final Status.pending c v h = ground arith
is_onward_final Status.active c v h = ground arith
is_onward_final Status.denied Status.pending v h = ground arith
is_onward_final Status.denied Status.active v h = ground arith
is_onward_final Status.denied Status.denied v h = refl
is_onward_final Status.denied Status.expired v h = ground arith
is_onward_final Status.expired Status.pending v h = ground arith
is_onward_final Status.expired Status.active v h = ground arith
is_onward_final Status.expired Status.denied v h = ground arith
is_onward_final Status.expired Status.expired v h = refl

is_onward_trans :
    (a b c : Status) → is_onward a b ≡ true → is_onward b c ≡ true → is_onward a c ≡ true
is_onward_trans Status.pending b c h g = refl
is_onward_trans Status.active Status.pending c h g = ground arith
is_onward_trans Status.active Status.active c h g = g
is_onward_trans Status.active Status.denied c h g = ground arith
is_onward_trans Status.active Status.expired c h g =
    subst (λ t. is_onward Status.active t ≡ true) (is_onward_final Status.expired c (inr refl) g)
      refl
is_onward_trans Status.denied b c h g =
    subst (λ t. is_onward t c ≡ true) (sym (is_onward_final Status.denied b (inl refl) h)) g
is_onward_trans Status.expired b c h g =
    subst (λ t. is_onward t c ≡ true) (sym (is_onward_final Status.expired b (inr refl) h)) g

is_onward_index : (a b : Status) → is_onward a b ≡ true → status_index a ≤ status_index b
is_onward_index Status.pending b h = omega arith
is_onward_index Status.active Status.pending h = ground arith
is_onward_index Status.active Status.active h = omega arith
is_onward_index Status.active Status.denied h = ground arith
is_onward_index Status.active Status.expired h = omega arith
is_onward_index Status.denied b h =
    subst (λ t. 2 ≤ status_index t) (is_onward_final Status.denied b (inl refl) h) (omega arith)
is_onward_index Status.expired b h =
    subst (λ t. 3 ≤ status_index t) (is_onward_final Status.expired b (inr refl) h) (omega arith)

is_onward_antisym : (a b : Status) → is_onward a b ≡ true → is_onward b a ≡ true → a ≡ b
is_onward_antisym a b h g =
    status_sound a b (ground (arith, is_onward_index a b h, is_onward_index b a g))

is_onward_pending : (a : Status) → is_onward a Status.pending ≡ true → a ≡ Status.pending
is_onward_pending Status.pending h = refl
is_onward_pending Status.active h = ground arith
is_onward_pending Status.denied h = ground arith
is_onward_pending Status.expired h = ground arith

Follows-refl : (x : ConnectionRow) → Follows x x
Follows-refl x = record {
  identity = (refl, refl, refl, refl, refl, refl, refl);
  onward = is_onward_refl x.status;
  time = omega arith;
  at_rest = λ h. refl;
  grants = λ h. refl;
}

Moves-Follows : (x y : ConnectionRow) → Moves x y → Follows x y
Moves-Follows x y (approves granted requested codes until now status read sub inserted time) =
    record {
      identity = (refl, refl, refl, refl, refl, refl, refl);
      onward = subst (λ s. is_onward s Status.active ≡ true) (sym status) refl;
      time = time;
      at_rest = λ h. cc;
      grants = λ h. absurd (h status);
    }
Moves-Follows x y (denies now status time) = record {
  identity = (refl, refl, refl, refl, refl, refl, refl);
  onward = subst (λ s. is_onward s Status.denied ≡ true) (sym status) refl;
  time = time;
  at_rest = λ h. cc;
  grants = λ h. absurd (h status);
}
Moves-Follows x y (ends now status time) = record {
  identity = (refl, refl, refl, refl, refl, refl, refl);
  onward = subst (λ s. is_onward s Status.expired ≡ true) (sym status) refl;
  time = time;
  at_rest = λ h. cc;
  grants = λ h. refl;
}

Follows-trans : (x y z : ConnectionRow) → Follows x y → Follows y z → Follows x z
Follows-trans x y z f g = record {
  identity = ground arith;
  onward = is_onward_trans x.status y.status z.status f.onward g.onward;
  time = omega arith;
  at_rest = λ h.
      let same : x.status ≡ y.status =
        is_onward_antisym x.status y.status f.onward
          (subst (λ t. is_onward y.status t ≡ true) (sym h) g.onward) in
      f.at_rest same ∙ g.at_rest (sym same ∙ h);
  grants = λ h.
      f.grants h
      ∙ g.grants (λ p.
        h (is_onward_pending x.status (subst (λ t. is_onward x.status t ≡ true) p f.onward)));
}

-- Whatever the calls and their order, a connection that is stored stays stored: its identity, its
-- requested permissions and its policy generation stay, its status only moves onward (pending to
-- active or denied, active to expired), its row changes only with its status, and its granted
-- permissions never change once it is no longer pending.
pub Reachable-Follows :
    {s s' : Store} (id : Digest) (x : ConnectionRow)
    → Reachable s s'
    → find (has_id id) s.connections ≡ some x
    → (y : ConnectionRow) × (find (has_id id) s'.connections ≡ some y) × Follows x y
Reachable-Follows id x here h = (x, h, Follows-refl x)
Reachable-Follows id x (next r s) h =
    let (y, found, f) = Reachable-Follows id x r h in
    let (z, last, g) =
      Effect-find Follows Follows-refl Moves-Follows id y (Transition-Effect s) found in
    (z, last, Follows-trans x y z f g)
