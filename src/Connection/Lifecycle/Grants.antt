-- ===== src/Connection/Lifecycle/Grants.antt =====
-- No connection is ever granted what it did not request.
use myc.Common.{
  ℕ, ◌≡◌, ◌⊎◌, inl, inr, refl, sym, subst, ◌∙◌, ap, true, Option, none, some, List, [], ◌∷◌, ok,
  err, Result, >>=-eq-ok, All, arith, find, any, all, bytes_eq, bytes_eq_refl, both_true,
  Bool-cases, equal_sound, ◌==◌,
}
use myc.Governance.Audit.{Digest}
use myc.Connection.Permissions.{
  Permission, permission_eq, permission_code, permission_parse, permissions_contain, is_subset_of,
  permission_set_new, PermissionError,
}
use myc.Connection.Permissions.Sets.{permission_eq_sound, permission_set_new-contain}
use myc.Connection.Permissions.Codes.{permission_parse_canonical}
use myc.Connection.Types.{ConnectionRow, Store, Status}
use myc.Connection.Rows.{
  has_id, cons_parsed, parse_codes, set_or_binding, permission_set_of, read_permissions,
}
use myc.Connection.Statements.{insert_code, insert_permissions}
use myc.Connection.Moves.{Moves, approves, denies, ends}
use myc.Connection.Effects.{Effect, keeps, moves, opens, IsOpened}
use myc.Connection.Lifecycle.{Reachable, here, next, Transition-Effect}

-- A code is among the codes.
abbrev pub Among : List (List ℕ) → List ℕ → Type 0
Among codes code = any (λ c. bytes_eq c code) codes ≡ true

-- A pending or denied connection has no grant, and every granted code was requested.
abbrev pub IsGranted : ConnectionRow → Type 0
IsGranted row =
    All (Among row.requested) row.granted
    × ((row.status ≡ Status.pending) ⊎ (row.status ≡ Status.denied) → row.granted ≡ [])

pub record AllGranted (s : Store) : Type 0 where
  pub of_row :
      (id : Digest) (x : ConnectionRow) → find (has_id id) s.connections ≡ some x → IsGranted x

-- A permission that was read has its code among the codes that were read.
cons_parsed-eq-some :
    (first : Option Permission) (later : Option (List Permission)) (ps : List Permission)
    → cons_parsed first later ≡ some ps
    → (q : Permission) × (qs : List Permission) × (first ≡ some q)
      × (later ≡ some qs)
      × (q ∷ qs ≡ ps)
cons_parsed-eq-some none later ps h = ground arith
cons_parsed-eq-some (some q) none ps h = ground arith
cons_parsed-eq-some (some q) (some qs) ps h = (q, qs, refl, refl, ground arith)

parse_codes-Among :
    (codes : List (List ℕ)) (parsed : List Permission) (p : Permission)
    → parse_codes codes ≡ some parsed
    → any (λ q. permission_eq q p) parsed ≡ true
    → Among codes (permission_code p)
unfolding parse_codes any
parse_codes-Among [] parsed p h m =
    let e : [] ≡ parsed = ground arith in
    let absent : any (λ q. permission_eq q p) [] ≡ true =
      subst (λ ps. any (λ q. permission_eq q p) ps ≡ true) (sym e) m in
    cc
parse_codes-Among (c ∷ cs) parsed p h m =
    let (q, qs, first, later, e) =
      cons_parsed-eq-some (permission_parse c) (parse_codes cs) parsed h in
    let among : any (λ r. permission_eq r p) (q ∷ qs) ≡ true =
      subst (λ ps. any (λ r. permission_eq r p) ps ≡ true) (sym e) m in
    elim (Bool-cases (permission_eq q p)) [
      | inl same ↦
          let code : permission_code p ≡ c =
            ap permission_code (sym (permission_eq_sound q p same))
            ∙ permission_parse_canonical c q first in
          let hit : bytes_eq c (permission_code p) ≡ true =
            subst (λ d. bytes_eq c d ≡ true) (sym code) (bytes_eq_refl c) in
          ground arith
      | inr other ↦ let rest = parse_codes-Among cs qs p later (ground arith) in ground arith
    ]

insert_permissions-Among :
    (codes : List (List ℕ)) (ps : List Permission) (before after : List (List ℕ))
    → All (λ p. Among codes (permission_code p)) ps
    → All (Among codes) before
    → insert_permissions ps before ≡ ok after
    → All (Among codes) after
unfolding insert_permissions insert_code
insert_permissions-Among codes [] before after v w h =
    let e : before ≡ after = ground arith in subst (All (Among codes)) e w
insert_permissions-Among codes (p ∷ ps) before after v w h =
    let (more, e, h1) = >>=-eq-ok (insert_code (permission_code p) before) _ h in
    let out : permission_code p ∷ before ≡ more = ground arith in
    insert_permissions-Among codes ps more after v.1 (subst (All (Among codes)) out (v.0, w)) h1

set_or_binding-eq-ok :
    (r : Result PermissionError (List Permission)) (s : List Permission)
    → set_or_binding r ≡ ok s
    → r ≡ ok s
set_or_binding-eq-ok (err e) s h = ground arith
set_or_binding-eq-ok (ok t) s h = ground arith

permission_set_of-eq-ok :
    (parsed : Option (List Permission)) (s : List Permission)
    → permission_set_of parsed ≡ ok s
    → (ps : List Permission) × (parsed ≡ some ps) × (permission_set_new ps ≡ ok s)
permission_set_of-eq-ok none s h = ground arith
permission_set_of-eq-ok (some ps) s h = (ps, refl, set_or_binding-eq-ok (permission_set_new ps) s h)

subset-Among :
    (codes : List (List ℕ)) (requested ps : List Permission)
    → read_permissions codes ≡ ok requested
    → is_subset_of ps requested ≡ true
    → All (λ p. Among codes (permission_code p)) ps
unfolding read_permissions is_subset_of all
subset-Among codes requested [] h sub = tt
subset-Among codes requested (p ∷ ps) h sub =
    let read : permission_set_of (parse_codes codes) ≡ ok requested = ground arith in
    let (parsed, e, new) = permission_set_of-eq-ok (parse_codes codes) requested read in
    let (contained, _, _) = permission_set_new-contain parsed requested p new in
    let (first, rest) = both_true (permissions_contain requested p) _ sub in
    (
      parse_codes-Among codes parsed p e (sym contained ∙ first),
      subset-Among codes requested ps h rest,
    )

Among-more : (c : List ℕ) (cs xs : List (List ℕ)) → All (Among cs) xs → All (Among (c ∷ cs)) xs
unfolding any
Among-more c cs [] v = tt
Among-more c cs (x ∷ xs) v = (ground arith, Among-more c cs xs v.1)

Among-self : (codes : List (List ℕ)) → All (Among codes) codes
unfolding any
Among-self [] = tt
Among-self (c ∷ cs) = (ground (arith, bytes_eq_refl c), Among-more c cs cs (Among-self cs))

Moves-IsGranted : (x y : ConnectionRow) → Moves x y → IsGranted x → IsGranted y
Moves-IsGranted x y (approves granted requested codes until now status read sub inserted time) v = (
  insert_permissions-Among x.requested granted x.granted codes
      (subset-Among x.requested requested granted read sub) v.0 inserted,
  λ h. elim h [ inl e ↦ cc | inr e ↦ cc ],
)
Moves-IsGranted x y (denies now status time) v = (v.0, λ h. v.1 (inl status))
Moves-IsGranted x y (ends now status time) v = (v.0, λ h. elim h [ inl e ↦ cc | inr e ↦ cc ])

IsOpened-IsGranted : (row : ConnectionRow) → IsOpened row → IsGranted row
IsOpened-IsGranted row (inl (status, none')) =
    (subst (All (Among row.requested)) (sym none') tt, λ h. none')
IsOpened-IsGranted row (inr (status, same)) = (
  subst (All (Among row.requested)) (sym same) (Among-self row.requested),
  λ h. elim h [ inl e ↦ cc | inr e ↦ cc ],
)

Effect-IsGranted :
    {s s' : Store}
    → Effect s s'
    → AllGranted s
    → (id : Digest) (y : ConnectionRow) → find (has_id id) s'.connections ≡ some y
    → IsGranted y
unfolding find
Effect-IsGranted {s} {s'} (keeps same) v id y h =
    v.of_row id y (subst (λ rows. find (has_id id) rows ≡ some y) (sym same) h)
Effect-IsGranted {s} {s'} (moves k a b rewritten move) v id y h = elim (Bool-cases (id == k)) [
  | inl own ↦
      let e : id ≡ k = equal_sound id k own in
      let b_found : find (has_id id) s'.connections ≡ some b =
        subst (λ j. find (has_id j) s'.connections ≡ some b) (sym e) rewritten.after in
      let same : b ≡ y = ground arith in
      subst IsGranted same (Moves-IsGranted a b move (v.of_row k a rewritten.before))
  | inr other ↦ v.of_row id y (sym (rewritten.others id other) ∙ h)
]
Effect-IsGranted {s} {s'} (opens row fresh is_opened same) v id y h =
    let g : find (has_id id) (row ∷ s.connections) ≡ some y =
      subst (λ rows. find (has_id id) rows ≡ some y) (sym same) h in
    elim (Bool-cases (row.id == id)) [
      | inl own ↦
          let e : some row ≡ some y = rw own at g in
          let e2 : row ≡ y = ground arith in subst IsGranted e2 (IsOpened-IsGranted row is_opened)
      | inr other ↦ v.of_row id y (rw other at g)
    ]

-- Whatever the calls and their order, if in the store before them every granted code was requested by
-- its connection, and no pending or denied connection had a grant, then so it is in every store that
-- they lead to.
pub Reachable-AllGranted : {s s' : Store} → AllGranted s → Reachable s s' → AllGranted s'
Reachable-AllGranted v here = v
Reachable-AllGranted v (next r s) = record {
  of_row = Effect-IsGranted (Transition-Effect s) (Reachable-AllGranted v r);
}
