-- ===== src/Connection/Permissions/Sets.antt =====
-- What a permission set promises: it is sorted, has no permission twice, and its search decides
-- membership.
use myc.Common.{
  ℕ, ◌≤◌, ◌≡◌, refl, sym, subst, ◌∙◌, Bool, true, false, List, [], ◌∷◌, ok, arith, length, any, all,
  ◌==◌, if◌then◌else◌, sort_by, has_equal_neighbours, StrictOrder, Ascending, sort_by-any,
  sort_by-length, sort_by-Ascending, search_by-any, Ascending-extensional, Bool-cases, inl, inr,
}
use myc.Connection.Permissions.{
  Permission, permission_lt, permission_eq, permission_set_new, permissions_contain, is_subset_of,
  variant, kind_of, get_public_key, get_session_capability, sign_event, nip04_encrypt,
  nip04_decrypt, nip44_encrypt, nip44_decrypt, ping, switch_relays, logout,
}

permission_order : StrictOrder permission_lt permission_eq
unfolding permission_lt permission_eq
permission_order = record {
  asym = λ x y h. ground arith;
  trans = λ x y z h g. ground arith;
  total = λ x y h g. ground arith;
  apart = λ x y h. ground arith;
}

permission_eq_refl : (p : Permission) → permission_eq p p ≡ true
unfolding permission_eq
permission_eq_refl p = ground arith

-- The permission of a place and a kind.
permission_at : ℕ → ℕ → Permission
permission_at place kind =
    if place == 0
    then get_public_key
    else if place == 1
    then get_session_capability
    else if place == 2
    then sign_event kind
    else if place == 3
    then nip04_encrypt
    else if place == 4
    then nip04_decrypt
    else if place == 5
    then nip44_encrypt
    else if place == 6
    then nip44_decrypt
    else if place == 7
    then ping
    else if place == 8
    then switch_relays
    else logout

permission_at-variant : (p : Permission) → permission_at (variant p) (kind_of p) ≡ p
unfolding permission_at
permission_at-variant get_public_key = refl
permission_at-variant get_session_capability = refl
permission_at-variant (sign_event kind) = refl
permission_at-variant nip04_encrypt = refl
permission_at-variant nip04_decrypt = refl
permission_at-variant nip44_encrypt = refl
permission_at-variant nip44_decrypt = refl
permission_at-variant ping = refl
permission_at-variant switch_relays = refl
permission_at-variant logout = refl

pub permission_eq_sound : (p q : Permission) → permission_eq p q ≡ true → p ≡ q
unfolding permission_eq
permission_eq_sound p q h =
    let same_variant : variant p ≡ variant q = ground arith in
    let same_kind : kind_of p ≡ kind_of q = ground arith in
    let f : permission_at (variant p) (kind_of p) ≡ p = permission_at-variant p in
    let g : permission_at (variant q) (kind_of q) ≡ q = permission_at-variant q in cc

permission_eq_sym : (p q : Permission) → permission_eq p q ≡ permission_eq q p
unfolding permission_eq
permission_eq_sym p q = ground arith

-- What an accepted set is.
permission_set_new-eq-ok :
    (xs s : List Permission)
    → permission_set_new xs ≡ ok s
    → (length xs ≤ 64)
      × (s ≡ sort_by permission_lt xs)
      × (has_equal_neighbours permission_eq (sort_by permission_lt xs) ≡ false)
unfolding permission_set_new
permission_set_new-eq-ok xs s h = ground arith

pub permission_set_new-Ascending :
    (xs s : List Permission) → permission_set_new xs ≡ ok s → Ascending permission_lt s
permission_set_new-Ascending xs s h =
    let (bound, e, distinct) = permission_set_new-eq-ok xs s h in
    subst (Ascending permission_lt) (sym e)
      (sort_by-Ascending permission_lt permission_eq permission_order xs distinct)

-- The search in an ascending list decides membership.
permissions_contain-any :
    (s : List Permission) (p : Permission)
    → Ascending permission_lt s
    → permissions_contain s p ≡ any (λ q. permission_eq q p) s
unfolding permissions_contain
permissions_contain-any s p v =
    search_by-any permission_lt permission_eq permission_order s p
      (λ q least other. permission_order.total q p least (permission_eq_sym p q ∙ other))
      (λ q less. permission_eq_sym q p ∙ permission_order.apart q p less) v

-- An accepted permission set has as many permissions as were given, at most 64; and its binary
-- search answers, for every permission, whether it was among those given.
pub permission_set_new-contain :
    (xs s : List Permission) (p : Permission)
    → permission_set_new xs ≡ ok s
    → (permissions_contain s p ≡ any (λ q. permission_eq q p) xs)
      × (length s ≡ length xs)
      × (length s ≤ 64)
permission_set_new-contain xs s p h =
    let (bound, e, distinct) = permission_set_new-eq-ok xs s h in
    let searched = permissions_contain-any s p (permission_set_new-Ascending xs s h) in
    let sorted : any (λ q. permission_eq q p) s ≡ any (λ q. permission_eq q p) xs =
      subst (λ t. any (λ q. permission_eq q p) t ≡ any (λ q. permission_eq q p) xs) (sym e)
        (sort_by-any permission_lt (λ q. permission_eq q p) xs) in
    let same_length : length s ≡ length xs =
      subst (λ t. length t ≡ length xs) (sym e) (sort_by-length permission_lt xs) in
    (searched ∙ sorted, same_length, ground arith)

is_subset_of-any :
    (s t : List Permission) (p : Permission)
    → Ascending permission_lt t
    → is_subset_of s t ≡ true
    → any (λ q. permission_eq q p) s ≡ true
    → any (λ q. permission_eq q p) t ≡ true
unfolding is_subset_of all any
is_subset_of-any [] t p v h m = ground arith
is_subset_of-any (x ∷ xs) t p v h m = elim (Bool-cases (permission_eq x p)) [
  | inl same ↦
      subst (λ q. any (λ r. permission_eq r q) t ≡ true) (permission_eq_sound x p same)
        (ground (arith, permissions_contain-any t x v))
  | inr other ↦ is_subset_of-any xs t p v (ground arith) (ground arith)
]

same_any : (a b : Bool) → (a ≡ true → b ≡ true) → (b ≡ true → a ≡ true) → a ≡ b
same_any a b f g = ground arith

-- Of two accepted sets, each of which is a subset of the other, the stored lists are equal, whatever
-- the orders in which their permissions were given.
pub is_subset_of_antisym :
    (xs ys s t : List Permission)
    → permission_set_new xs ≡ ok s
    → permission_set_new ys ≡ ok t
    → is_subset_of s t ≡ true
    → is_subset_of t s ≡ true
    → s ≡ t
is_subset_of_antisym xs ys s t h g st ts =
    let v = permission_set_new-Ascending xs s h in
    let w = permission_set_new-Ascending ys t g in
    Ascending-extensional permission_lt permission_eq permission_order permission_eq_sound
      permission_eq_refl s t v w
      (λ p.
        same_any (any (λ q. permission_eq q p) s) (any (λ q. permission_eq q p) t)
          (is_subset_of-any s t p w st) (is_subset_of-any t s p v ts))
