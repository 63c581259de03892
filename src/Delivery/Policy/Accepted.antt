-- ===== src/Delivery/Policy/Accepted.antt =====
-- What an accepted delivery policy guarantees.
use myc.Common.{
  ℕ, ◌≤◌, ◌≡◌, refl, sym, subst, true, false, Option, List, [], ◌∷◌, ok, arith, length, bytes_eq,
  sort_by, has_equal_neighbours, StrictOrder, Ascending, sort_by-length, sort_by-count_if,
  sort_by-Ascending,
}
use myc.Delivery.Types.{PolicyMode}
use myc.Delivery.Policy.{
  Policies, policies_new, policy_valid, sort_targets, bytes_lt, required_count, TargetPolicy,
  target_lt, target_eq,
}

bytes_lt_total :
    (xs ys : List ℕ) → bytes_lt xs ys ≡ false → bytes_eq ys xs ≡ false → bytes_lt ys xs ≡ true
unfolding bytes_lt bytes_eq
bytes_lt_total [] [] h g = ground arith
bytes_lt_total [] (y ∷ ys) h g = ground arith
bytes_lt_total (x ∷ xs) [] h g = ground arith
bytes_lt_total (x ∷ xs) (y ∷ ys) h g = ground (arith, bytes_lt_total xs ys)

bytes_lt_trans :
    (xs ys zs : List ℕ) → bytes_lt xs ys ≡ true → bytes_lt ys zs ≡ true → bytes_lt xs zs ≡ true
unfolding bytes_lt
bytes_lt_trans [] [] zs h g = ground arith
bytes_lt_trans [] (y ∷ ys) [] h g = ground arith
bytes_lt_trans [] (y ∷ ys) (z ∷ zs) h g = refl
bytes_lt_trans (x ∷ xs) [] zs h g = ground arith
bytes_lt_trans (x ∷ xs) (y ∷ ys) [] h g = ground arith
bytes_lt_trans (x ∷ xs) (y ∷ ys) (z ∷ zs) h g = ground (arith, bytes_lt_trans xs ys zs)

bytes_lt_asym : (xs ys : List ℕ) → bytes_lt xs ys ≡ true → bytes_lt ys xs ≡ false
unfolding bytes_lt
bytes_lt_asym [] [] h = refl
bytes_lt_asym [] (y ∷ ys) h = refl
bytes_lt_asym (x ∷ xs) [] h = ground arith
bytes_lt_asym (x ∷ xs) (y ∷ ys) h = ground (arith, bytes_lt_asym xs ys)

bytes_lt_apart : (xs ys : List ℕ) → bytes_lt xs ys ≡ true → bytes_eq ys xs ≡ false
unfolding bytes_lt bytes_eq
bytes_lt_apart [] [] h = ground arith
bytes_lt_apart [] (y ∷ ys) h = refl
bytes_lt_apart (x ∷ xs) [] h = ground arith
bytes_lt_apart (x ∷ xs) (y ∷ ys) h = ground (arith, bytes_lt_apart xs ys)

target_order : StrictOrder target_lt target_eq
target_order = record {
  asym = λ x y. bytes_lt_asym x.relay_id y.relay_id;
  trans = λ x y z. bytes_lt_trans x.relay_id y.relay_id z.relay_id;
  total = λ x y. bytes_lt_total x.relay_id y.relay_id;
  apart = λ x y. bytes_lt_apart x.relay_id y.relay_id;
}

-- An accepted policy has at most 32 targets, in strictly ascending order of their relay ids and so
-- with no relay twice; it has as many of them, and of the required ones, as were configured. It needs
-- at least one acknowledgement, and no more than it has required targets.
pub policies_new-Ascending :
    (mode : PolicyMode) (quorum : Option ℕ) (attempts initial maximum deadline outbox : ℕ)
    (targets : List TargetPolicy) (p : Policies)
    → policies_new mode quorum attempts initial maximum deadline outbox targets ≡ ok p
    → Ascending target_lt p.targets
      × (length p.targets ≡ length targets)
      × (length targets ≤ 32)
      × (required_count p.targets ≡ required_count targets)
      × (1 ≤ p.required_acknowledgements)
      × (p.required_acknowledgements ≤ required_count targets)
unfolding policies_new policy_valid sort_targets
policies_new-Ascending mode quorum attempts initial maximum deadline outbox targets p h =
    let distinct : has_equal_neighbours target_eq (sort_by target_lt targets) ≡ false =
      ground arith in
    let e : p.targets ≡ sort_by target_lt targets = ground arith in
    let rest : (length p.targets ≡ length targets)
        × (length targets ≤ 32)
        × (required_count p.targets ≡ required_count targets)
        × (1 ≤ p.required_acknowledgements)
        × (p.required_acknowledgements ≤ required_count targets) =
      ground (
        arith,
        sort_by-length target_lt targets,
        sort_by-count_if target_lt (λ t. t.required) targets,
      ) in
    let (same_length, bound, same_required, positive, enough) = rest in
    let ascending = sort_by-Ascending target_lt target_eq target_order targets distinct in
    (
      subst (Ascending target_lt) (sym e) ascending,
      same_length,
      bound,
      same_required,
      positive,
      enough,
    )
