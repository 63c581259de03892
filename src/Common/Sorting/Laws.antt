-- ===== src/Common/Sorting/Laws.antt =====
-- What sorting and the search in a sorted list promise, over any strict order.
use mathlib.Core.Path.{◌≡◌, refl, sym, subst}
use mathlib.Core.Logic.{inl, inr}
use mathlib.Core.Bool.{Bool, true, false}
use mathlib.Core.List.{List, [], ◌∷◌}
use native.Mathlib.Omega.{arith}
use myc.Common.Tests.{Bool-cases}
use myc.Common.Lists.{All, length, count_if, any}
use myc.Common.Sorting.{insert_by, sort_by, has_equal_neighbours, search_by}

-- A strict order with a test for equality.
pub record StrictOrder {ℓ} {A : Type ℓ} (lt eq : A → A → Bool) : Type ℓ where
  pub asym : (x y : A) → lt x y ≡ true → lt y x ≡ false
  pub trans : (x y z : A) → lt x y ≡ true → lt y z ≡ true → lt x z ≡ true
  pub total : (x y : A) → lt x y ≡ false → eq y x ≡ false → lt y x ≡ true
  pub apart : (x y : A) → lt x y ≡ true → eq y x ≡ false

-- No element is smaller than the one before it.
abbrev IsSorted {ℓ} : {A : Type ℓ} → (A → A → Bool) → List A → Type 0
IsSorted lt [] = Unit
IsSorted lt (x ∷ []) = Unit
IsSorted lt (x ∷ y ∷ ys) = (lt y x ≡ false) × IsSorted lt (y ∷ ys)

-- Every element is smaller than all those after it.
abbrev pub Ascending {ℓ} : {A : Type ℓ} → (A → A → Bool) → List A → Type 0
Ascending lt [] = Unit
Ascending lt (x ∷ xs) = All (λ y. lt x y ≡ true) xs × Ascending lt xs

module _ {ℓ} {A : Type ℓ} (lt : A → A → Bool) where
  insert_by-length : (x : A) (ys : List A) → length (insert_by lt x ys) ≡ length (x ∷ ys)
  unfolding insert_by
  insert_by-length x [] = refl
  insert_by-length x (y ∷ ys) = ground (arith, insert_by-length x ys)

  pub sort_by-length : (xs : List A) → length (sort_by lt xs) ≡ length xs
  unfolding sort_by
  sort_by-length [] = refl
  sort_by-length (x ∷ xs) = ground (arith, insert_by-length x (sort_by lt xs), sort_by-length xs)

  insert_by-count_if :
      (test : A → Bool) (x : A) (ys : List A)
      → count_if test (insert_by lt x ys) ≡ count_if test (x ∷ ys)
  unfolding insert_by count_if
  insert_by-count_if test x [] = refl
  insert_by-count_if test x (y ∷ ys) = ground (arith, insert_by-count_if test x ys)

  -- Sorting keeps how many elements pass any test.
  pub sort_by-count_if :
      (test : A → Bool) (xs : List A) → count_if test (sort_by lt xs) ≡ count_if test xs
  unfolding sort_by count_if
  sort_by-count_if test [] = refl
  sort_by-count_if test (x ∷ xs) =
      ground (arith, insert_by-count_if test x (sort_by lt xs), sort_by-count_if test xs)

  insert_by-any :
      (test : A → Bool) (x : A) (ys : List A) → any test (insert_by lt x ys) ≡ any test (x ∷ ys)
  unfolding insert_by any
  insert_by-any test x [] = refl
  insert_by-any test x (y ∷ ys) = ground (arith, insert_by-any test x ys)

  pub sort_by-any : (test : A → Bool) (xs : List A) → any test (sort_by lt xs) ≡ any test xs
  unfolding sort_by any
  sort_by-any test [] = refl
  sort_by-any test (x ∷ xs) =
      ground (arith, insert_by-any test x (sort_by lt xs), sort_by-any test xs)

module _ {ℓ} {A : Type ℓ} (lt eq : A → A → Bool) (o : StrictOrder lt eq) where
  insert_by-IsSorted : (x : A) (ys : List A) → IsSorted lt ys → IsSorted lt (insert_by lt x ys)
  unfolding insert_by
  insert_by-IsSorted x [] v = tt
  insert_by-IsSorted x (y ∷ []) v = ground (arith, o.asym y x)
  insert_by-IsSorted x (y ∷ z ∷ ys) v = ground (arith, o.asym y x, insert_by-IsSorted x (z ∷ ys))

  sort_by-IsSorted : (xs : List A) → IsSorted lt (sort_by lt xs)
  unfolding sort_by
  sort_by-IsSorted [] = tt
  sort_by-IsSorted (x ∷ xs) = insert_by-IsSorted x (sort_by lt xs) (sort_by-IsSorted xs)

  All-smaller :
      (x y : A) (zs : List A)
      → lt x y ≡ true
      → All (λ z. lt y z ≡ true) zs
      → All (λ z. lt x z ≡ true) zs
  All-smaller x y [] h v = tt
  All-smaller x y (z ∷ zs) h v = (o.trans x y z h v.0, All-smaller x y zs h v.1)

  IsSorted-Ascending :
      (xs : List A) → IsSorted lt xs → has_equal_neighbours eq xs ≡ false → Ascending lt xs
  unfolding has_equal_neighbours
  IsSorted-Ascending [] v h = tt
  IsSorted-Ascending (x ∷ []) v h = (tt, tt)
  IsSorted-Ascending (x ∷ y ∷ ys) v h =
      let rest : Ascending lt (y ∷ ys) = IsSorted-Ascending (y ∷ ys) v.1 (ground arith) in
      let less : lt x y ≡ true = o.total y x v.0 (ground arith) in
      ((less, All-smaller x y ys less rest.0), rest)

  pub sort_by-Ascending :
      (xs : List A) → has_equal_neighbours eq (sort_by lt xs) ≡ false → Ascending lt (sort_by lt xs)
  sort_by-Ascending xs h = IsSorted-Ascending (sort_by lt xs) (sort_by-IsSorted xs) h

  none_equal : (x : A) (ys : List A) → All (λ y. lt x y ≡ true) ys → any (λ y. eq y x) ys ≡ false
  unfolding any
  none_equal x [] v = refl
  none_equal x (y ∷ ys) v = ground (arith, o.apart x y v.0, none_equal x ys v.1)

  -- On a strictly sorted list the search finds exactly the elements.
  pub search_by-any :
      (ys : List A) (x : A)
      → ((y : A) → lt y x ≡ false → eq y x ≡ false → lt x y ≡ true)
      → ((y : A) → lt y x ≡ true → eq y x ≡ false)
      → Ascending lt ys
      → search_by lt eq ys x ≡ any (λ z. eq z x) ys
  unfolding search_by any
  search_by-any [] x above below v = refl
  search_by-any (y ∷ ys) x above below v = elim (Bool-cases (lt y x)) [
    | inl less ↦ ground (arith, below y less, search_by-any ys x above below v.1)
    | inr least ↦ elim (Bool-cases (eq y x)) [
      | inl same ↦ ground arith
      | inr other ↦ ground (arith, none_equal x ys (All-smaller x y ys (above y least other) v.0))
    ]
  ]

module _ {ℓ} {A : Type ℓ} (lt eq : A → A → Bool) (o : StrictOrder lt eq)
    (eq_sound : (x y : A) → eq x y ≡ true → x ≡ y) (eq_refl : (x : A) → eq x x ≡ true) where
  -- An element of a list that lies above `x`.
  member_above :
      (x z : A) (ys : List A)
      → All (λ y. lt x y ≡ true) ys
      → any (λ y. eq y z) ys ≡ true
      → lt x z ≡ true
  unfolding any
  member_above x z [] v h = cc
  member_above x z (y ∷ ys) v h = elim (Bool-cases (eq y z)) [
    | inl same ↦ subst (λ w. lt x w ≡ true) (eq_sound y z same) v.0
    | inr other ↦ member_above x z ys v.1 (ground arith)
  ]

  heads_equal :
      (x y : A) (xs ys : List A)
      → Ascending lt (x ∷ xs)
      → Ascending lt (y ∷ ys)
      → any (λ w. eq w x) (y ∷ ys) ≡ true
      → any (λ w. eq w y) (x ∷ xs) ≡ true
      → x ≡ y
  unfolding any
  heads_equal x y xs ys v w h g = elim (Bool-cases (eq y x)) [
    | inl same ↦ sym (eq_sound y x same)
    | inr other ↦
        ground (arith, member_above y x ys w.0, member_above x y xs v.0, o.asym y x, eq_sound x y)
  ]

  tails_any :
      (x z : A) (xs ys : List A)
      → Ascending lt (x ∷ xs)
      → Ascending lt (x ∷ ys)
      → any (λ w. eq w z) (x ∷ xs) ≡ any (λ w. eq w z) (x ∷ ys)
      → any (λ w. eq w z) xs ≡ any (λ w. eq w z) ys
  unfolding any
  tails_any x z xs ys v w h = elim (Bool-cases (eq x z)) [
    | inl same ↦
        subst (λ u. any (λ y. eq y u) xs ≡ any (λ y. eq y u) ys) (eq_sound x z same)
          (ground (arith, none_equal lt eq o x xs v.0, none_equal lt eq o x ys w.0))
    | inr other ↦ ground arith
  ]

  -- Strictly sorted lists with the same elements are equal.
  pub Ascending-extensional :
      (xs ys : List A)
      → Ascending lt xs
      → Ascending lt ys
      → ((z : A) → any (λ w. eq w z) xs ≡ any (λ w. eq w z) ys)
      → xs ≡ ys
  unfolding any
  Ascending-extensional [] [] v w h = refl
  Ascending-extensional [] (y ∷ ys) v w h = ground (arith, h y, eq_refl y)
  Ascending-extensional (x ∷ xs) [] v w h = ground (arith, h x, eq_refl x)
  Ascending-extensional (x ∷ xs) (y ∷ ys) v w h =
      let same : x ≡ y =
        heads_equal x y xs ys v w (ground (arith, h x, eq_refl x))
          (ground (arith, h y, eq_refl y)) in
      let v2 : Ascending lt (y ∷ xs) = subst (λ u. Ascending lt (u ∷ xs)) same v in
      let h2 : (z : A) → any (λ u. eq u z) (y ∷ xs) ≡ any (λ u. eq u z) (y ∷ ys) =
        subst (λ u. (z : A) → any (λ t. eq t z) (u ∷ xs) ≡ any (λ t. eq t z) (y ∷ ys)) same h in
      let rest : xs ≡ ys =
        Ascending-extensional xs ys v.1 w.1 (λ z. tails_any y z xs ys v2 w (h2 z)) in
      cc
