-- ===== src/Common/Sorting.antt =====
-- Sorting by a Boolean order, neighbours that are equal, and the search in a sorted list.
pub mod Laws
use mathlib.Core.Bool.{Bool, false, ◌||◌}
use mathlib.Core.List.{List, [], ◌∷◌}
use myc.Common.Tests.{if◌then◌else◌}

module _ {ℓ} {A : Type ℓ} (lt : A → A → Bool) where
  unfoldable pub insert_by : A → List A → List A
  insert_by x [] = x ∷ []
  insert_by x (y ∷ ys) = let rest = insert_by x ys in if lt y x then y ∷ rest else x ∷ y ∷ ys

  -- `sort_by`, which is stable.
  unfoldable pub sort_by : List A → List A
  unfolding insert_by
  sort_by [] = []
  sort_by (x ∷ xs) = insert_by x (sort_by xs)

module _ {ℓ} {A : Type ℓ} (eq : A → A → Bool) where
  -- `windows(2).any(…)`: two neighbours are equal.
  unfoldable pub has_equal_neighbours : List A → Bool
  has_equal_neighbours [] = false
  has_equal_neighbours (x ∷ []) = false
  has_equal_neighbours (x ∷ y ∷ ys) = eq x y || has_equal_neighbours (y ∷ ys)

module _ {ℓ} {A : Type ℓ} (lt eq : A → A → Bool) where
  -- `binary_search(x).is_ok()` on a sorted list: is the first that is not below `x` equal to it?
  unfoldable pub search_by : List A → A → Bool
  search_by [] x = false
  search_by (y ∷ ys) x = let rest = search_by ys x in if lt y x then rest else eq y x
