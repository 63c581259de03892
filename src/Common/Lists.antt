-- ===== src/Common/Lists.antt =====
-- Lists measured by native numbers, predicates on every element, and work on the first match.
use Prim.Native.Nat.{ℕ, suc, ◌+◌, ◌≤◌}
use mathlib.Core.Path.{◌≡◌, subst}
use mathlib.Core.Logic.{inl, inr}
use mathlib.Core.Bool.{Bool, true, false, ◌&&◌, ◌||◌}
use mathlib.Core.Option.{Option, none, some}
use mathlib.Core.List.{List, [], ◌∷◌}
use native.Mathlib.Omega.{arith}
use myc.Common.Tests.{if◌then◌else◌, Bool-cases}
use myc.Common.Results.{Result, ok, err, ◌>>=◌, >>=-eq-ok}

module _ {ℓ} {A : Type ℓ} where
  abbrev pub length : List A → ℕ
  length [] = 0
  length (x ∷ xs) = suc (length xs)

  -- How many elements pass the test.
  unfoldable pub count_if : (A → Bool) → List A → ℕ
  count_if test [] = 0
  count_if test (x ∷ xs) = (if test x then 1 else 0) + count_if test xs

  unfoldable pub any : (A → Bool) → List A → Bool
  any test [] = false
  any test (x ∷ xs) = test x || any test xs

  unfoldable pub all : (A → Bool) → List A → Bool
  all test [] = true
  all test (x ∷ xs) = test x && all test xs

  -- The first element that passes the test.
  unfoldable pub find : (A → Bool) → List A → Option A
  find test [] = none
  find test (x ∷ xs) = if test x then some x else find test xs

module _ {ℓ} {A : Type ℓ} where
  pub count_if-le-length : (test : A → Bool) (xs : List A) → count_if test xs ≤ length xs
  unfolding count_if
  count_if-le-length test [] = omega arith
  count_if-le-length test (x ∷ xs) = ground (arith, count_if-le-length test xs)

  pub count_if_mono :
      (p q : A → Bool) (xs : List A)
      → ((x : A) → p x ≡ true → q x ≡ true)
      → count_if p xs ≤ count_if q xs
  unfolding count_if
  count_if_mono p q [] h = omega arith
  count_if_mono p q (x ∷ xs) h = ground (arith, h x, count_if_mono p q xs h)

  pub find-true : (test : A → Bool) (xs : List A) {x : A} → find test xs ≡ some x → test x ≡ true
  unfolding find
  find-true test [] h = cc
  find-true test (y ∷ ys) h = elim (Bool-cases (test y)) [
    | inl hit ↦ ground (arith, hit)
    | inr miss ↦ find-true test ys (ground arith)
  ]

-- A predicate on every element.
abbrev pub All {ℓ κ} : {A : Type ℓ} → (A → Type κ) → List A → Type κ
All P [] = Unit
All P (x ∷ xs) = P x × All P xs

-- Run a fallible step on the first element that passes the test and put its result back; no such
-- element is the error `missing`.
unfoldable pub on_first {ε ℓ κ} :
    {E : Type ε} {A : Type ℓ} {B : Type κ}
    → (A → Bool)
    → E
    → (A → Result E (B × A))
    → List A
    → Result E (B × List A)
on_first test missing step [] = err missing
on_first test missing step (x ∷ xs) =
    let rest = on_first test missing step xs in
    if test x then (step x >>= λ r. ok (r.0, r.1 ∷ xs)) else (rest >>= λ r. ok (r.0, x ∷ r.1))

-- The same with no second result.
unfoldable pub update_first {ε ℓ} :
    {E : Type ε} {A : Type ℓ} → (A → Bool) → E → (A → Result E A) → List A → Result E (List A)
update_first test missing step [] = err missing
update_first test missing step (x ∷ xs) =
    let rest = update_first test missing step xs in
    if test x then (step x >>= λ y. ok (y ∷ xs)) else (rest >>= λ ys. ok (x ∷ ys))

-- A predicate that the step keeps holds of every element afterwards.
pub on_first-All {ε ℓ κ π} :
    {E : Type ε} {A : Type ℓ} {B : Type κ} (P : A → Type π) (test : A → Bool) (missing : E)
    (step : A → Result E (B × A)) (xs : List A) (b : B) (ys : List A)
    → ((x : A) (c : B) (y : A) → step x ≡ ok (c, y) → P x → P y)
    → on_first test missing step xs ≡ ok (b, ys)
    → All P xs
    → All P ys
unfolding on_first
on_first-All P test missing step [] b ys keep h v = cc
on_first-All P test missing step (x ∷ xs) b ys keep h v = elim (Bool-cases (test x)) [
  | inl hit ↦
      let (r, e, e') = >>=-eq-ok (step x) _ (rw hit at h) in
      let out : r.1 ∷ xs ≡ ys = cc in subst (All P) out (keep x r.0 r.1 e v.0, v.1)
  | inr miss ↦
      let (r, e, e') = >>=-eq-ok (on_first test missing step xs) _ (rw miss at h) in
      let out : x ∷ r.1 ≡ ys = cc in
      subst (All P) out (v.0, on_first-All P test missing step xs r.0 r.1 keep e v.1)
]
