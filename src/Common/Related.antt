-- ===== src/Common/Related.antt =====
-- Two lists of one length whose elements are related one by one.
use Prim.Native.Nat.{◌≤◌}
use mathlib.Core.Path.{◌≡◌, subst}
use mathlib.Core.Logic.{inl, inr}
use mathlib.Core.Bool.{Bool, true}
use mathlib.Core.List.{List, [], ◌∷◌}
use native.Mathlib.Omega.{arith}
use myc.Common.Tests.{Bool-cases}
use myc.Common.Results.{Result, ok, >>=-eq-ok}
use myc.Common.Lists.{count_if, on_first}

-- No element, at every level.
pub data Void {ℓ} : Type ℓ where

abbrev pub Pointwise {ℓ κ} : {A : Type ℓ} → (A → A → Type κ) → List A → List A → Type κ
Pointwise R [] [] = Unit
Pointwise R (x ∷ xs) (y ∷ ys) = R x y × Pointwise R xs ys
Pointwise R _ _ = Void

module _ {ℓ κ} {A : Type ℓ} (R : A → A → Type κ) where
  pub Pointwise-refl : (xs : List A) → ((x : A) → R x x) → Pointwise R xs xs
  Pointwise-refl [] r = tt
  Pointwise-refl (x ∷ xs) r = (r x, Pointwise-refl xs r)

  -- Work on the first match relates the list to its result, if the step relates what it changes.
  pub on_first-Pointwise {ε β} :
      {E : Type ε} {B : Type β} (test : A → Bool) (missing : E) (step : A → Result E (B × A))
      (xs : List A) (b : B) (ys : List A)
      → ((x : A) → R x x)
      → ((x y : A) → step x ≡ ok (b, y) → R x y)
      → on_first test missing step xs ≡ ok (b, ys)
      → Pointwise R xs ys
  unfolding on_first
  on_first-Pointwise test missing step [] b ys r keep h = cc
  on_first-Pointwise test missing step (x ∷ xs) b ys r keep h = elim (Bool-cases (test x)) [
    | inl hit ↦
        let (p, e, e') = >>=-eq-ok (step x) _ (rw hit at h) in
        let out : p.1 ∷ xs ≡ ys = cc in
        let here : step x ≡ ok (b, p.1) = cc in
        subst (Pointwise R (x ∷ xs)) out (keep x p.1 here, Pointwise-refl xs r)
    | inr miss ↦
        let (p, e, e') = >>=-eq-ok (on_first test missing step xs) _ (rw miss at h) in
        let out : x ∷ p.1 ≡ ys = cc in
        let there : on_first test missing step xs ≡ ok (b, p.1) = cc in
        subst (Pointwise R (x ∷ xs)) out
          (r x, on_first-Pointwise test missing step xs b p.1 r keep there)
  ]

  pub count_if-Pointwise :
      (p q : A → Bool) (xs ys : List A)
      → ((x y : A) → R x y → p x ≡ true → q y ≡ true)
      → Pointwise R xs ys
      → count_if p xs ≤ count_if q ys
  unfolding count_if
  count_if-Pointwise p q [] [] k h = omega arith
  count_if-Pointwise p q (x ∷ xs) (y ∷ ys) k h =
      ground (arith, k x y h.0, count_if-Pointwise p q xs ys k h.1)
  count_if-Pointwise p q [] (y ∷ ys) k h = elim h [ ]
  count_if-Pointwise p q (x ∷ xs) [] k h = elim h [ ]

  -- The same from the second list to the first.
  pub count_if-Pointwise_converse :
      (p q : A → Bool) (xs ys : List A)
      → ((x y : A) → R x y → q y ≡ true → p x ≡ true)
      → Pointwise R xs ys
      → count_if q ys ≤ count_if p xs
  unfolding count_if
  count_if-Pointwise_converse p q [] [] k h = omega arith
  count_if-Pointwise_converse p q (x ∷ xs) (y ∷ ys) k h =
      ground (arith, k x y h.0, count_if-Pointwise_converse p q xs ys k h.1)
  count_if-Pointwise_converse p q [] (y ∷ ys) k h = elim h [ ]
  count_if-Pointwise_converse p q (x ∷ xs) [] k h = elim h [ ]
