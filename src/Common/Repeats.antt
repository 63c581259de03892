-- ===== src/Common/Repeats.antt =====
-- Work on the first match of a list, repeated.
use mathlib.Core.Path.{◌≡◌, refl, subst}
use mathlib.Core.Logic.{inl, inr}
use mathlib.Core.Bool.{Bool, true}
use mathlib.Core.List.{List, [], ◌∷◌}
use myc.Common.Tests.{Bool-cases}
use myc.Common.Results.{Result, ok, >>=-eq-ok}
use myc.Common.Lists.{on_first}

-- The same work on the first match again, if the step can be repeated and keeps the match.
pub on_first-again {ε ℓ κ} :
    {E : Type ε} {A : Type ℓ} {B : Type κ} (test : A → Bool) (missing : E)
    (step again : A → Result E (B × A)) (b c : B) (xs ys : List A)
    → ((x y : A) → step x ≡ ok (b, y) → test x ≡ true → (test y ≡ true) × (again y ≡ ok (c, y)))
    → on_first test missing step xs ≡ ok (b, ys)
    → on_first test missing again ys ≡ ok (c, ys)
unfolding on_first
on_first-again test missing step again b c [] ys keep h = cc
on_first-again test missing step again b c (x ∷ xs) ys keep h = elim (Bool-cases (test x)) [
  | inl hit ↦
      let (r, e, e') = >>=-eq-ok (step x) _ (rw hit at h) in
      let out : r.1 ∷ xs ≡ ys = cc in
      let e'' : step x ≡ ok (b, r.1) = cc in
      let (still, replay) = keep x r.1 e'' hit in
      subst (λ zs. on_first test missing again zs ≡ ok (c, zs)) out (simp (still, replay) refl)
  | inr miss ↦
      let (r, e, e') = >>=-eq-ok (on_first test missing step xs) _ (rw miss at h) in
      let out : x ∷ r.1 ≡ ys = cc in
      let e'' : on_first test missing step xs ≡ ok (b, r.1) = cc in
      let rest = on_first-again test missing step again b c xs r.1 keep e'' in
      subst (λ zs. on_first test missing again zs ≡ ok (c, zs)) out (simp (miss, rest) refl)
]

-- A step that changes no element leaves the list.
pub on_first-same {ε ℓ κ} :
    {E : Type ε} {A : Type ℓ} {B : Type κ} (test : A → Bool) (missing : E)
    (step : A → Result E (B × A)) (b : B) (xs ys : List A)
    → ((x y : A) → step x ≡ ok (b, y) → y ≡ x)
    → on_first test missing step xs ≡ ok (b, ys)
    → ys ≡ xs
unfolding on_first
on_first-same test missing step b [] ys keep h = cc
on_first-same test missing step b (x ∷ xs) ys keep h = elim (Bool-cases (test x)) [
  | inl hit ↦
      let (r, e, e') = >>=-eq-ok (step x) _ (rw hit at h) in
      let e'' : step x ≡ ok (b, r.1) = cc in let same = keep x r.1 e'' in cc
  | inr miss ↦
      let (r, e, e') = >>=-eq-ok (on_first test missing step xs) _ (rw miss at h) in
      let e'' : on_first test missing step xs ≡ ok (b, r.1) = cc in
      let same = on_first-same test missing step b xs r.1 keep e'' in cc
]
