-- ===== src/Common/Found.antt =====
-- The first element that passes a test, and what holds of all the elements.
use mathlib.Core.Path.{◌≡◌, refl, subst, ap, ◌∙◌}
use mathlib.Core.Logic.{inl, inr}
use mathlib.Core.Bool.{Bool, true}
use mathlib.Core.Option.{Option, none, some}
use mathlib.Core.List.{List, [], ◌∷◌, Memᴰ}
use native.Mathlib.Omega.{arith}
use myc.Common.Tests.{Bool-cases}
use myc.Common.Results.{Result, ok, >>=-eq-ok}
use myc.Common.Lists.{find, all, on_first, update_first, All}

-- A step on the first element that passes the test.
pub on_first-found {ε ℓ κ} :
    {E : Type ε} {A : Type ℓ} {B : Type κ} (test : A → Bool) (missing : E)
    (step : A → Result E (B × A)) (xs : List A) (x y : A) (b : B)
    → find test xs ≡ some x
    → step x ≡ ok (b, y)
    → test y ≡ true
    → (ys : List A) × (on_first test missing step xs ≡ ok (b, ys)) × (find test ys ≡ some y)
unfolding on_first find
on_first-found test missing step [] x y b f h t = cc
on_first-found test missing step (z ∷ xs) x y b f h t = elim (Bool-cases (test z)) [
  | inl hit ↦ (y ∷ xs, ground (arith, hit), rw t)
  | inr miss ↦
      let (ys, e, g) = on_first-found test missing step xs x y b (rw miss at f) h t in
      (z ∷ ys, rw miss (rw e), rw miss g)
]

-- A step on the first element that passes a test, read backwards.
pub on_first-eq-ok {ε ℓ κ} :
    {E : Type ε} {A : Type ℓ} {B : Type κ} (test : A → Bool) (missing : E)
    (step : A → Result E (B × A)) (xs : List A) (b : B) (ys : List A)
    → on_first test missing step xs ≡ ok (b, ys)
    → (x : A) × (y : A) × (find test xs ≡ some x)
      × (step x ≡ ok (b, y))
      × (test y ≡ true → find test ys ≡ some y)
unfolding on_first find
on_first-eq-ok test missing step [] b ys h = cc
on_first-eq-ok test missing step (z ∷ xs) b ys h = elim (Bool-cases (test z)) [
  | inl hit ↦
      let (r, e, e') = >>=-eq-ok (step z) _ (rw hit at h) in
      let first : r.0 ≡ b = cc in
      let out : r.1 ∷ xs ≡ ys = cc in
      (
        z,
        r.1,
        rw hit,
        e ∙ ap (λ c. ok (c, r.1)) first,
        λ t. subst (λ l. find test l ≡ some r.1) out (rw t),
      )
  | inr miss ↦
      let (r, e, e') = >>=-eq-ok (on_first test missing step xs) _ (rw miss at h) in
      let first : r.0 ≡ b = cc in
      let out : z ∷ r.1 ≡ ys = cc in
      let (x, y, f, s, g) =
        on_first-eq-ok test missing step xs b r.1 (e ∙ ap (λ c. ok (c, r.1)) first) in
      (x, y, rw miss f, s, λ t. subst (λ l. find test l ≡ some y) out (rw miss (g t)))
]

pub update_first-eq-ok {ε ℓ} :
    {E : Type ε} {A : Type ℓ} (test : A → Bool) (missing : E) (step : A → Result E A)
    (xs ys : List A)
    → update_first test missing step xs ≡ ok ys
    → (x : A) × (y : A) × (find test xs ≡ some x)
      × (step x ≡ ok y)
      × (test y ≡ true → find test ys ≡ some y)
unfolding update_first find
update_first-eq-ok test missing step [] ys h = cc
update_first-eq-ok test missing step (z ∷ xs) ys h = elim (Bool-cases (test z)) [
  | inl hit ↦
      let (y, e, e') = >>=-eq-ok (step z) _ (rw hit at h) in
      let out : y ∷ xs ≡ ys = cc in
      (z, y, rw hit, e, λ t. subst (λ l. find test l ≡ some y) out (rw t))
  | inr miss ↦
      let (r, e, e') = >>=-eq-ok (update_first test missing step xs) _ (rw miss at h) in
      let out : z ∷ r ≡ ys = cc in
      let (x, y, f, s, g) = update_first-eq-ok test missing step xs r e in
      (x, y, rw miss f, s, λ t. subst (λ l. find test l ≡ some y) out (rw miss (g t)))
]

pub find-all {ℓ} :
    {A : Type ℓ} (p test : A → Bool) (xs : List A) (x : A)
    → all p xs ≡ true
    → find test xs ≡ some x
    → p x ≡ true
unfolding all find
find-all p test [] x h f = cc
find-all p test (y ∷ xs) x h f = elim (Bool-cases (test y)) [
  | inl hit ↦ ground (arith, hit)
  | inr miss ↦ find-all p test xs x (ground arith) (rw miss at f)
]

pub find-All {ℓ κ} :
    {A : Type ℓ} (P : A → Type κ) (test : A → Bool) (xs : List A) (x : A)
    → All P xs
    → find test xs ≡ some x
    → P x
unfolding find
find-All P test [] x v f = cc
find-All P test (y ∷ xs) x v f = elim (Bool-cases (test y)) [
  | inl hit ↦ let same : y ≡ x = ground (arith, hit) in subst P same v.0
  | inr miss ↦ find-All P test xs x v.1 (rw miss at f)
]

pub All-weaken {ℓ κ π} :
    {A : Type ℓ} (P : A → Type κ) (Q : A → Type π) (xs : List A)
    → ((x : A) → P x → Q x)
    → All P xs
    → All Q xs
All-weaken P Q [] f v = tt
All-weaken P Q (x ∷ xs) f v = (f x v.0, All-weaken P Q xs f v.1)

pub All-members {ℓ κ} :
    {A : Type ℓ} (P : A → Type κ) (xs : List A) → ((x : A) → Memᴰ x xs → P x) → All P xs
All-members P [] f = tt
All-members P (x ∷ xs) f = (f x (Memᴰ.head refl), All-members P xs (λ y m. f y (Memᴰ.tail m)))

pub same_some {ℓ} : {A : Type ℓ} (o : Option A) (x y : A) → o ≡ some x → o ≡ some y → x ≡ y
same_some none x y e f = cc
same_some (some z) x y e f = cc
