-- ===== src/Common/Keyed.antt =====
-- Lists of rows with a key: a statement on the row of one key rewrites that row and no other.
use Prim.Native.Nat.{ℕ}
use mathlib.Core.Path.{◌≡◌, refl, sym, subst, ◌∙◌}
use mathlib.Core.Logic.{inl, inr}
use mathlib.Core.Bool.{Bool, true, false}
use mathlib.Core.Option.{some}
use mathlib.Core.List.{List, [], ◌∷◌}
use native.Mathlib.Omega.{arith}
use myc.Common.Tests.{◌==◌, Bool-cases}
use myc.Common.Results.{Result, ok, >>=-eq-ok}
use myc.Common.Lists.{find, update_first}

module _ {ℓ} {A : Type ℓ} (key : A → ℕ) where
  -- `ys` is `xs` with the row `x` of key `k` turned into `y`.
  pub record Rewrites (k : ℕ) (x y : A) (xs ys : List A) : Type ℓ where
    pub before : find (λ r. key r == k) xs ≡ some x
    pub after : find (λ r. key r == k) ys ≡ some y
    pub others : (j : ℕ) → (j == k) ≡ false → find (λ r. key r == j) ys ≡ find (λ r. key r == j) xs

  pub Rewrites-trans :
      (k : ℕ) (x y y' z : A) (xs ys zs : List A)
      → Rewrites k x y xs ys
      → Rewrites k y' z ys zs
      → Rewrites k x z xs zs
  Rewrites-trans k x y y' z xs ys zs f g = record {
    before = f.before;
    after = g.after;
    others = λ j h. g.others j h ∙ f.others j h;
  }

  other_key : (x : A) (j k : ℕ) → (key x == k) ≡ true → (j == k) ≡ false → (key x == j) ≡ false
  other_key x j k h g = ground arith

  pub update_first-Rewrites {ε} :
      {E : Type ε} (k : ℕ) (missing : E) (step : A → Result E A) (xs ys : List A)
      → ((x y : A) → step x ≡ ok y → key y ≡ key x)
      → update_first (λ r. key r == k) missing step xs ≡ ok ys
      → (x : A) × (y : A) × (step x ≡ ok y) × ((key x == k) ≡ true) × Rewrites k x y xs ys
  unfolding update_first find
  update_first-Rewrites k missing step [] ys keep h = cc
  update_first-Rewrites k missing step (x ∷ xs) ys keep h = elim (Bool-cases (key x == k)) [
    | inl hit ↦
        let (y, e, e') = >>=-eq-ok (step x) _ (rw hit at h) in
        let out : y ∷ xs ≡ ys = cc in
        let same_key : key y ≡ key x = keep x y e in
        let hit2 : (key y == k) ≡ true = rw same_key hit in
        (
          x,
          y,
          e,
          hit,
          subst (Rewrites k x y (x ∷ xs)) out (record {
            before = rw hit refl;
            after = rw hit2 refl;
            others = λ j g.
                let m1 = other_key x j k hit g in
                let m2 = other_key y j k hit2 g in rw m1 (rw m2 refl);
          }),
        )
    | inr miss ↦
        let (zs, e, e') =
          >>=-eq-ok (update_first (λ r. key r == k) missing step xs) _ (rw miss at h) in
        let out : x ∷ zs ≡ ys = cc in
        let (a, b, stepped, hit, r) = update_first-Rewrites k missing step xs zs keep e in
        (
          a,
          b,
          stepped,
          hit,
          subst (Rewrites k a b (x ∷ xs)) out (record {
            before = rw miss r.before;
            after = rw miss r.after;
            others = λ j g. elim (Bool-cases (key x == j)) [
              | inl own ↦ rw own refl
              | inr not_own ↦ rw not_own (r.others j g)
            ];
          }),
        )
  ]

-- A statement on the first row that passes `p` is one on the first that passes `q`, if that row passes
-- `p` and the statement takes and leaves only rows that pass `q`.
pub update_first-find {ε ℓ} :
    {E : Type ε} {A : Type ℓ} (p q : A → Bool) (missing : E) (step : A → Result E A)
    (xs ys : List A) (w : A)
    → ((x y : A) → step x ≡ ok y → (q x ≡ true) × (q y ≡ true))
    → update_first p missing step xs ≡ ok ys
    → find q xs ≡ some w
    → p w ≡ true
    → (y : A) × (step w ≡ ok y) × (find q ys ≡ some y)
unfolding update_first find
update_first-find p q missing step [] ys w keep h f m = cc
update_first-find p q missing step (x ∷ xs) ys w keep h f m = elim (Bool-cases (p x)) [
  | inl hit ↦
      let (y, e, e') = >>=-eq-ok (step x) _ (rw hit at h) in
      let out : y ∷ xs ≡ ys = cc in
      let (qx, qy) = keep x y e in
      let first : some x ≡ some w = rw qx at f in
      let same : x ≡ w = ground arith in
      (y, subst (λ z. step z ≡ ok y) same e, subst (λ zs. find q zs ≡ some y) out (rw qy refl))
  | inr miss ↦
      let (zs, e, e') = >>=-eq-ok (update_first p missing step xs) _ (rw miss at h) in
      let out : x ∷ zs ≡ ys = cc in
      let skipped : q x ≡ false = elim (Bool-cases (q x)) [
        | inl qx ↦
            let first : some x ≡ some w = rw qx at f in
            let same : x ≡ w = ground arith in
            let hit : p x ≡ true = subst (λ z. p z ≡ true) (sym same) m in cc
        | inr qx ↦ qx
      ] in
      let (y, stepped, found) =
        update_first-find p q missing step xs zs w keep e (rw skipped at f) m in
      (y, stepped, subst (λ us. find q us ≡ some y) out (rw skipped found))
]
