-- ===== src/Delivery/Ready/First.antt =====
-- The row that the query takes: a ready one that no ready one comes before.
use myc.Common.{
  All-weaken, All-members, ℕ, ◌≡◌, refl, Bool, true, false, Option, none, some, List, [], ◌∷◌, ◌++◌,
  All, arith, inl, inr, if◌then◌else◌, Bool-cases, subst, sym,
}
use mathlib.Core.List.{Memᴰ}
use myc.Delivery.Types.{Target, Job}
use myc.Delivery.Create.{Outbox}
use myc.Delivery.Ready.{
  target_ready, ready_targets, ready_rows, row_before, first_row, next_ready_row, earlier,
}
use myc.Delivery.Ready.Terms.{
  IsReady, Precedes, EveryTarget, IsNext, target_ready-IsReady, IsReady-target_ready,
  row_before-Precedes,
}

row_before_asym : (r s : Job × Target) → row_before s r ≡ true → row_before r s ≡ false
unfolding row_before
row_before_asym (j, t) (k, u) h = ground arith

row_before_cotrans :
    (x s r : Job × Target)
    → row_before x s ≡ false
    → row_before s r ≡ false
    → row_before x r ≡ false
unfolding row_before
row_before_cotrans (i, v) (j, t) (k, u) h g = ground arith

All-after :
    (s r : Job × Target) (rows : List (Job × Target))
    → row_before s r ≡ false
    → All (λ x. row_before x s ≡ false) rows
    → All (λ x. row_before x r ≡ false) rows
All-after s r [] e v = tt
All-after s r (x ∷ rows) e v = (row_before_cotrans x s r v.0 e, All-after s r rows e v.1)

-- None of the rows, or one that none of them comes before.
abbrev pub IsFirst : Option (Job × Target) → List (Job × Target) → Type 0
IsFirst none rows = rows ≡ []
IsFirst (some r) rows = All (λ x. row_before x r ≡ false) rows

row_before_irrefl : (r : Job × Target) → row_before r r ≡ false
unfolding row_before
row_before_irrefl (j, t) = ground arith

earlier-IsFirst :
    (r : Job × Target) (o : Option (Job × Target)) (rows : List (Job × Target))
    → IsFirst o rows
    → IsFirst (earlier r o) (r ∷ rows)
unfolding earlier
earlier-IsFirst r none rows v =
    subst (λ x. IsFirst (some r) (r ∷ x)) (sym v) (row_before_irrefl r, tt)
earlier-IsFirst r (some s) rows v = elim (Bool-cases (row_before s r)) [
  | inl before ↦ simp before (row_before_asym r s before, v)
  | inr after ↦ simp after (row_before_irrefl r, All-after s r rows after v)
]

first_row-IsFirst : (rows : List (Job × Target)) → IsFirst (first_row rows) rows
unfolding first_row
first_row-IsFirst [] = refl
first_row-IsFirst (r ∷ rows) = earlier-IsFirst r (first_row rows) rows (first_row-IsFirst rows)

-- The property holds of every ready target of these jobs.
abbrev EveryReady : (Job → Target → Type 0) → ℕ → List Job → Type 0
EveryReady P observed_at =
    All (λ j. All (λ t. target_ready j observed_at t ≡ true → P j t) j.targets)

module _ (P : Job × Target → Type 0) (observed_at : ℕ) where
  All-prefix : (xs ys : List (Job × Target)) → All P (xs ++ ys) → All P xs × All P ys
  All-prefix [] ys v = (tt, v)
  All-prefix (x ∷ xs) ys v = let (a, b) = All-prefix xs ys v.1 in ((v.0, a), b)

  All-if :
      (test : Bool) (r : Job × Target) (rows : List (Job × Target))
      → All P (if test then r ∷ rows else rows)
      → (test ≡ true → P r) × All P rows
  All-if true r rows v = (λ _. v.0, v.1)
  All-if false r rows v = (λ e. cc, v)

  ready_targets-All :
      (j : Job) (ts : List Target)
      → All P (ready_targets j observed_at ts)
      → All (λ t. target_ready j observed_at t ≡ true → P (j, t)) ts
  unfolding ready_targets
  ready_targets-All j [] v = tt
  ready_targets-All j (t ∷ ts) v =
      let (now, rest) =
        All-if (target_ready j observed_at t) (j, t) (ready_targets j observed_at ts) v in
      (now, ready_targets-All j ts rest)

  ready_rows-All :
      (js : List Job)
      → All P (ready_rows observed_at js)
      → EveryReady (λ j t. P (j, t)) observed_at js
  unfolding ready_rows
  ready_rows-All [] v = tt
  ready_rows-All (j ∷ js) v =
      let (a, b) =
        All-prefix (ready_targets j observed_at j.targets) (ready_rows observed_at js) v in
      (ready_targets-All j j.targets a, ready_rows-All js b)

  if-All :
      (test : Bool) (r : Job × Target) (rows : List (Job × Target))
      → (test ≡ true → P r)
      → All P rows
      → All P (if test then r ∷ rows else rows)
  if-All true r rows p v = (p refl, v)
  if-All false r rows p v = v

  prefix-All : (xs ys : List (Job × Target)) → All P xs → All P ys → All P (xs ++ ys)
  prefix-All [] ys v w = w
  prefix-All (x ∷ xs) ys v w = (v.0, prefix-All xs ys v.1 w)

  All-ready_targets :
      (j : Job) (ts : List Target)
      → All (λ t. target_ready j observed_at t ≡ true → P (j, t)) ts
      → All P (ready_targets j observed_at ts)
  unfolding ready_targets
  All-ready_targets j [] v = tt
  All-ready_targets j (t ∷ ts) v =
      if-All (target_ready j observed_at t) (j, t) (ready_targets j observed_at ts) v.0
        (All-ready_targets j ts v.1)

  All-ready_rows :
      (js : List Job)
      → EveryReady (λ j t. P (j, t)) observed_at js
      → All P (ready_rows observed_at js)
  unfolding ready_rows
  All-ready_rows [] v = tt
  All-ready_rows (j ∷ js) v =
      prefix-All (ready_targets j observed_at j.targets) (ready_rows observed_at js)
        (All-ready_targets j j.targets v.0) (All-ready_rows js v.1)

  earlier-has :
      (r s : Job × Target) (o : Option (Job × Target))
      → P r
      → ((x : Job × Target) → o ≡ some x → P x)
      → earlier r o ≡ some s
      → P s
  unfolding earlier
  earlier-has r s none p q e = subst P (ground arith) p
  earlier-has r s (some x) p q e = elim (Bool-cases (row_before x r)) [
    | inl before ↦ subst P (ground (arith, before)) (q x refl)
    | inr after ↦ subst P (ground (arith, after)) p
  ]

  first_row-has :
      (rows : List (Job × Target)) (r : Job × Target) → All P rows → first_row rows ≡ some r → P r
  unfolding first_row
  first_row-has [] r v e = cc
  first_row-has (x ∷ rows) r v e =
      earlier-has x r (first_row rows) v.0 (λ y d. first_row-has rows y v.1 d) e

-- What holds of every ready row, as a statement on every target.
EveryReady-EveryTarget :
    (P Q : Job × Target → Type 0) (at : ℕ) (jobs : List Job)
    → ((x : Job × Target) → (IsReady at x → P x) → Q x)
    → EveryReady (λ j t. P (j, t)) at jobs
    → EveryTarget Q jobs
EveryReady-EveryTarget P Q at jobs f =
    All-weaken _ _ jobs
      (λ j. All-weaken _ _ j.targets (λ t h. f (j, t) (λ v. h (IsReady-target_ready at j t v))))

-- A ready target of one of the jobs.
abbrev IsRow : ℕ → List Job → Job × Target → Type 0
IsRow at jobs x = Memᴰ x.0 jobs × Memᴰ x.1 x.0.targets × IsReady at x

ready_IsRow : (at : ℕ) (jobs : List Job) → EveryReady (λ j t. IsRow at jobs (j, t)) at jobs
ready_IsRow at jobs =
    All-members _ jobs
      (λ j m. All-members _ j.targets (λ t n h. (m, n, target_ready-IsReady at j t h)))

IsFirst-IsNext :
    (o : Option (Job × Target)) (observed_at : ℕ) (jobs : List Job)
    → first_row (ready_rows observed_at jobs) ≡ o
    → IsFirst o (ready_rows observed_at jobs)
    → IsNext o observed_at jobs
IsFirst-IsNext none at jobs e v =
    EveryReady-EveryTarget (λ _. ⊥) (λ x. ¬ IsReady at x) at jobs (λ x f. f)
      (ready_rows-All (λ _. ⊥) at jobs (subst (All (λ _. ⊥)) (sym v) tt))
IsFirst-IsNext (some r) at jobs e v =
    let (job, target, ready) =
      first_row-has (IsRow at jobs) at (ready_rows at jobs) r
        (All-ready_rows (IsRow at jobs) at jobs (ready_IsRow at jobs)) e in
    (
      job,
      target,
      ready,
      EveryReady-EveryTarget (λ x. row_before x r ≡ false) (λ x. ¬ (IsReady at x × Precedes x r)) at
          jobs
          (λ x f both.
            let after : row_before x r ≡ false = f both.0 in
            let before : row_before x r ≡ true = row_before-Precedes x r both.1 in cc)
          (ready_rows-All (λ x. row_before x r ≡ false) at jobs v),
    )

-- The query returns nothing if no target of the outbox is ready. Else it returns a ready target of the
-- outbox, and no ready one comes before it by its job's creation time, its job's id and its index. Ready
-- means: the job is pending or active, the target is pending, retryable or unknown and has no active
-- attempt, attempts are left, and the next one is due.
pub next_ready_row-IsNext :
    (observed_at : ℕ) (box : Outbox) → IsNext (next_ready_row observed_at box) observed_at box.jobs
unfolding next_ready_row
next_ready_row-IsNext observed_at box =
    IsFirst-IsNext (next_ready_row observed_at box) observed_at box.jobs refl
      (first_row-IsFirst (ready_rows observed_at box.jobs))
