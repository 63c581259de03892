-- ===== src/Governance/Rates/Subjects.antt =====
-- An attempt on several subjects is admitted by all of them, or by none.
use myc.Common.{ℕ, ◌≡◌, Bool, true, some, List, [], ◌∷◌, ok, all, >>=-eq-ok, subst, Void, both_true}
use myc.Governance.Rates.{
  RatePolicy, Subject, RateRow, RateState, load_all, persist_all, govern_subjects, can_accept,
  load_rate_state, persist_rate_state,
}
use myc.Governance.Rates.Windows.{Observed, attempt}

-- Each subject's row comes from the attempts of its log.
abbrev pub Tracked : RatePolicy → List Subject → List (List (ℕ × Bool)) → Type 0
Tracked policy [] [] = Unit
Tracked policy (s ∷ ss) (log ∷ logs) = Observed policy s.scope s.row log × Tracked policy ss logs
Tracked policy _ _ = Void

-- Each subject's new row comes from one more attempt, with this time and answer.
abbrev pub Followed :
    RatePolicy → ℕ → Bool → List Subject → List RateRow → List (List (ℕ × Bool)) → Type 0
Followed policy now admitted [] [] [] = Unit
Followed policy now admitted (s ∷ ss) (row ∷ rows) (log ∷ logs) =
    Observed policy s.scope (some row) ((now, admitted) ∷ log)
    × Followed policy now admitted ss rows logs
Followed policy now admitted _ _ _ = Void

persist_all-Followed :
    (policy : RatePolicy) (now : ℕ) (admitted : Bool) (ss : List Subject) (states : List RateState)
    (rows : List RateRow) (logs : List (List (ℕ × Bool)))
    → Tracked policy ss logs
    → load_all policy now ss ≡ ok states
    → (admitted ≡ true → all (λ s. can_accept s policy) states ≡ true)
    → persist_all policy now admitted ss states ≡ ok rows
    → Followed policy now admitted ss rows logs
unfolding load_all persist_all all
persist_all-Followed policy now admitted [] [] [] [] v l may p = tt
persist_all-Followed policy now admitted [] (state ∷ states) rows logs v l may p = cc
persist_all-Followed policy now admitted [] [] (row ∷ rows) logs v l may p = cc
persist_all-Followed policy now admitted [] [] [] (log ∷ logs) v l may p = elim v [ ]
persist_all-Followed policy now admitted (s ∷ ss) states rows [] v l may p = elim v [ ]
persist_all-Followed policy now admitted (s ∷ ss) [] rows (log ∷ logs) v l may p = cc
persist_all-Followed policy now admitted (s ∷ ss) (state ∷ states) rows (log ∷ logs) v l may p =
    let (st, l1, l2) = >>=-eq-ok (load_rate_state policy s.scope s.count s.row now) _ l in
    let (sts, l3, l4) = >>=-eq-ok (load_all policy now ss) _ l2 in
    let (r, p1, p2) = >>=-eq-ok (persist_rate_state policy state now admitted s.row) _ p in
    let (rs, p3, p4) = >>=-eq-ok (persist_all policy now admitted ss states) _ p2 in
    let loaded : load_rate_state policy s.scope s.count s.row now ≡ ok state = cc in
    let others : load_all policy now ss ≡ ok states = cc in
    let out : r ∷ rs ≡ rows = cc in
    subst (λ x. Followed policy now admitted (s ∷ ss) x (log ∷ logs)) out
      (
        attempt s.count now admitted state r v.0 loaded (λ a. (both_true _ _ (may a)).0) p1,
        persist_all-Followed policy now admitted ss states rs logs v.1 others
            (λ a. (both_true (can_accept state policy) _ (may a)).1) p3,
      )

-- If each subject's row comes from the attempts of its log, and `govern_rate_attempt` writes the
-- subjects, then each new row comes from one more attempt, all with the same time and answer.
pub govern_subjects-Followed :
    (policy : RatePolicy) (now : ℕ) (ss : List Subject) (admitted : Bool) (rows : List RateRow)
    (logs : List (List (ℕ × Bool)))
    → Tracked policy ss logs
    → govern_subjects policy now ss ≡ ok (admitted, rows)
    → Followed policy now admitted ss rows logs
unfolding govern_subjects
govern_subjects-Followed policy now ss admitted rows logs v h =
    let (states, l, h2) = >>=-eq-ok (load_all policy now ss) _ h in
    let answer = all (λ s. can_accept s policy) states in
    let (rs, p, h3) = >>=-eq-ok (persist_all policy now answer ss states) _ h2 in
    let same : answer ≡ admitted = cc in
    let out : rs ≡ rows = cc in
    let followed = persist_all-Followed policy now answer ss states rs logs v l (λ a. a) p in
    subst (λ a. Followed policy now a ss rows logs) same
      (subst (λ x. Followed policy now answer ss x logs) out followed)
