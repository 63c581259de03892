-- ===== src/Governance/Rates/Windows.antt =====
-- The bound on the attempts that a rate window admits.
use myc.Common.{
  ℕ, ◌+◌, ◌≤◌, ◌<◌, ◌≡◌, refl, sym, subst, ap, ◌∙◌, Bool, true, false, ◌&&◌, Option, none, some,
  List, [], ◌∷◌, All, ok, arith, in_range, count_if, ◌⊎◌, inl, inr,
}
use myc.Governance.Rates.{
  RatePolicy, SubjectScope, RateRow, RateState, can_accept, load_rate_state, persist_rate_state,
  write_rate, row_state, counted, checked_time_add, rate_check,
}

module _ (policy : RatePolicy) (scope : SubjectScope) where
  -- The attempts on one subject, newest first, each with its time and with whether it was admitted; an
  -- attempt is admitted only if the window of this subject can accept it.
  pub data Observed : Option RateRow → List (ℕ × Bool) → Type 0 where
    untouched : Observed none []
    attempt :
        {row : Option RateRow} {log : List (ℕ × Bool)} (count now : ℕ) (admitted : Bool)
        (state : RateState) (row' : RateRow)
        → Observed row log
        → load_rate_state policy scope count row now ≡ ok state
        → (admitted ≡ true → can_accept state policy ≡ true)
        → persist_rate_state policy state now admitted row ≡ ok row'
        → Observed (some row') ((now, admitted) ∷ log)

abbrev pub is_admitted : ℕ × Bool → Bool
is_admitted e = e.1

-- Admitted, and in the window from the first time to the second.
abbrev pub admitted_within : ℕ → ℕ → ℕ × Bool → Bool
admitted_within start ends e = e.1 && in_range start ends e.0

record WindowInv (policy : RatePolicy) (row : RateRow) (log : List (ℕ × Bool)) : Type 0 where
  counts : row.accepted ≡ count_if (admitted_within row.window_started row.window_ends) log
  bounded : row.accepted ≤ policy.max_attempts
  lifetime : row.lifetime_accepted ≡ count_if is_admitted log
  inside : row.last_observed ≤ row.window_ends
  past : All (λ e. e.0 ≤ row.last_observed) log

-- No earlier attempt is in a window that starts now.
none_within :
    (last start ends : ℕ) (log : List (ℕ × Bool))
    → last < start
    → All (λ e. e.0 ≤ last) log
    → count_if (admitted_within start ends) log ≡ 0
unfolding count_if
none_within last start ends [] h v = refl
none_within last start ends (e ∷ log) h v = ground (arith, none_within last start ends log)

All-later :
    (last now : ℕ) (log : List (ℕ × Bool))
    → last ≤ now
    → All (λ e. e.0 ≤ last) log
    → All (λ e. e.0 ≤ now) log
All-later last now [] h v = tt
All-later last now (e ∷ log) h v = (omega (arith, v.0), All-later last now log h v.1)

-- A read goes on with the row's window, or starts a new one after it.
load_rate_state-eq-ok :
    (policy : RatePolicy) (scope : SubjectScope) (count now : ℕ) (row : RateRow) (state : RateState)
    → load_rate_state policy scope count (some row) now ≡ ok state
    → (row.window_started ≤ row.last_observed)
      × (row.last_observed ≤ now)
      × (((state ≡ row_state row) × (now ≤ row.window_ends))
          ⊎ ((state ≡ record (row_state row) {
            window_started = now;
            window_ends = now + policy.window_ms;
            accepted = 0;
            rejected = 0;
          })
              × (row.window_ends < now)))
unfolding load_rate_state checked_time_add
load_rate_state-eq-ok policy scope count now row state h = ground arith

new_state-eq-ok :
    (policy : RatePolicy) (scope : SubjectScope) (count now : ℕ) (state : RateState)
    → load_rate_state policy scope count none now ≡ ok state
    → state ≡ record {
      existing_last = none;
      window_started = now;
      window_ends = now + policy.window_ms;
      accepted = 0;
      rejected = 0;
      lifetime_accepted = 0;
      lifetime_rejected = 0;
    }
unfolding load_rate_state checked_time_add
new_state-eq-ok policy scope count now state h = ground arith

persist_rate_state-eq-ok :
    (policy : RatePolicy) (state : RateState) (now : ℕ) (admitted : Bool) (row : Option RateRow)
    (row' : RateRow)
    → persist_rate_state policy state now admitted row ≡ ok row'
    → row' ≡ counted state admitted now row'.retention_expires
unfolding persist_rate_state write_rate
persist_rate_state-eq-ok policy state now admitted none row' h = ground arith
persist_rate_state-eq-ok policy state now admitted (some row) row' h = ground arith

-- A first attempt, or one in a new window after the row's.
opened_window :
    (policy : RatePolicy) (state : RateState) (last now expires : ℕ) (admitted : Bool)
    (log : List (ℕ × Bool))
    → state.window_started ≡ now
    → state.window_ends ≡ now + policy.window_ms
    → state.accepted ≡ 0
    → state.lifetime_accepted ≡ count_if is_admitted log
    → last < now
    → All (λ e. e.0 ≤ last) log
    → (admitted ≡ true → can_accept state policy ≡ true)
    → WindowInv policy (counted state admitted now expires) ((now, admitted) ∷ log)
unfolding can_accept count_if
opened_window policy state last now expires admitted log s e a l h v may =
    let none = none_within last now (now + policy.window_ms) log h v in
    let past = All-later last now log (omega arith) v in
    record {
      counts = elim admitted [ true ↦ ground arith | false ↦ ground arith ];
      bounded = elim admitted [ true ↦ ground arith | false ↦ ground arith ];
      lifetime = elim admitted [ true ↦ ground arith | false ↦ ground arith ];
      inside = omega arith;
      past = (omega arith, past);
    }

-- One more attempt in the row's window.
kept_window :
    (policy : RatePolicy) (row : RateRow) (now expires : ℕ) (admitted : Bool)
    (log : List (ℕ × Bool))
    → row.window_started ≤ row.last_observed
    → row.last_observed ≤ now
    → now ≤ row.window_ends
    → (admitted ≡ true → can_accept (row_state row) policy ≡ true)
    → WindowInv policy row log
    → WindowInv policy (counted (row_state row) admitted now expires) ((now, admitted) ∷ log)
unfolding can_accept count_if
kept_window policy row now expires admitted log started later within may v =
    let past = All-later row.last_observed now log later v.past in
    record {
      counts = elim admitted [ true ↦ ground arith | false ↦ ground arith ];
      bounded = elim admitted [ true ↦ ground arith | false ↦ ground arith ];
      lifetime = elim admitted [ true ↦ ground arith | false ↦ ground arith ];
      inside = omega arith;
      past = (omega arith, past);
    }

persist_rate_state-started :
    (policy : RatePolicy) (state : RateState) (now : ℕ) (admitted : Bool) (row' : RateRow)
    → persist_rate_state policy state now admitted none ≡ ok row'
    → 1 ≤ state.window_started
unfolding persist_rate_state write_rate rate_check
persist_rate_state-started policy state now admitted row' h = ground arith

abbrev LogInv : RatePolicy → Option RateRow → List (ℕ × Bool) → Type 0
LogInv policy none log = log ≡ []
LogInv policy (some row) log = WindowInv policy row log

count_if-none : count_if is_admitted [] ≡ 0
unfolding count_if
count_if-none = refl

attempt-WindowInv :
    (policy : RatePolicy) (scope : SubjectScope) (row : Option RateRow) (log : List (ℕ × Bool))
    (count now : ℕ) (admitted : Bool) (state : RateState) (row' : RateRow)
    → LogInv policy row log
    → load_rate_state policy scope count row now ≡ ok state
    → (admitted ≡ true → can_accept state policy ≡ true)
    → persist_rate_state policy state now admitted row ≡ ok row'
    → WindowInv policy row' ((now, admitted) ∷ log)
attempt-WindowInv policy scope none log count now admitted state row' v l may p =
    let new = new_state-eq-ok policy scope count now state l in
    let e = persist_rate_state-eq-ok policy state now admitted none row' p in
    let started = persist_rate_state-started policy state now admitted row' p in
    let lifetime : state.lifetime_accepted ≡ count_if is_admitted log =
      subst (λ x. state.lifetime_accepted ≡ count_if is_admitted x) (sym v)
        (ap (λ s. s.lifetime_accepted) new ∙ sym count_if-none) in
    subst (λ r. WindowInv policy r ((now, admitted) ∷ log)) (sym e)
      (opened_window policy state 0 now row'.retention_expires admitted log
        (ap (λ s. s.window_started) new) (ap (λ s. s.window_ends) new) (ap (λ s. s.accepted) new)
        lifetime (ground arith) (subst (All (λ x. x.0 ≤ 0)) (sym v) tt) may)
attempt-WindowInv policy scope (some row) log count now admitted state row' v l may p =
    let (started, later, which) = load_rate_state-eq-ok policy scope count now row state l in
    let e = persist_rate_state-eq-ok policy state now admitted (some row) row' p in
    elim which [
      | inl same ↦
          subst (λ r. WindowInv policy r ((now, admitted) ∷ log))
            (sym (e ∙ ap (λ s. counted s admitted now row'.retention_expires) same.0))
            (kept_window policy row now row'.retention_expires admitted log started later same.1
              (λ a. subst (λ s. can_accept s policy ≡ true) same.0 (may a)) v)
      | inr rolled ↦
          subst (λ r. WindowInv policy r ((now, admitted) ∷ log)) (sym e)
            (opened_window policy state row.last_observed now row'.retention_expires admitted log
              (ap (λ s. s.window_started) rolled.0) (ap (λ s. s.window_ends) rolled.0)
              (ap (λ s. s.accepted) rolled.0) (ap (λ s. s.lifetime_accepted) rolled.0 ∙ v.lifetime)
              (omega (arith, v.inside, rolled.1)) v.past may)
    ]

Observed-LogInv :
    (policy : RatePolicy) (scope : SubjectScope) {row : Option RateRow} {log : List (ℕ × Bool)}
    → Observed policy scope row log
    → LogInv policy row log
Observed-LogInv policy scope untouched = refl
Observed-LogInv policy scope (attempt {row} {log} count now admitted state row' o l may p) =
    attempt-WindowInv policy scope row log count now admitted state row'
      (Observed-LogInv policy scope o) l may p

-- After any attempts on a subject, at whatever times, no more than `max_attempts` were admitted within
-- the row's window; the row's count is how many those were, and its lifetime count how many were
-- admitted at all; and no attempt is later than the last that the row observed.
pub Observed-bounded :
    (policy : RatePolicy) (scope : SubjectScope) (row : RateRow) (log : List (ℕ × Bool))
    → Observed policy scope (some row) log
    → (count_if (admitted_within row.window_started row.window_ends) log ≤ policy.max_attempts)
      × (row.accepted ≡ count_if (admitted_within row.window_started row.window_ends) log)
      × (row.lifetime_accepted ≡ count_if is_admitted log)
      × All (λ e. e.0 ≤ row.last_observed) log
Observed-bounded policy scope row log o =
    let v = Observed-LogInv policy scope o in
    (subst (λ n. n ≤ policy.max_attempts) v.counts v.bounded, v.counts, v.lifetime, v.past)
