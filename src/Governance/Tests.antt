-- ===== src/Governance/Tests.antt =====
-- Three attempts on one subject in one rate window, the last of them refused.
pub mod Logs
use myc.Common.{
  ℕ, ◌≤◌, ◌≡◌, refl, Bool, true, false, none, some, List, [], ◌∷◌, All, ok, count_if, all,
}
use myc.Governance.Rates.{
  RateClass, RatePolicy, rate_policy_new, SubjectScope, RateRow, RateState, row_state, counted,
  load_rate_state, persist_rate_state, can_accept, checked_time_add, write_rate, rate_check,
  rate_guard_update, Subject, govern_subjects, load_all, persist_all,
}
use myc.Governance.Rates.Subjects.{Followed, govern_subjects-Followed}
use myc.Governance.Rates.Windows.{
  Observed, untouched, attempt, admitted_within, is_admitted, Observed-bounded,
}

abbrev policy : RatePolicy
policy = record {
  class = RateClass.connection_admission;
  window_ms = 60_000;
  max_attempts = 2;
  retention_ms = 120_000;
  maximum_tracked_subjects = 8;
}

policy_accepted : rate_policy_new RateClass.connection_admission 60_000 2 120_000 8 ≡ ok policy
unfolding rate_policy_new
policy_accepted = refl

abbrev opened : RateState
opened = record {
  existing_last = none;
  window_started = 1_000;
  window_ends = 61_000;
  accepted = 0;
  rejected = 0;
  lifetime_accepted = 0;
  lifetime_rejected = 0;
}

abbrev first_row : RateRow
first_row = counted opened true 1_000 121_000

abbrev second_row : RateRow
second_row = counted (row_state first_row) true 1_500 121_500

abbrev third_row : RateRow
third_row = counted (row_state second_row) false 2_000 122_000

loads_first : load_rate_state policy SubjectScope.global 0 none 1_000 ≡ ok opened
unfolding load_rate_state checked_time_add
loads_first = refl

loads_second :
    load_rate_state policy SubjectScope.global 0 (some first_row) 1_500 ≡ ok (row_state first_row)
unfolding load_rate_state checked_time_add
loads_second = refl

loads_third :
    load_rate_state policy SubjectScope.global 0 (some second_row) 2_000 ≡ ok (row_state second_row)
unfolding load_rate_state checked_time_add
loads_third = refl

persists_first : persist_rate_state policy opened 1_000 true none ≡ ok first_row
unfolding persist_rate_state checked_time_add write_rate rate_check rate_guard_update
persists_first = refl

persists_second :
    persist_rate_state policy (row_state first_row) 1_500 true (some first_row) ≡ ok second_row
unfolding persist_rate_state checked_time_add write_rate rate_check rate_guard_update
persists_second = refl

persists_third :
    persist_rate_state policy (row_state second_row) 2_000 false (some second_row) ≡ ok third_row
unfolding persist_rate_state checked_time_add write_rate rate_check rate_guard_update
persists_third = refl

accepts_first : true ≡ true → can_accept opened policy ≡ true
unfolding can_accept
accepts_first e = refl

accepts_second : true ≡ true → can_accept (row_state first_row) policy ≡ true
unfolding can_accept
accepts_second e = refl

refuses_third : false ≡ true → can_accept (row_state second_row) policy ≡ true
refuses_third e = cc

abbrev log : List (ℕ × Bool)
log = (2_000, false) ∷ (1_500, true) ∷ (1_000, true) ∷ []

observed : Observed policy SubjectScope.global (some third_row) log
observed =
    attempt 0 2_000 false (row_state second_row) third_row
      (attempt 0 1_500 true (row_state first_row) second_row
        (attempt 0 1_000 true opened first_row untouched loads_first accepts_first persists_first)
        loads_second accepts_second persists_second)
      loads_third refuses_third persists_third

Observed-bounded_example :
    (count_if (admitted_within 1_000 61_000) log ≤ 2)
    × (2 ≡ count_if (admitted_within 1_000 61_000) log)
    × (2 ≡ count_if is_admitted log)
    × All (λ e. e.0 ≤ 2_000) log
Observed-bounded_example = Observed-bounded policy SubjectScope.global third_row log observed

abbrev subjects : List Subject
subjects =
    record { scope = SubjectScope.global; count = 0; row = none }
    ∷ record { scope = SubjectScope.relay; count = 3; row = none }
    ∷ []

govern_subjects_admits :
    govern_subjects policy 1_000 subjects ≡ ok (true, first_row ∷ first_row ∷ [])
unfolding govern_subjects load_all load_rate_state checked_time_add all can_accept persist_all
    persist_rate_state write_rate rate_check
govern_subjects_admits = refl

govern_subjects-Followed_example :
    Followed policy 1_000 true subjects (first_row ∷ first_row ∷ []) ([] ∷ [] ∷ [])
govern_subjects-Followed_example =
    govern_subjects-Followed policy 1_000 subjects true (first_row ∷ first_row ∷ []) ([] ∷ [] ∷ [])
      (untouched, (untouched, tt)) govern_subjects_admits
