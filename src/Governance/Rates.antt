-- ===== src/Governance/Rates.antt =====
-- The rate windows of src/state_governance.rs: the policy, and the work of `govern_rate_attempt` on the
-- row of one subject. Each statement names the primary key, so a subject's row is read and written
-- alone; the count of the tracked subjects is an argument of the read.

pub mod Windows
pub mod Subjects
use myc.Common.{
  ℕ, ◌+◌, Bool, true, false, not, ◌&&◌, ◌||◌, Option, none, some, Result, ok, err, ◌>>=◌, ltb, leb,
  ◌==◌, in_range, if◌then◌else◌, ok_or, List, [], ◌∷◌, all, checked_add, i64_max,
}

pub data RateError : Type 0 where
  invalid_rate_policy : RateError

pub data GovernanceError : Type 0 where
  binding storage : GovernanceError

pub data RateClass : Type 0 where
  connection_admission challenge_creation challenge_authorization : RateClass

pub data SubjectScope : Type 0 where
  global relay connection : SubjectScope

pub record RatePolicy : Type 0 where
  pub class : RateClass
  pub window_ms : ℕ
  pub max_attempts : ℕ
  pub retention_ms : ℕ
  pub maximum_tracked_subjects : ℕ

-- `MycRateLimitPolicy::new`.
unfoldable pub rate_policy_new : RateClass → ℕ → ℕ → ℕ → ℕ → Result RateError RatePolicy
rate_policy_new class window_ms max_attempts retention_ms subjects =
    if window_ms == 0
      || ltb 86_400_000 window_ms
      || max_attempts == 0
      || ltb 10_000 max_attempts
      || ltb retention_ms window_ms
      || ltb 2_592_000_000 retention_ms
      || subjects == 0
      || ltb 65_536 subjects
    then err invalid_rate_policy
    else ok (record {
      class = class;
      window_ms = window_ms;
      max_attempts = max_attempts;
      retention_ms = retention_ms;
      maximum_tracked_subjects = subjects;
    })

-- A row of `connection_rate_windows`, without its key.
pub record RateRow : Type 0 where
  pub window_started : ℕ
  pub window_ends : ℕ
  pub accepted : ℕ
  pub rejected : ℕ
  pub lifetime_accepted : ℕ
  pub lifetime_rejected : ℕ
  pub last_observed : ℕ
  pub retention_expires : ℕ

pub record RateState : Type 0 where
  pub existing_last : Option ℕ
  pub window_started : ℕ
  pub window_ends : ℕ
  pub accepted : ℕ
  pub rejected : ℕ
  pub lifetime_accepted : ℕ
  pub lifetime_rejected : ℕ

abbrev pub is_global : SubjectScope → Bool
is_global global = true
is_global _ = false

unfoldable pub can_accept : RateState → RatePolicy → Bool
can_accept state policy = ltb state.accepted policy.max_attempts

unfoldable pub checked_time_add : ℕ → ℕ → Result GovernanceError ℕ
checked_time_add left right = ok_or (checked_add left right) binding >>= λ value.
    (if leb value i64_max then ok value else err binding)

-- The state of a subject that has no row yet.
abbrev pub new_state : RatePolicy → ℕ → Result GovernanceError RateState
new_state policy now = checked_time_add now policy.window_ms >>= λ ends. ok (record {
  existing_last = none;
  window_started = now;
  window_ends = ends;
  accepted = 0;
  rejected = 0;
  lifetime_accepted = 0;
  lifetime_rejected = 0;
})

abbrev pub row_state : RateRow → RateState
row_state row = record {
  existing_last = some row.last_observed;
  window_started = row.window_started;
  window_ends = row.window_ends;
  accepted = row.accepted;
  rejected = row.rejected;
  lifetime_accepted = row.lifetime_accepted;
  lifetime_rejected = row.lifetime_rejected;
}

-- A window that is over gives way to a new one.
unfoldable pub roll_window : RatePolicy → ℕ → RateState → Result GovernanceError RateState
roll_window policy now state =
    if ltb state.window_ends now
    then (checked_time_add now policy.window_ms >>= λ ends.
        ok (record state { window_started = now; window_ends = ends; accepted = 0; rejected = 0 }))
    else ok state

-- `load_rate_state`: `count` is COUNT_RATE_SUBJECTS_SQL, `row` is READ_RATE_SQL.
unfoldable pub load_rate_state :
    RatePolicy → SubjectScope → ℕ → Option RateRow → ℕ → Result GovernanceError RateState
unfolding roll_window
load_rate_state policy scope count none now =
    if not (is_global scope) && leb policy.maximum_tracked_subjects count
    then err binding
    else new_state policy now
load_rate_state policy scope count (some row) now =
    if ltb now row.last_observed
      || ltb row.last_observed row.window_started
      || ltb row.window_ends row.last_observed
      || ltb row.retention_expires row.last_observed
      || ltb policy.max_attempts row.accepted
    then err binding
    else roll_window policy now (row_state row)

-- `u64::from` of a Boolean.
abbrev pub from_bool : Bool → ℕ
from_bool true = 1
from_bool false = 0

-- The CHECKs of `connection_rate_windows` on the columns that a write sets; that on the columns of the key,
-- the kind and the scope, is left out.
unfoldable pub rate_check : RateRow → Bool
rate_check r =
    in_range 1 i64_max r.window_started
    && in_range r.window_started i64_max r.window_ends
    && in_range 0 10_000 r.accepted
    && in_range 0 i64_max r.rejected
    && in_range r.accepted i64_max r.lifetime_accepted
    && in_range r.rejected i64_max r.lifetime_rejected
    && in_range r.window_started i64_max r.last_observed
    && in_range r.last_observed i64_max r.retention_expires

abbrev pub same_window : RateRow → RateRow → Bool
same_window old new =
    new.window_started == old.window_started
    && new.window_ends == old.window_ends
    && ((new.accepted == old.accepted + 1
          && new.rejected == old.rejected
          && new.lifetime_accepted == old.lifetime_accepted + 1
          && new.lifetime_rejected == old.lifetime_rejected)
        || (new.accepted == old.accepted
            && new.rejected == old.rejected + 1
            && new.lifetime_accepted == old.lifetime_accepted
            && new.lifetime_rejected == old.lifetime_rejected + 1))

abbrev pub next_window : RateRow → RateRow → Bool
next_window old new =
    ltb old.window_ends new.window_started
    && ltb new.window_started new.window_ends
    && ((new.accepted == 1 && new.rejected == 0) || (new.accepted == 0 && new.rejected == 1))
    && new.lifetime_accepted == old.lifetime_accepted + new.accepted
    && new.lifetime_rejected == old.lifetime_rejected + new.rejected

-- The trigger `connection_rate_windows_guard_update`.
unfoldable pub rate_guard_update : RateRow → RateRow → Bool
rate_guard_update old new =
    leb old.window_started new.window_started
    && leb new.window_started new.window_ends
    && leb old.lifetime_accepted new.lifetime_accepted
    && leb old.lifetime_rejected new.lifetime_rejected
    && leb old.last_observed new.last_observed
    && leb new.last_observed new.retention_expires
    && (same_window old new || next_window old new)

-- INSERT_RATE_SQL and UPDATE_RATE_SQL with its `last_observed_at_unix_ms = ?`, on the subject's row.
unfoldable pub write_rate : Option RateRow → Option ℕ → RateRow → Result GovernanceError RateRow
write_rate none none new = if rate_check new then ok new else err storage
write_rate (some old) none new = err storage
write_rate none (some last) new = err binding
write_rate (some old) (some last) new =
    if not (old.last_observed == last)
    then err binding
    else (if rate_guard_update old new && rate_check new then ok new else err storage)

abbrev pub counted : RateState → Bool → ℕ → ℕ → RateRow
counted state admitted now expires = record {
  window_started = state.window_started;
  window_ends = state.window_ends;
  accepted = state.accepted + from_bool admitted;
  rejected = state.rejected + from_bool (not admitted);
  lifetime_accepted = state.lifetime_accepted + from_bool admitted;
  lifetime_rejected = state.lifetime_rejected + from_bool (not admitted);
  last_observed = now;
  retention_expires = expires;
}

abbrev pub counts_fit : RateRow → Bool
counts_fit r =
    leb r.accepted i64_max
    && leb r.rejected i64_max
    && leb r.lifetime_accepted i64_max
    && leb r.lifetime_rejected i64_max

-- `persist_rate_state`.
unfoldable pub persist_rate_state :
    RatePolicy → RateState → ℕ → Bool → Option RateRow → Result GovernanceError RateRow
persist_rate_state policy state now admitted row =
    if not (counts_fit (counted state admitted now 0))
    then err binding
    else (checked_time_add now policy.retention_ms >>= λ expires.
        write_rate row state.existing_last (counted state admitted now expires))

-- One of the subjects of an attempt, with the count of its tracked peers and its row.
pub record Subject : Type 0 where
  pub scope : SubjectScope
  pub count : ℕ
  pub row : Option RateRow

unfoldable pub load_all : RatePolicy → ℕ → List Subject → Result GovernanceError (List RateState)
load_all policy now [] = ok []
load_all policy now (s ∷ ss) = load_rate_state policy s.scope s.count s.row now >>= λ state.
    load_all policy now ss >>= λ states. ok (state ∷ states)

unfoldable pub persist_all :
    RatePolicy → ℕ → Bool → List Subject → List RateState → Result GovernanceError (List RateRow)
persist_all policy now admitted [] [] = ok []
persist_all policy now admitted (s ∷ ss) (state ∷ states) =
    persist_rate_state policy state now admitted s.row >>= λ row.
    persist_all policy now admitted ss states >>= λ rows. ok (row ∷ rows)
persist_all policy now admitted _ _ = err binding

-- The part of `govern_rate_attempt` on the rate rows: every subject is read, the attempt is admitted if
-- all can accept it, and every subject is written with that answer. The subjects differ.
unfoldable pub govern_subjects :
    RatePolicy → ℕ → List Subject → Result GovernanceError (Bool × List RateRow)
unfolding load_all persist_all all
govern_subjects policy now subjects = load_all policy now subjects >>= λ states.
    persist_all policy now (all (λ s. can_accept s policy) states) subjects states >>= λ rows.
    ok (all (λ s. can_accept s policy) states, rows)
