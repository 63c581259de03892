-- ===== src/Delivery/Statements.antt =====
-- The statements and reads that the transactions of src/state_delivery.rs share. A transaction works on
-- the rows of one job: every statement names it by `job_id = ?`. An error leaves the rows as they were.
use myc.Common.{
  ℕ, Bool, ◌&&◌, Option, none, some, Result, ok, err, ◌>>=◌, ◌==◌, bytes_eq, find, on_first,
  if◌then◌else◌, valid_time,
}
use myc.Delivery.Types.{Digest, RelayId, OperationError, binding, storage, Attempt, Target, Job}
use myc.Delivery.Rows.{
  parse_attempt, attempts_check, attempts_guard_update, targets_check, targets_guard_update,
  jobs_check, jobs_guard_update,
}

-- `UPDATE … SET set WHERE key = ? AND matches` under the table's trigger and CHECKs (`legal`), with
-- `require_one` of the affected rows: the row with that key must match.
unfoldable pub update_one {ℓ} :
    {A : Type ℓ} → (A → Bool) → (A → A → Bool) → (A → A) → A → Result OperationError A
update_one matches legal set row =
    if matches row && legal row (set row) then ok (set row) else err storage

-- The same statement where no affected row is fine too.
unfoldable pub update_any {ℓ} :
    {A : Type ℓ} → (A → Bool) → (A → A → Bool) → (A → A) → A → Result OperationError A
update_any matches legal set row =
    if matches row then (if legal row (set row) then ok (set row) else err storage) else ok row

abbrev pub attempt_legal : Attempt → Attempt → Bool
attempt_legal old new = attempts_guard_update old new && attempts_check new

abbrev pub target_legal : Target → Target → Bool
target_legal old new = targets_guard_update old new && targets_check new

abbrev pub job_legal : Job → Job → Bool
job_legal old new = jobs_guard_update old new && jobs_check new

abbrev pub read_optional : Option Attempt → Result OperationError (Option Attempt)
read_optional none = ok none
read_optional (some a) = parse_attempt a >>= λ b. ok (some b)

unfoldable pub read_attempt : Target → Digest → Result OperationError (Option Attempt)
read_attempt t attempt_id = read_optional (find (λ a. a.id == attempt_id) t.attempts)

unfoldable pub read_attempt_by_nonce : Target → Digest → Result OperationError (Option Attempt)
read_attempt_by_nonce t nonce = read_optional (find (λ a. a.nonce == nonce) t.attempts)

abbrev pub has_relay : RelayId → Target → Bool
has_relay relay_id t = bytes_eq t.relay_id relay_id

-- `target_by_relay`, and the statements on that target.
unfoldable pub on_target {ℓ} :
    {B : Type ℓ}
    → RelayId
    → (Target → Result OperationError (B × Target))
    → Job
    → Result OperationError (B × Job)
on_target relay_id step job = on_first (has_relay relay_id) binding step job.targets >>= λ r.
    ok (r.0, record job { targets = r.1 })

abbrev pub fit_time : ℕ → Result OperationError ℕ
fit_time value = if valid_time value then ok value else err binding
