-- ===== src/Delivery/Ready.antt =====
-- `next_ready_delivery_target` of src/state_delivery.rs: which target the worker takes next.
pub mod Claims
pub mod Leases
pub mod Terms
pub mod First
use myc.Common.{
  ℕ, Bool, true, not, ◌&&◌, ◌||◌, Option, none, some, List, [], ◌∷◌, Result, ok, err, ◌++◌, ltb,
  leb, ◌==◌, is_none, if◌then◌else◌,
}
use myc.Delivery.Types.{
  Digest, RelayId, OperationError, binding, Target, Job, is_terminal, target_is_claimable,
}
use myc.Delivery.Rows.{valid_relay_id}
use myc.Delivery.Create.{Outbox}

abbrev pub is_due : Option ℕ → ℕ → Bool
is_due none observed_at = true
is_due (some next) observed_at = leb next observed_at

-- The WHERE of READ_NEXT_READY_TARGET_SQL.
unfoldable pub target_ready : Job → ℕ → Target → Bool
target_ready job observed_at t =
    not (is_terminal job.status)
    && target_is_claimable t.status
    && ltb t.attempt_count job.max_attempts
    && is_none t.active_attempt_id
    && is_due t.next_attempt_at observed_at

unfoldable pub ready_targets : Job → ℕ → List Target → List (Job × Target)
ready_targets job observed_at [] = []
ready_targets job observed_at (t ∷ ts) =
    let rest = ready_targets job observed_at ts in
    if target_ready job observed_at t then (job, t) ∷ rest else rest

-- The join of the two tables, filtered.
unfoldable pub ready_rows : ℕ → List Job → List (Job × Target)
unfolding ready_targets
ready_rows observed_at [] = []
ready_rows observed_at (j ∷ js) = ready_targets j observed_at j.targets ++ ready_rows observed_at js

-- The ORDER BY: the creation time of the job, its id, the index of the target.
unfoldable pub row_before : Job × Target → Job × Target → Bool
row_before (j, t) (k, u) =
    ltb j.created_at k.created_at
    || (j.created_at == k.created_at && (ltb j.id k.id || (j.id == k.id && ltb t.index u.index)))

-- The earlier of a row and the first of the others.
unfoldable pub earlier : Job × Target → Option (Job × Target) → Option (Job × Target)
earlier r none = some r
earlier r (some s) = if row_before s r then some s else some r

-- LIMIT 1.
unfoldable pub first_row : List (Job × Target) → Option (Job × Target)
unfolding earlier
first_row [] = none
first_row (r ∷ rs) = earlier r (first_row rs)

unfoldable pub next_ready_row : ℕ → Outbox → Option (Job × Target)
unfolding ready_rows first_row row_before
next_ready_row observed_at box = first_row (ready_rows observed_at box.jobs)

abbrev pub row_key : Option (Job × Target) → Option (Digest × RelayId)
row_key none = none
row_key (some (j, t)) = some (j.id, t.relay_id)

-- The relay's id is tested again when the row is read.
abbrev pub row_read : Option (Digest × RelayId) → Result OperationError (Option (Digest × RelayId))
row_read none = ok none
row_read (some (id, relay_id)) =
    if valid_relay_id relay_id then ok (some (id, relay_id)) else err binding

unfoldable pub next_ready_delivery_target :
    ℕ → Outbox → Result OperationError (Option (Digest × RelayId))
unfolding next_ready_row
next_ready_delivery_target observed_at box = row_read (row_key (next_ready_row observed_at box))
