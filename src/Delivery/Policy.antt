-- ===== src/Delivery/Policy.antt =====
-- `MycDeliveryPolicies` of src/state_delivery.rs: the configured relays and the retry bounds.
pub mod Accepted
use myc.Common.{
  ℕ, Bool, true, false, not, ◌&&◌, ◌||◌, Option, List, [], ◌∷◌, Result, ok, err, ltb, leb, ◌==◌,
  in_range, bytes_eq, length, count_if, if◌then◌else◌, unwrap_or, sort_by, has_equal_neighbours,
}
use myc.Delivery.Types.{
  RelayId, StateError, invalid_policy, PolicyMode, at_least_one_required, all_required,
  required_quorum, target_max_count, attempt_max_count,
}

pub record TargetPolicy : Type 0 where
  pub relay_id : RelayId
  pub required : Bool

pub record Policies : Type 0 where
  pub mode : PolicyMode
  pub required_acknowledgements : ℕ
  pub max_attempts : ℕ
  pub initial_backoff_ms : ℕ
  pub maximum_backoff_ms : ℕ
  pub attempt_deadline_ms : ℕ
  pub outbox_maximum : ℕ
  pub targets : List TargetPolicy

-- The order of byte strings.
unfoldable pub bytes_lt : List ℕ → List ℕ → Bool
bytes_lt [] [] = false
bytes_lt [] (b ∷ bs) = true
bytes_lt (a ∷ xs) [] = false
bytes_lt (a ∷ xs) (b ∷ ys) = ltb a b || (a == b && bytes_lt xs ys)

abbrev pub target_lt : TargetPolicy → TargetPolicy → Bool
target_lt x y = bytes_lt x.relay_id y.relay_id

abbrev pub target_eq : TargetPolicy → TargetPolicy → Bool
target_eq x y = bytes_eq x.relay_id y.relay_id

-- `sort_by` on the relay ids.
unfoldable pub sort_targets : List TargetPolicy → List TargetPolicy
sort_targets targets = sort_by target_lt targets

abbrev pub required_count : List TargetPolicy → ℕ
required_count = count_if (λ t. t.required)

abbrev pub needed : PolicyMode → Option ℕ → List TargetPolicy → ℕ
needed at_least_one_required quorum targets = 1
needed all_required quorum targets = required_count targets
needed required_quorum quorum targets = unwrap_or quorum 0

-- The `valid` of `MycDeliveryPolicies::new`.
unfoldable pub policy_valid : Policies → Bool
policy_valid p =
    not (length p.targets == 0)
    && leb (length p.targets) target_max_count
    && not (has_equal_neighbours target_eq p.targets)
    && not (p.required_acknowledgements == 0)
    && leb p.required_acknowledgements (length p.targets)
    && leb p.required_acknowledgements (required_count p.targets)
    && in_range 1 attempt_max_count p.max_attempts
    && not (p.initial_backoff_ms == 0)
    && leb p.initial_backoff_ms p.maximum_backoff_ms
    && leb p.maximum_backoff_ms 300_000
    && not (p.attempt_deadline_ms == 0)
    && leb p.attempt_deadline_ms 30_000
    && in_range 1 65_536 p.outbox_maximum

-- `MycDeliveryPolicies::new`.
unfoldable pub policies_new :
    PolicyMode → Option ℕ → ℕ → ℕ → ℕ → ℕ → ℕ → List TargetPolicy → Result StateError Policies
policies_new mode quorum attempts initial maximum deadline outbox targets =
    let sorted = sort_targets targets in
    let p : Policies = record {
      mode = mode;
      required_acknowledgements = needed mode quorum sorted;
      max_attempts = attempts;
      initial_backoff_ms = initial;
      maximum_backoff_ms = maximum;
      attempt_deadline_ms = deadline;
      outbox_maximum = outbox;
      targets = sorted;
    } in
    if policy_valid p then ok p else err invalid_policy
