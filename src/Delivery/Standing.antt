-- ===== src/Delivery/Standing.antt =====
-- How the calls change the standing of a job towards its policy: what is delivered and what is still
-- possible.
use myc.Common.{
  ◌≡◌, true, ok, arith, count_if_mono, Pointwise, on_first-Pointwise, count_if-Pointwise,
  count_if-Pointwise_converse, Result, sym, ◌∙◌,
}
use myc.Delivery.Types.{RelayId, OperationError, binding, Target, Job}
use myc.Delivery.Statements.{on_target, has_relay}
use myc.Delivery.Finalize.{is_delivered, is_possible, is_delivered_required, is_possible_required}
use myc.Delivery.Progress.{Advances, Keeps, Advances-refl, Keeps-refl}

-- The columns that no call writes.
pub record SamePolicy (j j' : Job) : Type 0 where
  pub same_id : j'.id ≡ j.id
  pub same_source : j'.source ≡ j.source
  pub same_artifact : j'.artifact_digest ≡ j.artifact_digest
  pub same_mode : j'.policy_mode ≡ j.policy_mode
  pub same_needed : j'.required_acknowledgements ≡ j.required_acknowledgements
  pub same_attempts : j'.max_attempts ≡ j.max_attempts
  pub same_created : j'.created_at ≡ j.created_at

pub record JobAdvances (j j' : Job) : Type 0 where
  pub policy : SamePolicy j j'
  pub targets_advance : Pointwise (Advances j.max_attempts) j.targets j'.targets

pub record JobKeeps (j j' : Job) : Type 0 where
  pub policy : SamePolicy j j'
  pub targets_keep : Pointwise (Keeps j.max_attempts) j.targets j'.targets

pub is_delivered-JobAdvances :
    (j j' : Job) → JobAdvances j j' → is_delivered j ≡ true → is_delivered j' ≡ true
unfolding is_delivered
is_delivered-JobAdvances j j' v h = ground (
  arith,
  count_if-Pointwise (Advances j.max_attempts) is_delivered_required is_delivered_required j.targets
      j'.targets (λ x y r. r.delivered_stays) v.targets_advance,
)

pub is_possible-JobAdvances :
    (j j' : Job) → JobAdvances j j' → is_possible j' ≡ true → is_possible j ≡ true
unfolding is_possible
is_possible-JobAdvances j j' v h = ground (
  arith,
  count_if-Pointwise_converse (Advances j.max_attempts) (is_possible_required j.max_attempts)
      (is_possible_required j.max_attempts) j.targets j'.targets (λ x y r. r.possible_shrinks)
      v.targets_advance,
)

pub is_delivered-JobKeeps : (j j' : Job) → JobKeeps j j' → is_delivered j' ≡ is_delivered j
unfolding is_delivered
is_delivered-JobKeeps j j' v = ground (
  arith,
  count_if-Pointwise (Keeps j.max_attempts) is_delivered_required is_delivered_required j.targets
      j'.targets (λ x y r h. r.delivered_same ∙ h) v.targets_keep,
  count_if-Pointwise_converse (Keeps j.max_attempts) is_delivered_required is_delivered_required
      j.targets j'.targets (λ x y r h. sym r.delivered_same ∙ h) v.targets_keep,
)

pub is_possible-JobKeeps : (j j' : Job) → JobKeeps j j' → is_possible j' ≡ is_possible j
unfolding is_possible
is_possible-JobKeeps j j' v = ground (
  arith,
  count_if-Pointwise (Keeps j.max_attempts) (is_possible_required j.max_attempts)
      (is_possible_required j.max_attempts) j.targets j'.targets (λ x y r h. r.possible_same ∙ h)
      v.targets_keep,
  count_if-Pointwise_converse (Keeps j.max_attempts) (is_possible_required j.max_attempts)
      (is_possible_required j.max_attempts) j.targets j'.targets
      (λ x y r h. sym r.possible_same ∙ h) v.targets_keep,
)

module _ {B : Type 0} (relay_id : RelayId) (step : Target → Result OperationError (B × Target))
    (j : Job) (b : B) (j' : Job) (h : on_target relay_id step j ≡ ok (b, j')) where
  on_target-frame : j' ≡ record j { targets = j'.targets }
  unfolding on_target
  on_target-frame = ground arith

  on_target-Pointwise :
      (R : Target → Target → Type 0)
      → ((t : Target) → R t t)
      → ((t t' : Target) → step t ≡ ok (b, t') → R t t')
      → Pointwise R j.targets j'.targets
  unfolding on_target
  on_target-Pointwise R r keep =
      ground (
        arith,
        on_first-Pointwise R (has_relay relay_id) binding step j.targets b j'.targets r keep,
      )

  pub on_target-JobAdvances :
      ((t t' : Target) → step t ≡ ok (b, t') → Advances j.max_attempts t t') → JobAdvances j j'
  on_target-JobAdvances keep = ground (
    arith,
    on_target-frame,
    on_target-Pointwise (Advances j.max_attempts) (Advances-refl j.max_attempts) keep,
  )

  pub on_target-JobKeeps :
      ((t t' : Target) → step t ≡ ok (b, t') → Keeps j.max_attempts t t') → JobKeeps j j'
  on_target-JobKeeps keep = ground (
    arith,
    on_target-frame,
    on_target-Pointwise (Keeps j.max_attempts) (Keeps-refl j.max_attempts) keep,
  )

  pub on_target-status : (j'.status ≡ j.status) × (j'.finalized_at ≡ j.finalized_at)
  on_target-status = ground (arith, on_target-frame)

-- What is delivered is possible.
pub is_possible-is_delivered : (j : Job) → is_delivered j ≡ true → is_possible j ≡ true
unfolding is_delivered is_possible
is_possible-is_delivered j h = ground (
  arith,
  count_if_mono is_delivered_required (is_possible_required j.max_attempts) j.targets
      (λ t d. ground arith),
)
