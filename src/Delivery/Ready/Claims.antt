-- ===== src/Delivery/Ready/Claims.antt =====
-- The query for ready targets and the claim agree.
use myc.Common.{
  ℕ, ◌+◌, ◌-◌, ◌≤◌, ◌<◌, ◌≡◌, refl, Bool, true, false, ◌||◌, none, some, List, [], ◌∷◌, ok, arith,
  any, find, ◌==◌, i64_max, length, bytes_eq_refl,
}
use myc.Delivery.Types.{
  Digest, Target, Attempt, Job, Claim, TargetStatus, claimed, is_terminal, target_is_claimable,
}
use myc.Delivery.Rows.{
  job_rows_valid, target_row_valid, parse_attempt, attempts_check, targets_check,
  targets_guard_update, valid_relay_id,
}
use myc.Delivery.Statements.{read_attempt, read_attempt_by_nonce}
use myc.Delivery.Claim.{
  claim_on_target, lease_attempt, leased_attempt, insert_attempt, lease_target,
}
use myc.Delivery.Claim.Lease.{leased_target}
use myc.Delivery.Invariant.{Numbered, TargetInv}
use myc.Delivery.Ready.{target_ready}

abbrev pub is_claimed : Claim → Bool
is_claimed (claimed a) = true
is_claimed _ = false

module _ (derive : Digest → ℕ → ℕ → Digest → Digest) (in_use : Digest → Bool) where
  -- On a live job, a claim that succeeds under a nonce that the target has not seen takes the target exactly if the
  -- query of the same instant calls it ready.
  pub claim_on_target-target_ready :
      (j : Job) (nonce claimed_at : ℕ) (t : Target) (c : Claim) (t' : Target)
      → is_terminal j.status ≡ false
      → find (λ a. a.nonce == nonce) t.attempts ≡ none
      → claim_on_target derive in_use j nonce claimed_at t ≡ ok (c, t')
      → is_claimed c ≡ target_ready j claimed_at t
  unfolding claim_on_target read_attempt_by_nonce target_ready lease_attempt
  claim_on_target-target_ready j nonce claimed_at t c t' live fresh h = ground arith

fresh_attempt :
    (id nonce n m : ℕ) (attempts : List Attempt)
    → Numbered n attempts
    → n < m
    → any (λ b. b.id == id || b.nonce == nonce) attempts ≡ false
    → (any (λ b. b.id == id || b.number == m || b.nonce == nonce) attempts ≡ false)
      × (find (λ b. b.nonce == nonce) attempts ≡ none)
unfolding any find
fresh_attempt id nonce n m [] v lt h = (refl, refl)
fresh_attempt id nonce n m (a ∷ older) v lt h =
    ground (arith, fresh_attempt id nonce (n - 1) m older v.2)

valid_relay_id-length :
    (bytes : List ℕ) → valid_relay_id bytes ≡ true → (1 ≤ length bytes) × (length bytes ≤ 64)
unfolding valid_relay_id
valid_relay_id-length [] h = ground arith
valid_relay_id-length (b ∷ bytes) h = ground arith

job_bounds :
    (j : Job) → job_rows_valid j ≡ true → (1 ≤ j.attempt_deadline_ms) × (j.max_attempts ≤ 32)
unfolding job_rows_valid
job_bounds j v = ground arith

target_bounds :
    (t : Target)
    → target_row_valid t ≡ true
    → (1 ≤ t.updated_at) × (1 ≤ length t.relay_id) × (length t.relay_id ≤ 64)
unfolding target_row_valid
target_bounds t v = ground (arith, valid_relay_id-length t.relay_id)

-- The statements of a claim go through.
insert_attempt_ok :
    (in_use : Digest → Bool) (id number nonce at expires : ℕ) (t : Target)
    → 1 ≤ number
    → number ≤ 32
    → 1 ≤ at
    → at < expires
    → expires ≤ i64_max
    → in_use id ≡ false
    → any (λ b. b.id == id || b.number == number || b.nonce == nonce) t.attempts ≡ false
    → insert_attempt in_use (leased_attempt id number nonce at expires) t
      ≡ ok (record t { attempts = leased_attempt id number nonce at expires ∷ t.attempts })
unfolding insert_attempt attempts_check
insert_attempt_ok in_use id number nonce at expires t lo hi pos lt room unused fresh = ground arith

lease_target_ok :
    (id at : ℕ) (t : Target)
    → target_is_claimable t.status ≡ true
    → t.active_attempt_id ≡ none
    → t.index ≤ 31
    → (1 ≤ length t.relay_id) × (length t.relay_id ≤ 64)
    → t.attempt_count + 1 ≤ 32
    → 1 ≤ at
    → at ≤ i64_max
    → t.updated_at ≤ at
    → lease_target (t.attempt_count + 1) t.attempt_count id at t
      ≡ ok (record t {
        attempt_count = t.attempt_count + 1;
        status = TargetStatus.leased;
        active_attempt_id = some id;
        next_attempt_at = none;
        updated_at = at;
      })
unfolding lease_target targets_guard_update targets_check
lease_target_ok id at t claimable idle small relay room pos fits later =
    ground (arith, bytes_eq_refl t.relay_id)

read_leased_ok :
    (id number nonce at expires : ℕ) (t : Target)
    → 1 ≤ number
    → number ≤ 32
    → 1 ≤ at
    → at < expires
    → expires ≤ i64_max
    → let a = leased_attempt id number nonce at expires in
      read_attempt (leased_target a at t) id ≡ ok (some a)
unfolding read_attempt parse_attempt find
read_leased_ok id number nonce at expires t lo hi pos lt room = ground arith

module _ (derive : Digest → ℕ → ℕ → Digest → Digest) (in_use : Digest → Bool) where
  lease_attempt_ok :
      (j : Job) (nonce claimed_at : ℕ) (t : Target)
      → target_is_claimable t.status ≡ true
      → t.active_attempt_id ≡ none
      → t.index ≤ 31
      → (1 ≤ length t.relay_id) × (length t.relay_id ≤ 64)
      → t.attempt_count + 1 ≤ 32
      → 1 ≤ claimed_at
      → t.updated_at ≤ claimed_at
      → 1 ≤ j.attempt_deadline_ms
      → claimed_at + j.attempt_deadline_ms ≤ i64_max
      → in_use (derive j.id t.index (t.attempt_count + 1) nonce) ≡ false
      → any
          (λ b.
            b.id == derive j.id t.index (t.attempt_count + 1) nonce
            || b.number == t.attempt_count + 1
            || b.nonce == nonce)
          t.attempts
        ≡ false
      → let a =
          leased_attempt
            (derive j.id t.index (t.attempt_count + 1) nonce)
            (t.attempt_count + 1)
            nonce
            claimed_at
            (claimed_at + j.attempt_deadline_ms) in
        lease_attempt derive in_use j nonce claimed_at t
        ≡ ok (claimed a, leased_target a claimed_at t)
  unfolding lease_attempt
  lease_attempt_ok j nonce at t claimable idle small relay max pos later dead room unused fresh =
      let number = t.attempt_count + 1 in
      let id = derive j.id t.index number nonce in
      let expires = at + j.attempt_deadline_ms in
      let a = leased_attempt id number nonce at expires in
      let inserted = record t { attempts = a ∷ t.attempts } in
      ground (
        arith,
        insert_attempt_ok in_use id number nonce at expires t,
        lease_target_ok id at inserted,
        read_leased_ok id number nonce at expires t,
      )

  -- A target that the query calls ready is leased by the claim of that instant, if its stored rows are
  -- valid and keep the invariant, the instant is no earlier than the target's last change, the lease
  -- ends at an instant that the database can hold, and the nonce and the new attempt's id are fresh.
  pub ready-claim_on_target :
      (j : Job) (nonce claimed_at : ℕ) (t : Target)
      → target_ready j claimed_at t ≡ true
      → job_rows_valid j ≡ true
      → target_row_valid t ≡ true
      → t.index ≤ 31
      → TargetInv j.max_attempts t
      → t.updated_at ≤ claimed_at
      → claimed_at + j.attempt_deadline_ms ≤ i64_max
      → in_use (derive j.id t.index (t.attempt_count + 1) nonce) ≡ false
      → any
          (λ b. b.id == derive j.id t.index (t.attempt_count + 1) nonce || b.nonce == nonce)
          t.attempts
        ≡ false
      → let a =
          leased_attempt
            (derive j.id t.index (t.attempt_count + 1) nonce)
            (t.attempt_count + 1)
            nonce
            claimed_at
            (claimed_at + j.attempt_deadline_ms) in
        claim_on_target derive in_use j nonce claimed_at t
        ≡ ok (claimed a, leased_target a claimed_at t)
  unfolding claim_on_target read_attempt_by_nonce target_ready
  ready-claim_on_target j nonce claimed_at t ready jv tv small v later room unused fresh =
      let number = t.attempt_count + 1 in
      let id = derive j.id t.index number nonce in
      let (deadline, some_attempts) = job_bounds j jv in
      let (pos, short, long) = target_bounds t tv in
      let (unseen, no_nonce) =
        fresh_attempt id nonce t.attempt_count number t.attempts v.numbered (omega arith) fresh in
      ground (arith, lease_attempt_ok j nonce claimed_at t)
