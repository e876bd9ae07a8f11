-- ===== src/Collateral.antt =====
-- The collateral of providers (sla_calculator/src/collateral_lock.rs). The time is an argument of
-- the source's functions.
pub mod Conserve
pub mod Rescue
pub mod Tests
use noc_iq_contracts.Base.{
  ℕ, ◌+◌, ◌||◌, ◌==◌, not, Bool, true, false, Option, none, some, List, [], ◌∷◌, ◌++◌, ltb,
  if◌then◌else◌,
}
use noc_iq_contracts.Base.Int.{ℤ, pos, ◌+ℤ◌, ◌*ℤ◌, neg_ℤ, ltb_ℤ, eqb_ℤ, wrap_i128, div_trunc}
use noc_iq_contracts.Types.{Address}
use noc_iq_contracts.AddressMap.{get, set}
use noc_iq_contracts.Effect.{
  Effect, ◌>>=◌, ◌>>◌, return_ok, reads, writes, found_or, refuse_if, kept,
}

pub data LockState : Type 0 where
  unlocked locked released : LockState

pub record LockRecord : Type 0 where
  pub provider : Address
  pub amount : ℤ
  pub coverage_bps : ℕ
  pub state : LockState
  pub locked_at : ℕ
  pub released_at : ℕ

pub data LockError : Type 0 where
  zero_amount negative_amount coverage_out_of_range already_locked not_locked : LockError
  already_released zero_penalty negative_penalty penalty_exceeds_coverage : LockError
  payout_exceeds_locked : LockError

pub data LockEvent : Type 0 where
  locked_event payout_event released_event : Address → ℤ → LockEvent
  coverage_event : Address → ℕ → LockEvent

-- The storage; an absent map reads as the empty one.
pub record Vault : Type 0 where
  pub records : List (Address × LockRecord)
  pub events : List LockEvent

abbrev pub LockCall : Type 0 → Type 0
LockCall A = Effect Vault LockError A

abbrev pub bps_denominator : ℕ
bps_denominator = 10000

abbrev pub max_coverage_bps : ℕ
max_coverage_bps = 20000

abbrev pub announce : LockEvent → LockCall (Unit {0})
announce ev = writes (λ s. record s { events = s.events ++ (ev ∷ []) })

abbrev pub store : Address → LockRecord → LockCall (Unit {0})
store provider r = writes (λ s. record s { records = set provider r s.records })

unfoldable pub lock_record : Address → Vault → Option LockRecord
lock_record provider s = get provider s.records

abbrev pub state_of : Option LockRecord → LockState
state_of none = unlocked
state_of (some r) = r.state

unfoldable pub lock_state : Address → Vault → LockState
unfolding lock_record
lock_state provider s = state_of (lock_record provider s)

abbrev pub is_locked : LockState → Bool
is_locked locked = true
is_locked _ = false

abbrev pub is_released : LockState → Bool
is_released released = true
is_released _ = false

abbrev pub locked_amount : Option LockRecord → ℤ
locked_amount none = pos 0
locked_amount (some r) = if is_locked r.state then r.amount else pos 0

unfoldable pub available_collateral : Address → Vault → ℤ
unfolding lock_record
available_collateral provider s = locked_amount (lock_record provider s)

unfoldable pub capacity_of : Option LockRecord → ℤ
capacity_of none = pos 0
capacity_of (some r) =
    if is_locked r.state
    then div_trunc (wrap_i128 (r.amount *ℤ pos r.coverage_bps)) bps_denominator
    else pos 0

unfoldable pub coverage_capacity : Address → Vault → ℤ
unfolding lock_record capacity_of
coverage_capacity provider s = capacity_of (lock_record provider s)

abbrev pub new_lock : Address → ℤ → ℕ → ℕ → LockRecord
new_lock provider amount bps at = record {
  provider = provider;
  amount = amount;
  coverage_bps = bps;
  state = locked;
  locked_at = at;
  released_at = 0;
}

unfoldable pub lock_collateral : Address → ℤ → ℕ → ℕ → LockCall LockRecord
unfolding lock_state
lock_collateral provider amount bps at = do
  refuse_if (ltb_ℤ amount (pos 0)) negative_amount
  refuse_if (eqb_ℤ amount (pos 0)) zero_amount
  refuse_if (bps == 0 || ltb max_coverage_bps bps) coverage_out_of_range
  refuse_if (← reads (λ s. is_locked (lock_state provider s))) already_locked
  store provider (new_lock provider amount bps at)
  announce (locked_event provider amount)
  announce (coverage_event provider bps)
  return_ok (new_lock provider amount bps at)

unfoldable pub verify_coverage : Address → ℤ → LockCall ℤ
unfolding lock_state coverage_capacity
verify_coverage provider penalty = do
  refuse_if (ltb_ℤ penalty (pos 0)) negative_penalty
  refuse_if (eqb_ℤ penalty (pos 0)) zero_penalty
  refuse_if (← reads (λ s. not (is_locked (lock_state provider s)))) not_locked
  refuse_if (← reads (λ s. ltb_ℤ (coverage_capacity provider s) penalty)) penalty_exceeds_coverage
  return_ok penalty

-- The record after a payout that leaves the given rest.
unfoldable pub after_payout : ℤ → ℕ → LockRecord → LockRecord
after_payout rest paid_at r = record r {
  amount = rest;
  state = (if eqb_ℤ rest (pos 0) then released else locked);
  released_at = (if eqb_ℤ rest (pos 0) then paid_at else 0);
}

unfoldable pub payout_from_collateral : Address → ℤ → ℕ → LockCall ℤ
unfolding verify_coverage lock_record after_payout
payout_from_collateral provider penalty paid_at = do
  covered ← verify_coverage provider penalty
  r ← found_or (← reads (lock_record provider)) not_locked
  refuse_if (ltb_ℤ r.amount penalty) payout_exceeds_locked
  let rest = wrap_i128 (r.amount +ℤ neg_ℤ penalty)
  store provider (after_payout rest paid_at r)
  announce (payout_event provider penalty)
  writes (λ s. record s {
    events =
        (if eqb_ℤ rest (pos 0)
          then s.events ++ (released_event provider (pos 0) ∷ [])
          else s.events);
  })
  return_ok penalty

unfoldable pub release_collateral : Address → ℕ → LockCall ℤ
unfolding lock_state lock_record
release_collateral provider at = do
  refuse_if (← reads (λ s. is_released (lock_state provider s))) already_released
  r ← found_or (← reads (lock_record provider)) not_locked
  refuse_if (not (is_locked r.state)) not_locked
  store provider (record r { state = released; released_at = at })
  announce (released_event provider r.amount)
  return_ok r.amount

-- The sum over the records; the order of the host's map does not matter to it.
unfoldable pub sum_locked : List (Address × LockRecord) → ℤ → ℤ
sum_locked [] total = total
sum_locked ((a, r) ∷ m) total =
    sum_locked m (if is_locked r.state then wrap_i128 (total +ℤ r.amount) else total)

unfoldable pub total_locked : Vault → ℤ
unfolding sum_locked
total_locked s = sum_locked s.records (pos 0)

unfoldable pub lock_conserved : ℤ → ℤ → ℤ → Bool
lock_conserved original paid_out residual = eqb_ℤ (wrap_i128 (paid_out +ℤ residual)) original
