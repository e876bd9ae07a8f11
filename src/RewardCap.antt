-- ===== src/RewardCap.antt =====
-- The cap on all rewards together (sla_calculator/src/reward_cap.rs).
pub mod Budget
pub mod Tests
use noc_iq_contracts.Base.{
  ℕ, ◌||◌, ◌==◌, not, Bool, true, false, Option, none, some, List, [], ◌∷◌, ◌++◌, if◌then◌else◌,
  unwrap_or,
}
use noc_iq_contracts.Base.Int.{ℤ, pos, ◌+ℤ◌, neg_ℤ, ltb_ℤ, leb_ℤ, saturating_add, wrap_i128}
use noc_iq_contracts.Types.{
  Address, SlaError, not_initialized, unauthorized, invalid_reward, invalid_reward_amount,
}
use noc_iq_contracts.Effect.{
  Effect, ◌>>=◌, ◌>>◌, return_ok, reads, writes, found_or, refuse_if, kept,
}

pub record RewardCap : Type 0 where
  pub max_total_rewards : Option ℤ
  pub total_rewards_distributed : ℤ
  pub active : Bool

pub data CapEvent : Type 0 where
  cap_set : Address → ℤ → CapEvent
  cap_cleared : Address → CapEvent

pub record CapStore : Type 0 where
  pub admin : Option Address
  pub cap : Option RewardCap
  pub events : List CapEvent

abbrev pub CapCall : Type 0 → Type 0
CapCall A = Effect CapStore SlaError A

abbrev pub no_cap : Bool → RewardCap
no_cap active = record {
  max_total_rewards = none;
  total_rewards_distributed = pos 0;
  active = active;
}

unfoldable pub init_reward_cap : CapCall (Unit {0})
init_reward_cap = writes (λ s. record s { cap = some (no_cap false) })

abbrev pub announce : CapEvent → CapCall (Unit {0})
announce ev = writes (λ s. record s { events = s.events ++ (ev ∷ []) })

abbrev pub require_admin : Address → CapCall (Unit {0})
require_admin caller = do
  admin ← found_or (← reads (λ s. s.admin)) not_initialized
  refuse_if (not (caller == admin)) unauthorized

unfoldable pub set_reward_cap : Address → ℤ → CapCall (Unit {0})
set_reward_cap caller max = do
  require_admin caller
  refuse_if (leb_ℤ max (pos 0)) invalid_reward
  writes (λ s. record s {
    cap =
        some
          (record (unwrap_or s.cap (no_cap true)) { max_total_rewards = some max; active = true });
  })
  announce (cap_set caller max)

unfoldable pub clear_reward_cap : Address → CapCall (Unit {0})
clear_reward_cap caller = do
  require_admin caller
  writes (λ s. record s {
    cap =
        some (record (unwrap_or s.cap (no_cap false)) { max_total_rewards = none; active = false });
  })
  announce (cap_cleared caller)

-- The cap in force, with what it has let through.
abbrev pub limit_of : Option RewardCap → Option (ℤ × ℤ)
limit_of none = none
limit_of (some c) = if not c.active then none else elim c.max_total_rewards [
  | none ↦ none
  | some max ↦ some (max, c.total_rewards_distributed)
]

abbrev pub check_limit : ℤ → Option (ℤ × ℤ) → CapCall (Unit {0})
check_limit amount none = return_ok tt
check_limit amount (some (max, total)) =
    refuse_if (ltb_ℤ max (saturating_add total amount)) invalid_reward_amount

unfoldable pub check_reward_cap : ℤ → CapCall (Unit {0})
unfolding saturating_add
check_reward_cap amount = do limit ← reads (λ s. limit_of s.cap); check_limit amount limit

abbrev pub add_reward : ℤ → RewardCap → RewardCap
add_reward amount c = record c {
  total_rewards_distributed = saturating_add c.total_rewards_distributed amount;
}

unfoldable pub record_reward : ℤ → CapCall (Unit {0})
unfolding saturating_add
record_reward amount =
    if leb_ℤ amount (pos 0)
    then return_ok tt
    else writes (λ s. record s { cap = some (add_reward amount (unwrap_or s.cap (no_cap false))) })

unfoldable pub get_reward_cap : CapStore → Option RewardCap
get_reward_cap s = s.cap

abbrev pub rest_of : Option (ℤ × ℤ) → Option ℤ
rest_of none = none
rest_of (some (max, total)) = some (wrap_i128 (max +ℤ neg_ℤ total))

unfoldable pub get_remaining_reward_budget : CapStore → Option ℤ
get_remaining_reward_budget s = rest_of (limit_of s.cap)

abbrev pub configured_of : Option RewardCap → Option ℤ
configured_of none = none
configured_of (some c) = if not c.active then none else c.max_total_rewards

unfoldable pub configured_reward_cap : CapStore → Option ℤ
configured_reward_cap s = configured_of s.cap
