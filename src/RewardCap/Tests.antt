-- ===== src/RewardCap/Tests.antt =====
-- Rewards under a cap of 100 (sla_calculator/src/reward_cap.rs).
use noc_iq_contracts.Base.{◌≡◌, refl, some, List, [], ◌∷◌}
use noc_iq_contracts.Base.Int.{ℤ, pos, negsuc, ◌+ℤ◌, saturate, neg_ℤ, wrap_i128}
use noc_iq_contracts.RewardCap.{
  CapStore, check_reward_cap, record_reward, set_reward_cap, get_remaining_reward_budget,
}
use noc_iq_contracts.RewardCap.Budget.{capped, pay_reward, pay_rewards}

abbrev cap_100 : CapStore
cap_100 = record { admin = some 1; cap = some (capped 100 20); events = [] }

abbrev amounts : List ℤ
amounts = pos 50 ∷ pos 40 ∷ negsuc 9 ∷ pos 30 ∷ []

all_paid : (pay_rewards amounts cap_100).cap ≡ some (capped 100 100)
unfolding pay_rewards pay_reward check_reward_cap record_reward saturate ◌+ℤ◌
all_paid = refl

-- A cap that is set below what is already distributed leaves a negative budget.
negative_budget :
    get_remaining_reward_budget (set_reward_cap 1 (pos 15) 0 cap_100).1 ≡ some (negsuc 4)
unfolding get_remaining_reward_budget set_reward_cap ◌+ℤ◌ neg_ℤ wrap_i128
negative_budget = refl
