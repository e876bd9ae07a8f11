-- ===== src/RewardCap/Budget.antt =====
-- What rewards leave of the budget (sla_calculator/src/reward_cap.rs).
use noc_iq_contracts.Base.{
  ℕ, ◌+◌, ◌-◌, ◌≤◌, ◌≡◌, true, some, List, [], ◌∷◌, ltb, if◌then◌else◌, Bool-cases, inl, inr, arith,
}
use noc_iq_contracts.Base.Int.{ℤ, pos, negsuc, i128_max, saturate, ◌+ℤ◌, wrap_i128-sub}
use noc_iq_contracts.Types.{SlaError}
use noc_iq_contracts.Effect.{Effect, ◌>>◌, kept}
use noc_iq_contracts.RewardCap.{
  RewardCap, CapStore, check_reward_cap, record_reward, get_remaining_reward_budget,
}

-- A reward is checked against the cap and, if it passes, recorded.
unfoldable pub pay_reward : ℤ → Effect CapStore SlaError (Unit {0})
pay_reward amount = check_reward_cap amount >> record_reward amount

unfoldable pub pay_rewards : List ℤ → CapStore → CapStore
pay_rewards [] s = s
pay_rewards (amount ∷ rest) s = pay_rewards rest (kept s (pay_reward amount 0 s))

-- A cap in force, of which some is distributed.
abbrev pub capped : ℕ → ℕ → RewardCap
capped max total = record {
  max_total_rewards = some (pos max);
  total_rewards_distributed = pos total;
  active = true;
}

-- The total after one more reward.
added : ℕ → ℕ → ℕ
added a b = if ltb i128_max (a + b) then i128_max else a + b

saturate-added : (a b : ℕ) → saturate (pos a +ℤ pos b) ≡ pos (added a b)
unfolding saturate ◌+ℤ◌ added
saturate-added a b = ground arith

added-ge : (a b : ℕ) → a ≤ i128_max → a ≤ added a b
unfolding added
added-ge a b h = ground arith

added-zero : (a : ℕ) → a ≤ i128_max → added a 0 ≡ a
unfolding added
added-zero a h = ground arith

pay_reward-capped :
    (max total : ℕ) (amount : ℤ) (s : CapStore)
    → s.cap ≡ some (capped max total)
    → total ≤ max
    → max ≤ i128_max
    → (rest : ℕ) × (rest ≤ max)
      × (total ≤ rest)
      × ((kept s (pay_reward amount 0 s)).cap ≡ some (capped max rest))
unfolding pay_reward check_reward_cap record_reward
pay_reward-capped max total (negsuc n) s e le fits = (total, le, omega arith, ground arith)
pay_reward-capped max total (pos n) s e le fits = elim (Bool-cases (ltb max (added total n))) [
  | inl over ↦ (total, le, omega arith, ground (arith, saturate-added total n))
  | inr within ↦ (
    added total n,
    ground arith,
    added-ge total n (omega arith),
    ground (arith, saturate-added total n, added-zero total),
  )
]

pay_rewards-capped :
    (max total : ℕ) (amounts : List ℤ) (s : CapStore)
    → s.cap ≡ some (capped max total)
    → total ≤ max
    → max ≤ i128_max
    → (rest : ℕ) × (rest ≤ max)
      × (total ≤ rest)
      × ((pay_rewards amounts s).cap ≡ some (capped max rest))
unfolding pay_rewards
pay_rewards-capped max total [] s e le fits = (total, le, omega arith, e)
pay_rewards-capped max total (amount ∷ amounts) s e le fits =
    let (one, below, grown, stored) = pay_reward-capped max total amount s e le fits in
    let (rest, last_below, last_grown, last) =
      pay_rewards-capped max one amounts (kept s (pay_reward amount 0 s)) stored below fits in
    (rest, last_below, omega arith, last)

-- Under a cap in force whose total does not exceed it, whatever rewards are checked and recorded
-- one after another, the total never shrinks and never exceeds the cap, and the remaining budget
-- that is reported is the cap less the total.
pay_rewards_within :
    (max total : ℕ) (amounts : List ℤ) (s : CapStore)
    → s.cap ≡ some (capped max total)
    → total ≤ max
    → max ≤ i128_max
    → (rest : ℕ) × (rest ≤ max)
      × (total ≤ rest)
      × ((pay_rewards amounts s).cap ≡ some (capped max rest))
      × (get_remaining_reward_budget (pay_rewards amounts s) ≡ some (pos (max - rest)))
unfolding get_remaining_reward_budget
pay_rewards_within max total amounts s e le fits =
    let (rest, below, grown, stored) = pay_rewards-capped max total amounts s e le fits in
    (rest, below, grown, stored, rw (stored, wrap_i128-sub max rest fits below))
