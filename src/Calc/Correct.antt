-- ===== src/Calc/Correct.antt =====
-- `compute_result` (sla_calculator/src/lib.rs) and its specification in exact arithmetic.
use noc_iq_contracts.Base.{
  ℕ, zero, suc, ◌-◌, ◌*◌, ◌/◌, ◌<◌, ◌≡◌, List, false, arith, ltb, if◌then◌else◌, refl,
}
use noc_iq_contracts.Base.Int.{ℤ, pos, pos_part, leb_ℤ, wrapping_neg, neg_ℤ}
use noc_iq_contracts.Types.{Symbol, SlaConfig, SlaResult, u32_mod}
use noc_iq_contracts.Storage.{ok}
use noc_iq_contracts.Calc.Outcome.{compute_result}
use noc_iq_contracts.Calc.Amounts.{
  IsBounded, penalty_of-exact, reward_of-exact, tier_by_fraction, reward_tier-eq-tier_by_fraction,
}

-- What an outage of `mttr` minutes is worth, in exact arithmetic: nothing at zero minutes, the
-- penalty for each minute over the threshold, or the base reward times the tier's percentage.
unfoldable pub exact_amount : ℕ → SlaConfig → ℤ
unfolding tier_by_fraction
exact_amount zero cfg = pos 0
exact_amount (suc m) cfg =
    if ltb cfg.threshold_minutes (suc m)
    then neg_ℤ (pos ((suc m - cfg.threshold_minutes) * pos_part cfg.penalty_per_minute))
    else pos (pos_part cfg.reward_base * (tier_by_fraction (suc m) cfg).0 / 100)

unfoldable pub exact_rating : ℕ → SlaConfig → Symbol
exact_rating zero cfg = "top"
exact_rating (suc m) cfg =
    if ltb cfg.threshold_minutes (suc m) then "poor" else (tier_by_fraction (suc m) cfg).1

unfoldable pub exact_result : Symbol → ℕ → SlaConfig → List ℕ → ℕ → SlaResult
unfolding exact_amount exact_rating
exact_result outage_id mttr cfg hash recorded_at =
    let violated = ltb cfg.threshold_minutes mttr in
    record {
      outage_id = outage_id;
      status = (if violated then "viol" else "met");
      mttr_minutes = mttr;
      threshold_minutes = cfg.threshold_minutes;
      amount = exact_amount mttr cfg;
      payment_type = (if violated then "pen" else "rew");
      rating = exact_rating mttr cfg;
      config_version_hash = hash;
      recorded_at = recorded_at;
    }

mul_pos : (a b : ℕ) → 0 < a → 0 < b → 0 < a * b
mul_pos a b h k = grind arith

wrapping_neg-pos : (n : ℕ) → wrapping_neg (pos n) ≡ neg_ℤ (pos n)
unfolding wrapping_neg
wrapping_neg-pos n = refl

pub neg_ℤ-pos_negative : (n : ℕ) → 0 < n → leb_ℤ (pos 0) (neg_ℤ (pos n)) ≡ false
unfolding neg_ℤ
neg_ℤ-pos_negative n h = ground arith

penalty-pos :
    (mttr : ℕ) (cfg : SlaConfig)
    → IsBounded cfg
    → cfg.threshold_minutes < mttr
    → 0 < (mttr - cfg.threshold_minutes) * pos_part cfg.penalty_per_minute
penalty-pos mttr cfg b h = mul_pos _ _ (omega arith) (omega (arith, b.limits.penalty_ge))

-- Under a configuration within its bounds, and for any u32 duration, the computation neither fails,
-- panics nor saturates: it returns the result of the exact specification.
pub compute_result-exact :
    (outage_id : Symbol) (mttr : ℕ) (cfg : SlaConfig) (hash : List ℕ) (now : ℕ)
    → IsBounded cfg
    → mttr < u32_mod
    → compute_result outage_id mttr cfg hash now ≡ ok (exact_result outage_id mttr cfg hash now)
unfolding compute_result exact_result
compute_result-exact outage_id zero cfg hash now b h = ground arith
compute_result-exact outage_id (suc m) cfg hash now b h = ground (
  arith,
  penalty_of-exact (suc m) cfg b h,
  penalty-pos (suc m) cfg b,
  wrapping_neg-pos ((suc m - cfg.threshold_minutes) * pos_part cfg.penalty_per_minute),
  neg_ℤ-pos_negative ((suc m - cfg.threshold_minutes) * pos_part cfg.penalty_per_minute),
  reward_of-exact (suc m) cfg b h,
  reward_tier-eq-tier_by_fraction (suc m) cfg b.limits.threshold_pos h,
)
