-- ===== src/Calc/Amounts.antt =====
-- The amounts of `compute_result` (sla_calculator/src/lib.rs) as exact products, and its tiers by
-- exact fractions.
use native.Mathlib.Nat.{div-lt_iff_lt-mul}
use noc_iq_contracts.Base.{ℕ, ◌-◌, ◌*◌, ◌/◌, ◌≤◌, ◌<◌, ◌≡◌, ◌∙◌, arith, ltb, if◌then◌else◌, ap}
use noc_iq_contracts.Base.Int.{
  ℤ, pos, pos_part, ◌*ℤ◌, ◌≤ℤ◌, i128_max, saturate, saturating_mul, div_euclid,
}
use noc_iq_contracts.Types.{Symbol, SlaConfig, u32_mod}
use noc_iq_contracts.Config.Soundness.{InLimits}
use noc_iq_contracts.Calc.Outcome.{reward_tier, performance_ratio, penalty_of, reward_of}

pos_mul : (a b : ℕ) → a * b ≤ i128_max → saturating_mul (pos a) (pos b) ≡ pos (a * b)
unfolding saturating_mul saturate ◌*ℤ◌
pos_mul a b h = ground arith

pos_of_pos : (z : ℤ) → pos 1 ≤ℤ z → z ≡ pos (pos_part z)
pos_of_pos z h = ground arith

-- What a configuration that passed validation is known to satisfy, whatever its severity.
pub record IsBounded (cfg : SlaConfig) : Type 0 where
  pub limits : InLimits 1440 1 10000 cfg
  pub top_u32 : cfg.top_tier_multiplier < u32_mod
  pub excel_u32 : cfg.excel_tier_multiplier < u32_mod
  pub good_u32 : cfg.good_tier_multiplier < u32_mod

pub pos_part-le : (z : ℤ) (n : ℕ) → pos 1 ≤ℤ z → z ≤ℤ pos n → pos_part z ≤ n
pos_part-le z n h k = ground arith

pub mul_bound : (a b m n : ℕ) → a ≤ m → b ≤ n → a * b ≤ m * n
mul_bound a b m n h k = grind arith

pub penalty_of-exact :
    (mttr : ℕ) (cfg : SlaConfig)
    → IsBounded cfg
    → mttr < u32_mod
    → penalty_of mttr cfg ≡ pos ((mttr - cfg.threshold_minutes) * pos_part cfg.penalty_per_minute)
unfolding penalty_of
penalty_of-exact mttr cfg b h =
    ap (saturating_mul (pos (mttr - cfg.threshold_minutes)))
      (pos_of_pos cfg.penalty_per_minute b.limits.penalty_ge)
    ∙ pos_mul _ _ (
        omega (
          arith,
          mul_bound (mttr - cfg.threshold_minutes) (pos_part cfg.penalty_per_minute) u32_mod 10000
              (omega arith) (pos_part-le _ _ b.limits.penalty_ge b.limits.penalty_le),
        ))

-- The tier by exact fractions of the threshold: below one half, below three quarters, and the rest.
unfoldable pub tier_by_fraction : ℕ → SlaConfig → ℕ × Symbol
tier_by_fraction mttr cfg =
    if ltb (2 * mttr) cfg.threshold_minutes
    then (cfg.top_tier_multiplier, "top")
    else if ltb (4 * mttr) (3 * cfg.threshold_minutes)
    then (cfg.excel_tier_multiplier, "excel")
    else (cfg.good_tier_multiplier, "good")

ratio-exact : (mttr t : ℕ) → mttr < u32_mod → performance_ratio mttr t ≡ pos (mttr * 100 / t)
unfolding performance_ratio div_euclid
ratio-exact mttr t h = ap (λ z. div_euclid z t) (pos_mul mttr 100 (omega arith))

-- With a threshold above 0 and a u32 duration, the tier that the rounded percentage selects is the
-- one of the exact fraction: below one half of the threshold, below three quarters, or the rest.
pub reward_tier-eq-tier_by_fraction :
    (mttr : ℕ) (cfg : SlaConfig)
    → 0 < cfg.threshold_minutes
    → mttr < u32_mod
    → reward_tier cfg (performance_ratio mttr cfg.threshold_minutes) ≡ tier_by_fraction mttr cfg
unfolding reward_tier tier_by_fraction
reward_tier-eq-tier_by_fraction mttr cfg t h = rw (ratio-exact mttr cfg.threshold_minutes h) (
    ground (
      arith,
      div-lt_iff_lt-mul {k = cfg.threshold_minutes} {x = mttr * 100} {y = 50} t,
      div-lt_iff_lt-mul {k = cfg.threshold_minutes} {x = mttr * 100} {y = 75} t,
    ))

tier_u32 : (mttr : ℕ) (cfg : SlaConfig) → IsBounded cfg → (tier_by_fraction mttr cfg).0 < u32_mod
unfolding tier_by_fraction
tier_u32 mttr cfg b = ground arith

pub reward_of-exact :
    (mttr : ℕ) (cfg : SlaConfig)
    → IsBounded cfg
    → mttr < u32_mod
    → reward_of mttr cfg ≡ pos (pos_part cfg.reward_base * (tier_by_fraction mttr cfg).0 / 100)
unfolding reward_of div_euclid
reward_of-exact mttr cfg b h =
    rw (reward_tier-eq-tier_by_fraction mttr cfg b.limits.threshold_pos h) (
      ap (λ z. div_euclid (saturating_mul z (pos (tier_by_fraction mttr cfg).0)) 100)
        (pos_of_pos cfg.reward_base b.limits.reward_pos)
      ∙ ap (λ z. div_euclid z 100)
          (pos_mul _ _ (
            omega (
              arith,
              mul_bound (pos_part cfg.reward_base) (tier_by_fraction mttr cfg).0 100000 u32_mod
                  (pos_part-le _ _ b.limits.reward_pos b.limits.reward_le)
                  (omega (arith, tier_u32 mttr cfg b)),
            ))))
