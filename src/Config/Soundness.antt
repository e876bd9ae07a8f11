-- ===== src/Config/Soundness.antt =====
-- A configuration map is sound when all four severities are present, each within its own limits,
-- and the thresholds rise and the penalties fall strictly from critical to low.
use noc_iq_contracts.Base.{ℕ, ◌+◌, ◌≤◌, ◌<◌, ◌≡◌, refl, some, arith}
use noc_iq_contracts.Base.Int.{ℤ, pos, pos_part, neg_part, ◌≤ℤ◌}
use noc_iq_contracts.Types.{SlaConfig, ConfigMap, lookup}
use noc_iq_contracts.Config.Defaults.{initialize_default_configs}

infix 50 ◌<ℤ◌
abbrev pub ◌<ℤ◌ : ℤ → ℤ → Type 0
a <ℤ b = pos_part a + neg_part b < pos_part b + neg_part a

-- The limits of a severity: the longest threshold, the least and the greatest penalty.
pub record InLimits (longest least greatest : ℕ) (c : SlaConfig) : Type 0 where
  pub threshold_pos : 0 < c.threshold_minutes
  pub threshold_le : c.threshold_minutes ≤ longest
  pub penalty_ge : pos least ≤ℤ c.penalty_per_minute
  pub penalty_le : c.penalty_per_minute ≤ℤ pos greatest
  pub reward_pos : pos 1 ≤ℤ c.reward_base
  pub reward_le : c.reward_base ≤ℤ pos 100000

-- `a` belongs to a higher severity than `b`.
pub record Above (a b : SlaConfig) : Type 0 where
  pub quicker : a.threshold_minutes < b.threshold_minutes
  pub dearer : b.penalty_per_minute <ℤ a.penalty_per_minute

-- What each severity's own limits are.
pub record AllInLimits (c h m l : SlaConfig) : Type 0 where
  pub critical_ok : InLimits 60 50 10000 c
  pub high_ok : InLimits 120 25 10000 h
  pub medium_ok : InLimits 240 10 10000 m
  pub low_ok : InLimits 1440 1 100 l

pub record IsSound (configs : ConfigMap) : Type 0 where
  pub critical : SlaConfig
  pub high : SlaConfig
  pub medium : SlaConfig
  pub low : SlaConfig
  pub has_critical : lookup "critical" configs ≡ some critical
  pub has_high : lookup "high" configs ≡ some high
  pub has_medium : lookup "medium" configs ≡ some medium
  pub has_low : lookup "low" configs ≡ some low
  pub limits : AllInLimits critical high medium low
  pub critical_high : Above critical high
  pub high_medium : Above high medium
  pub medium_low : Above medium low

abbrev standard : ℕ → ℕ → ℕ → SlaConfig
standard threshold penalty reward = record {
  threshold_minutes = threshold;
  penalty_per_minute = pos penalty;
  reward_base = pos reward;
  top_tier_multiplier = 200;
  excel_tier_multiplier = 150;
  good_tier_multiplier = 100;
}

pub initialize_default_configs-IsSound : IsSound initialize_default_configs
unfolding initialize_default_configs lookup
initialize_default_configs-IsSound = record {
  critical = standard 15 100 750;
  high = standard 30 50 500;
  medium = standard 60 20 250;
  low = standard 120 5 100;
  has_critical = refl;
  has_high = refl;
  has_medium = refl;
  has_low = refl;
  limits = omega arith;
  critical_high = omega arith;
  high_medium = omega arith;
  medium_low = omega arith;
}
