-- ===== src/Config/Defaults.antt =====
-- The default configurations of the four severities (sla_calculator/src/lib.rs).
use noc_iq_contracts.Base.{ℕ, []}
use noc_iq_contracts.Base.Int.{pos}
use noc_iq_contracts.Types.{SlaConfig, ConfigMap, insert}

-- The multipliers are the same in all four.
abbrev default_config : ℕ → ℕ → ℕ → SlaConfig
default_config threshold penalty reward = record {
  threshold_minutes = threshold;
  penalty_per_minute = pos penalty;
  reward_base = pos reward;
  top_tier_multiplier = 200;
  excel_tier_multiplier = 150;
  good_tier_multiplier = 100;
}

unfoldable pub initialize_default_configs : ConfigMap
unfolding insert
initialize_default_configs = insert "low" (default_config 120 5 100) (
    insert "medium" (default_config 60 20 250)
      (insert "high" (default_config 30 50 500) (insert "critical" (default_config 15 100 750) [])))
