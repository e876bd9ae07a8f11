-- ===== src/Calc/View.antt =====
-- The read-only calculations: `calculate_sla_view` and `simulate_sla` (sla_calculator/src/lib.rs).
use noc_iq_contracts.Base.{ℕ, ◌%◌, true, false, some, ltb, ◌==◌, if◌then◌else◌}
use noc_iq_contracts.Base.Int.{pos, pos_part, saturating_mul, div_euclid}
use noc_iq_contracts.Types.{
  Symbol, SlaConfig, SlaResult, SlaStats, OutageInput, SlaSimulationResult, u32_mod,
  not_initialized,
}
use noc_iq_contracts.Storage.{Action, ◌>>=◌, ◌>>◌, pure, abort, gets, asks, ok_or, lift}
use noc_iq_contracts.Guards.{check_version}
use noc_iq_contracts.Config.Update.{load_config}
use noc_iq_contracts.Calc.Outcome.{compute_result, penalty_of}
use noc_iq_contracts.Calc.Submit.{config_and_hash, validate_symbol_input, max_duration}

-- The duration that counts.
abbrev pub effective : ℕ → ℕ → ℕ
effective limit mttr = if ltb limit mttr then limit else mttr

unfoldable pub calculate_sla_view : Symbol → Symbol → ℕ → Action SlaResult
unfolding check_version validate_symbol_input
calculate_sla_view outage_id severity mttr_minutes = do
  check_version
  validate_symbol_input outage_id true
  validate_symbol_input severity false
  found ← config_and_hash severity
  limit ← gets max_duration
  now ← asks (λ e. e.timestamp)
  lift (compute_result outage_id (effective limit mttr_minutes) found.0 found.1 now)

-- `(mttr as i128 * 10000).div_euclid(threshold) as u32`
unfoldable pub uptime_bps_of : ℕ → ℕ → ℕ
uptime_bps_of mttr threshold =
    pos_part (div_euclid (saturating_mul (pos mttr) (pos 10000)) threshold) % u32_mod

unfoldable pub compute_sla : SlaConfig → OutageInput → Action SlaSimulationResult
unfolding max_duration uptime_bps_of
compute_sla cfg outage = do
  limit ← gets max_duration
  let mttr = effective limit outage.mttr_minutes
  let is_breach = ltb cfg.threshold_minutes mttr
  if cfg.threshold_minutes == 0
      then abort
      else pure (record {
        is_breach = is_breach;
        penalty_amount = (if is_breach then penalty_of mttr cfg else pos 0);
        uptime_bps = uptime_bps_of mttr cfg.threshold_minutes;
        applied_tier = some outage.severity;
      })

unfoldable pub simulate_sla : OutageInput → Action SlaSimulationResult
unfolding check_version validate_symbol_input load_config compute_sla
simulate_sla outage = do
  check_version
  validate_symbol_input outage.outage_id true
  validate_symbol_input outage.severity false
  cfg ← load_config outage.severity
  compute_sla cfg outage

unfoldable pub get_stats : Action SlaStats
unfolding check_version
get_stats = do check_version; ok_or (← gets (λ s. s.stats)) not_initialized
