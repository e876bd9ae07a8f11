-- ===== src/Contract/Preserve/Config.antt =====
-- The invariant under the configuration entry points (sla_calculator/src/lib.rs).
use noc_iq_contracts.Base.{inl, inr, arith, Option-cases}
use noc_iq_contracts.Types.{Address, Symbol, SlaConfig, ConfigMap, Env}
use noc_iq_contracts.Storage.{Storage, commit}
use noc_iq_contracts.Calc.Submit.{max_duration}
use noc_iq_contracts.Config.Update.{set_config, import_config_map, reset_config_to_defaults}
use noc_iq_contracts.Config.Frame.{validate_config-same}
use noc_iq_contracts.Contract.Invariant.{Inv}

module _ (e : Env) (s : Storage) (v : Inv s) where
  pub import_config_map-Inv :
      (c : Address) (m : ConfigMap) → Inv (commit s (import_config_map c m e s))
  unfolding import_config_map max_duration
  import_config_map-Inv c m = ground (arith, v)

  pub reset_config_to_defaults-Inv : (c : Address) → Inv (commit s (reset_config_to_defaults c e s))
  unfolding reset_config_to_defaults max_duration
  reset_config_to_defaults-Inv c = ground (arith, v)

  pub set_config-Inv :
      (c : Address) (k : Symbol) (new : SlaConfig) → Inv (commit s (set_config c k new e s))
  unfolding set_config max_duration
  set_config-Inv c k new = elim (Option-cases s.config) [
    | inl p ↦ ground (arith, v)
    | inr (m, p) ↦ ground (
      arith,
      v,
      validate_config-same k new.threshold_minutes new.penalty_per_minute new.reward_base m e s,
    )
  ]
