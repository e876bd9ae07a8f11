-- ===== src/Config/Update.antt =====
-- The entry points that read and write the configuration map (sla_calculator/src/lib.rs).
use noc_iq_contracts.Base.{
  ℕ, ◌+◌, ◌*◌, ◌%◌, Bool, true, false, Option, some, none, not, unwrap_or, [], ◌∷◌, any, length,
  if◌then◌else◌,
}
use noc_iq_contracts.Types.{
  Address, Symbol, SlaConfig, ConfigMap, lookup, insert, eqb_config, u32_mod, invalid_severity,
  config_not_found, not_initialized,
}
use noc_iq_contracts.Storage.{
  config_updated, Action, ◌>>=◌, ◌>>◌, pure, gets, modify, ok_or, publish, reject_if,
}
use noc_iq_contracts.Guards.{check_version, require_admin}
use noc_iq_contracts.Config.Severity.{is_canonical_severity}
use noc_iq_contracts.Config.Validate.{validate_config}
use noc_iq_contracts.Config.Defaults.{initialize_default_configs}

-- `configs.get(severity)` is the new configuration already.
abbrev pub is_unchanged : Option SlaConfig → SlaConfig → Bool
is_unchanged none new = false
is_unchanged (some existing) new = eqb_config existing new

-- The write, the counter and the event of a `set_config` that changes something.
unfoldable pub store_config : Symbol → SlaConfig → ConfigMap → Action (Unit {0})
unfolding insert
store_config severity new configs = do
  modify (λ s. record s { config = some (insert severity new configs) })
  updates ← gets (λ s. unwrap_or s.config_update_count 0)
  modify (λ s. record s { config_update_count = some ((updates + 1) % u32_mod) })
  publish (config_updated severity new.threshold_minutes new.penalty_per_minute new.reward_base)

unfoldable pub set_config : Address → Symbol → SlaConfig → Action (Unit {0})
unfolding check_version require_admin lookup eqb_config store_config
set_config caller severity new = do
  check_version
  require_admin caller
  configs ← ok_or (← gets (λ s. s.config)) not_initialized
  validate_config severity new.threshold_minutes new.penalty_per_minute new.reward_base configs
  if is_unchanged (lookup severity configs) new then pure tt else store_config severity new configs

unfoldable pub get_config_update_count : Action ℕ
unfolding check_version
get_config_update_count = do check_version; gets (λ s. unwrap_or s.config_update_count 0)

unfoldable pub threshold_to_seconds : ℕ → ℕ
threshold_to_seconds threshold_minutes = threshold_minutes * 60

-- `export_config_map` and `list_configs`
unfoldable pub export_config_map : Action ConfigMap
unfolding check_version
export_config_map = do check_version; ok_or (← gets (λ s. s.config)) not_initialized

abbrev pub is_empty : ConfigMap → Bool
is_empty [] = true
is_empty (x ∷ xs) = false

unfoldable pub import_config_map : Address → ConfigMap → Action (Unit {0})
unfolding check_version require_admin is_canonical_severity
import_config_map caller configs = do
  check_version
  require_admin caller
  reject_if (is_empty configs) config_not_found
  reject_if (any (λ entry. not (is_canonical_severity entry.0)) configs) invalid_severity
  modify (λ s. record s { config = some configs })

unfoldable pub load_config : Symbol → Action SlaConfig
unfolding is_canonical_severity lookup
load_config severity = do
  reject_if (not (is_canonical_severity severity)) config_not_found
  configs ← ok_or (← gets (λ s. s.config)) not_initialized
  ok_or (lookup severity configs) config_not_found

unfoldable pub get_config : Symbol → Action SlaConfig
unfolding check_version load_config
get_config severity = do check_version; load_config severity

unfoldable pub reset_config_to_defaults : Address → Action (Unit {0})
unfolding check_version require_admin initialize_default_configs
reset_config_to_defaults caller = do
  check_version
  require_admin caller
  modify (λ s. record s { config = some initialize_default_configs })

unfoldable pub get_config_count : Action ℕ
unfolding check_version
get_config_count = do
  check_version
  configs ← ok_or (← gets (λ s. s.config)) not_initialized
  pure (length configs)
