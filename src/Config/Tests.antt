-- ===== src/Config/Tests.antt =====
-- Configuration updates on the default map.
use noc_iq_contracts.Base.{◌≡◌, ◌↔◌, refl, [], ◌∷◌}
use noc_iq_contracts.Types.{SlaConfig, ConfigMap, lookup, insert}
use noc_iq_contracts.Storage.{Storage, ok, commit}
use noc_iq_contracts.Fixtures.{at_time, critical_config, ready}
use noc_iq_contracts.Config.Severity.{is_canonical_severity, canonical_severity_index}
use noc_iq_contracts.Config.Defaults.{initialize_default_configs}
use noc_iq_contracts.Config.Validate.{validate_tier, compare_with, compare_all, validate_config}
use noc_iq_contracts.Config.Update.{set_config, import_config_map}
use noc_iq_contracts.Config.Soundness.{IsSound, initialize_default_configs-IsSound}
use noc_iq_contracts.Config.Monotone.{Passes}
use noc_iq_contracts.Config.Accept.{validate_config-iff-IsSound}
use noc_iq_contracts.Config.Transitions.{HasSound, set_config-HasSound}

-- A threshold of 20 minutes for "critical".
abbrev slower : SlaConfig
slower = record critical_config { threshold_minutes = 20 }

slower-Passes : Passes "critical" slower initialize_default_configs (at_time 5) ready
unfolding validate_config validate_tier compare_all compare_with canonical_severity_index
    initialize_default_configs lookup
slower-Passes = refl

validate_config-iff-IsSound_example :
    Passes "critical" slower initialize_default_configs (at_time 5) ready
    ↔ IsSound (insert "critical" slower initialize_default_configs)
unfolding is_canonical_severity canonical_severity_index
validate_config-iff-IsSound_example =
    validate_config-iff-IsSound "critical" slower initialize_default_configs (at_time 5) ready
      initialize_default_configs-IsSound refl

abbrev updated : Storage
updated = (set_config 1 "critical" slower (at_time 5) ready).1

updates : set_config 1 "critical" slower (at_time 5) ready ≡ (ok tt, updated)
unfolding set_config validate_config validate_tier compare_all compare_with canonical_severity_index
    initialize_default_configs lookup
updates = refl

set_config-HasSound_example :
    HasSound (commit ready (set_config 1 "critical" slower (at_time 5) ready)).config
set_config-HasSound_example =
    set_config-HasSound 1 "critical" slower (at_time 5) ready initialize_default_configs-IsSound

-- A map of one entry, which an import accepts.
abbrev partial_map : ConfigMap
partial_map = ("critical", critical_config) ∷ []

abbrev imported : Storage
imported = (import_config_map 1 partial_map (at_time 5) ready).1

imports : import_config_map 1 partial_map (at_time 5) ready ≡ (ok tt, imported)
unfolding import_config_map is_canonical_severity canonical_severity_index
imports = refl
