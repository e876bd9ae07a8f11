-- ===== src/Fixtures.antt =====
-- Concrete ledgers, configurations and storages for the tests of every component.
use noc_iq_contracts.Base.{ℕ, some, [], false}
use noc_iq_contracts.Base.Int.{pos}
use noc_iq_contracts.Types.{SlaConfig, SlaResult, Env}
use noc_iq_contracts.Storage.{Storage, empty_storage}
use noc_iq_contracts.Config.Defaults.{initialize_default_configs}
use noc_iq_contracts.Lifecycle.{zero_stats}

abbrev pub at_time : ℕ → Env
at_time now = record { timestamp = now; config_digest = λ f. []; symbol_payload = λ s. 0 }

-- The default configuration of the severity "critical".
abbrev pub critical_config : SlaConfig
critical_config = record {
  threshold_minutes = 15;
  penalty_per_minute = pos 100;
  reward_base = pos 750;
  top_tier_multiplier = 200;
  excel_tier_multiplier = 150;
  good_tier_multiplier = 100;
}

-- After `initialize` at time 1000 with admin 1 and operator 2.
abbrev pub ready : Storage
ready = record empty_storage {
  admin = some 1;
  operator = some 2;
  config = some initialize_default_configs;
  paused = some false;
  stats = some zero_stats;
  history = some [];
  init_time = some 1000;
  version = some 1;
}

-- The result of 10 minutes under "critical", at the given time.
abbrev pub met_result : ℕ → SlaResult
met_result now = record {
  outage_id = "o1";
  status = "met";
  mttr_minutes = 10;
  threshold_minutes = 15;
  amount = pos 1125;
  payment_type = "rew";
  rating = "excel";
  config_version_hash = [];
  recorded_at = now;
}
