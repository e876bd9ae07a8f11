-- ===== src/Snapshot.antt =====
-- The export of the contract's state (sla_calculator/src/state_snapshot.rs).
pub mod Export
pub mod Monthly
pub mod Tests
use noc_iq_contracts.Base.{
  ℕ, ◌==◌, not, Bool, true, false, Option, none, some, List, [], ◌∷◌, length, ltb, is_some,
  if◌then◌else◌, unwrap_or,
}
use noc_iq_contracts.Types.{
  Address, Symbol, SlaConfig, SlaResult, SlaStats, PauseInfo, not_initialized, version_mismatch,
  config_not_found, lookup, Env, ConfigMap,
}
use noc_iq_contracts.Storage.{Storage, Action, ok, ◌>>=◌, ◌>>◌, ok_or, gets, reject_if, pure}
use noc_iq_contracts.Guards.{storage_version}
use noc_iq_contracts.Lifecycle.{zero_stats}
use noc_iq_contracts.Config.Severity.{canonical_severities}
use noc_iq_contracts.Calc.Submit.{max_history_size}

pub record SlaConfigEntry : Type 0 where
  pub severity : Symbol
  pub config : SlaConfig

pub record SlaConfigSnapshot : Type 0 where
  pub version : Symbol
  pub entries : List SlaConfigEntry

pub record SnapshotMetadata : Type 0 where
  pub version : ℕ
  pub created_at : ℕ
  pub contract_name : Symbol
  pub history_count : ℕ
  pub config_count : ℕ

pub record ContractSnapshot : Type 0 where
  pub metadata : SnapshotMetadata
  pub admin : Address
  pub operator : Address
  pub is_paused : Bool
  pub pause_info : Option PauseInfo
  pub config_snapshot : SlaConfigSnapshot
  pub stats : SlaStats
  pub history : List SlaResult
  pub storage_version : ℕ
  pub result_schema_version : ℕ
  pub retention_limit : ℕ

abbrev pub result_schema_version : ℕ
result_schema_version = 1

-- The entries of the severities that are configured, in the order of the loop.
unfoldable pub collect_entries : ConfigMap → List Symbol → List SlaConfigEntry
collect_entries configs [] = []
collect_entries configs (severity ∷ rest) =
    let others = collect_entries configs rest in
    elim (lookup severity configs) [
      | none ↦ others
      | some config ↦ record { severity = severity; config = config } ∷ others
    ]

abbrev pub metadata_of : ℕ → ℕ → ℕ → SnapshotMetadata
metadata_of now histories configs = record {
  version = 1;
  created_at = now;
  contract_name = "sla_calc";
  history_count = histories;
  config_count = configs;
}

abbrev pub timestamp : Action ℕ
timestamp env s = (ok env.timestamp, s)

unfoldable pub export_snapshot : Action ContractSnapshot
export_snapshot = do
  admin ← ok_or (← gets (λ s. s.admin)) not_initialized
  operator ← ok_or (← gets (λ s. s.operator)) not_initialized
  is_paused ← gets (λ s. unwrap_or s.paused false)
  pause_info ← gets (λ s. s.pause_info)
  configs ← ok_or (← gets (λ s. s.config)) not_initialized
  let entries = collect_entries configs canonical_severities
  stats ← gets (λ s. unwrap_or s.stats zero_stats)
  history ← gets (λ s. unwrap_or s.history [])
  stored_version ← gets (λ s. unwrap_or s.version 0)
  retention_limit ← gets (λ s. unwrap_or s.retention_limit max_history_size)
  now ← timestamp
  pure (record {
    metadata = metadata_of now (length history) (length entries);
    admin = admin;
    operator = operator;
    is_paused = is_paused;
    pause_info = pause_info;
    config_snapshot = record { version = "v1"; entries = entries };
    stats = stats;
    history = history;
    storage_version = stored_version;
    result_schema_version = result_schema_version;
    retention_limit = retention_limit;
  })

unfoldable pub get_snapshot_metadata : Action SnapshotMetadata
get_snapshot_metadata = do
  history ← gets (λ s. unwrap_or s.history [])
  configs ← ok_or (← gets (λ s. s.config)) not_initialized
  now ← timestamp
  pure (metadata_of now (length history) (length configs))

unfoldable pub validate_snapshot_import : ContractSnapshot → Action (Unit {0})
validate_snapshot_import snapshot = do
  reject_if (not (snapshot.metadata.version == 1)) version_mismatch
  reject_if (ltb storage_version snapshot.storage_version) version_mismatch
  reject_if (length snapshot.config_snapshot.entries == 0) config_not_found
  admin ← gets (λ s. s.admin)
  reject_if (not (is_some admin)) not_initialized

-- A value of the summary map.
pub data StateValue : Type 0 where
  from_bool : Bool → StateValue
  from_u64 from_u32 : ℕ → StateValue

unfoldable pub get_state_summary : Action (List (Symbol × StateValue))
get_state_summary = do
  is_paused ← gets (λ s. unwrap_or s.paused false)
  stats ← gets (λ s. unwrap_or s.stats zero_stats)
  history ← gets (λ s. unwrap_or s.history [])
  stored_version ← gets (λ s. unwrap_or s.version 0)
  pure (
      ("paused", from_bool is_paused)
      ∷ ("calc_cnt", from_u64 stats.total_calculations)
      ∷ ("viol_cnt", from_u64 stats.total_violations)
      ∷ ("hist_len", from_u32 (length history))
      ∷ ("stor_ver", from_u32 stored_version)
      ∷ [])
