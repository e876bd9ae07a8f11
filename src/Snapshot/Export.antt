-- ===== src/Snapshot/Export.antt =====
-- What an export holds (sla_calculator/src/state_snapshot.rs).
use noc_iq_contracts.Base.{ℕ, ◌≡◌, refl, false, some, [], length, map, arith, unwrap_or}
use noc_iq_contracts.Types.{Address, ConfigMap, Env}
use noc_iq_contracts.Storage.{Storage, ok}
use noc_iq_contracts.Guards.{storage_version, check_version}
use noc_iq_contracts.Lifecycle.{zero_stats, is_paused}
use noc_iq_contracts.History.{get_history, get_retention_limit}
use noc_iq_contracts.Config.Severity.{canonical_severities}
use noc_iq_contracts.Config.Soundness.{IsSound}
use noc_iq_contracts.Calc.Submit.{max_history_size}
use noc_iq_contracts.Snapshot.{
  ContractSnapshot, SlaConfigEntry, collect_entries, export_snapshot, validate_snapshot_import,
  metadata_of, result_schema_version,
}

-- What the export returns where the admin, the operator and the configuration map are stored.
abbrev exported : ℕ → Storage → Address → Address → ConfigMap → ContractSnapshot
exported now s admin operator configs =
    let entries = collect_entries configs canonical_severities in
    let history = unwrap_or s.history [] in
    record {
      metadata = metadata_of now (length history) (length entries);
      admin = admin;
      operator = operator;
      is_paused = unwrap_or s.paused false;
      pause_info = s.pause_info;
      config_snapshot = record { version = "v1"; entries = entries };
      stats = unwrap_or s.stats zero_stats;
      history = history;
      storage_version = unwrap_or s.version 0;
      result_schema_version = result_schema_version;
      retention_limit = unwrap_or s.retention_limit max_history_size;
    }

export_snapshot-exported :
    (env : Env) (s : Storage) {admin operator : Address} {configs : ConfigMap}
    → s.admin ≡ some admin
    → s.operator ≡ some operator
    → s.config ≡ some configs
    → export_snapshot env s ≡ (ok (exported env.timestamp s admin operator configs), s)
unfolding export_snapshot
export_snapshot-exported env s has_admin has_operator has_config = ground arith

-- Over a sound map the entries are the four severities, from critical to low.
collect_entries-severities :
    (configs : ConfigMap)
    → IsSound configs
    → map (λ (e : SlaConfigEntry). e.severity) (collect_entries configs canonical_severities)
      ≡ canonical_severities
unfolding collect_entries
collect_entries-severities configs h = ground arith

collect_entries-length :
    (configs : ConfigMap)
    → IsSound configs
    → length (collect_entries configs canonical_severities) ≡ 4
unfolding collect_entries
collect_entries-length configs h = ground arith

-- From a storage with an admin, an operator, a sound configuration map and the current version, the
-- export succeeds and leaves the storage as it was: it lists the four severities from critical to
-- low, its pause state, history and retention limit are what the contract's queries return, its
-- metadata counts the history and the four severities, and it passes the validation for an import
-- into the same storage.
pub export_snapshot-validates :
    (env : Env) (s : Storage) {admin operator : Address} {configs : ConfigMap}
    → s.admin ≡ some admin
    → s.operator ≡ some operator
    → s.config ≡ some configs
    → IsSound configs
    → s.version ≡ some storage_version
    → (snapshot : ContractSnapshot) × (export_snapshot env s ≡ (ok snapshot, s))
      × (map (λ (e : SlaConfigEntry). e.severity) snapshot.config_snapshot.entries
          ≡ canonical_severities)
      × ((is_paused env s).0 ≡ ok snapshot.is_paused)
      × ((get_history env s).0 ≡ ok snapshot.history)
      × ((get_retention_limit env s).0 ≡ ok snapshot.retention_limit)
      × (snapshot.metadata.history_count ≡ length snapshot.history)
      × (snapshot.metadata.config_count ≡ 4)
      × (validate_snapshot_import snapshot env s ≡ (ok tt, s))
unfolding validate_snapshot_import is_paused get_history get_retention_limit check_version
export_snapshot-validates env s {admin} {operator} {configs} has_admin has_operator has_config sound
      current =
    let severities = collect_entries-severities configs sound in
    let four = collect_entries-length configs sound in
    (
      exported env.timestamp s admin operator configs,
      export_snapshot-exported env s has_admin has_operator has_config,
      severities,
      ground arith,
      ground arith,
      ground arith,
      refl,
      four,
      ground (arith, four),
    )
