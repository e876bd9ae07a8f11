-- ===== src/Snapshot/Tests.antt =====
-- An export of the contract after `initialize`, and a month that is recorded twice
-- (sla_calculator/src/state_snapshot.rs, history_snapshot.rs), with the theorems at these inputs.
use noc_iq_contracts.Base.{◌≡◌, refl, none, [], length, map}
use noc_iq_contracts.Storage.{ok}
use noc_iq_contracts.Lifecycle.{is_paused}
use noc_iq_contracts.History.{get_history, get_retention_limit}
use noc_iq_contracts.Config.Severity.{canonical_severities}
use noc_iq_contracts.Config.Soundness.{initialize_default_configs-IsSound}
use noc_iq_contracts.Fixtures.{at_time, ready}
use noc_iq_contracts.AddressMap.{get}
use noc_iq_contracts.Effect
use noc_iq_contracts.Effect.Reach.{here, next}
use noc_iq_contracts.Snapshot.{
  ContractSnapshot, SlaConfigEntry, export_snapshot, validate_snapshot_import,
}
use noc_iq_contracts.Snapshot.Export.{export_snapshot-validates}
use noc_iq_contracts.Snapshot.Monthly.{
  MonthlyStore, MonthlySlaSnapshot, MonthlyOrder, run_order, snapshot_monthly_sla,
  get_monthly_sla_snapshot, already_finalized, invalid_month_index, snapshot_monthly_sla-final,
}

export_snapshot-validates_example :
    (snapshot : ContractSnapshot) × (export_snapshot (at_time 2000) ready ≡ (ok snapshot, ready))
    × (map (λ (e : SlaConfigEntry). e.severity) snapshot.config_snapshot.entries
        ≡ canonical_severities)
    × ((is_paused (at_time 2000) ready).0 ≡ ok snapshot.is_paused)
    × ((get_history (at_time 2000) ready).0 ≡ ok snapshot.history)
    × ((get_retention_limit (at_time 2000) ready).0 ≡ ok snapshot.retention_limit)
    × (snapshot.metadata.history_count ≡ length snapshot.history)
    × (snapshot.metadata.config_count ≡ 4)
    × (validate_snapshot_import snapshot (at_time 2000) ready ≡ (ok tt, ready))
export_snapshot-validates_example =
    export_snapshot-validates (at_time 2000) ready refl refl refl initialize_default_configs-IsSound
      refl

abbrev no_months : MonthlyStore
no_months = record { snapshots = []; snapshot_count = none; events = [] }

abbrev september : MonthlySlaSnapshot
september = record {
  month_index = 202609;
  total_downtime_minutes = 45;
  mttr_minutes = 15;
  final_compliance_status = "met";
  recorded_at = 100;
}

abbrev october : MonthlyOrder
october = record { month_index = 202610; downtime = 500; mttr = 250; status = "viol" }

september_recorded : (snapshot_monthly_sla 202609 45 15 "met" 100 no_months).0 ≡ Effect.ok september
unfolding snapshot_monthly_sla get
september_recorded = refl

no_month_zero :
    (snapshot_monthly_sla 0 45 15 "met" 100 no_months).0 ≡ Effect.err invalid_month_index
unfolding snapshot_monthly_sla
no_month_zero = refl

abbrev two_months : MonthlyStore
two_months = run_order 200 october (snapshot_monthly_sla 202609 45 15 "met" 100 no_months).1

snapshot_monthly_sla-final_example :
    (get_monthly_sla_snapshot 202609 300 two_months ≡ (Effect.ok september, two_months))
    × (snapshot_monthly_sla 202609 500 250 "viol" 300 two_months
        ≡ (Effect.err already_finalized, two_months))
snapshot_monthly_sla-final_example =
    snapshot_monthly_sla-final 202609 45 15 100 300 "met" no_months september october
      september_recorded (next 200 october here)
