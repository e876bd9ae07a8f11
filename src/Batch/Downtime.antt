-- ===== src/Batch/Downtime.antt =====
-- `get_batch_downtime` (sla_calculator/src/batch.rs): downtime and compliance by site.
pub mod Scan
use noc_iq_contracts.Base.{
  ℕ, ◌+◌, ◌-◌, ◌&&◌, Bool, true, false, Option, none, some, List, [], ◌∷◌, length, map, unwrap_or,
  str_eq, ltb, if◌then◌else◌,
}
use noc_iq_contracts.Types.{Symbol, SlaResult, lookup, insert, u64_mod, threshold_out_of_bounds}
use noc_iq_contracts.Storage.{Action, ◌>>=◌, ◌>>◌, pure, gets, reject_if}
use noc_iq_contracts.Guards.{check_version}
use noc_iq_contracts.Calc.Submit.{stored_history}
use noc_iq_contracts.Batch.{batch_limit}

pub record BatchDowntimeResult : Type 0 where
  pub site_id : Symbol
  pub total_downtime : ℕ
  pub compliance_status : Symbol

-- The two maps of the loop over the history.
pub record Sites : Type 0 where
  pub downtime_by_site : List (Symbol × ℕ)
  pub compliant_by_site : List (Symbol × Bool)

-- `saturating_add` on u64.
abbrev pub add_u64 : ℕ → ℕ → ℕ
add_u64 a b = if ltb (a + b) u64_mod then a + b else u64_mod - 1

unfoldable pub add_entry : SlaResult → Sites → Sites
unfolding lookup insert
add_entry r s = record {
  downtime_by_site =
      insert r.outage_id
        (add_u64 (unwrap_or (lookup r.outage_id s.downtime_by_site) 0) r.mttr_minutes)
        s.downtime_by_site;
  compliant_by_site =
      insert r.outage_id
        (unwrap_or (lookup r.outage_id s.compliant_by_site) true && str_eq r.status "met")
        s.compliant_by_site;
}

unfoldable pub aggregate : List SlaResult → Sites → Sites
unfolding add_entry
aggregate [] s = s
aggregate (r ∷ rs) s = aggregate rs (add_entry r s)

abbrev pub compliance_symbol : Option Bool → Symbol
compliance_symbol none = "unknown"
compliance_symbol (some true) = "compliant"
compliance_symbol (some false) = "noncomp"

unfoldable pub site_result : Sites → Symbol → BatchDowntimeResult
unfolding lookup
site_result s site = record {
  site_id = site;
  total_downtime = unwrap_or (lookup site s.downtime_by_site) 0;
  compliance_status = compliance_symbol (lookup site s.compliant_by_site);
}

unfoldable pub get_batch_downtime : List Symbol → Action (List BatchDowntimeResult)
unfolding check_version aggregate site_result
get_batch_downtime site_ids = do
  check_version
  reject_if (ltb batch_limit (length site_ids)) threshold_out_of_bounds
  history ← gets stored_history
  pure (
      map
        (site_result (aggregate history (record { downtime_by_site = []; compliant_by_site = [] })))
        site_ids)
