-- ===== src/Batch/Tests.antt =====
-- A batch of two requests on the initialised storage.
use noc_iq_contracts.Base.{◌≡◌, refl, some, [], ◌∷◌, List}
use noc_iq_contracts.Base.Int.{
  pos, negsuc, ◌*ℤ◌, ◌+ℤ◌, saturate, saturating_mul, saturating_add, div_euclid, wrapping_neg,
  neg_ℤ,
}
use noc_iq_contracts.Types.{lookup}
use noc_iq_contracts.Storage.{Storage, ok}
use noc_iq_contracts.Fixtures.{at_time, ready}
use noc_iq_contracts.Config.Defaults.{initialize_default_configs}
use noc_iq_contracts.Batch.{
  BatchRequest, BatchResult, BatchSummary, Tally, batch_calculate, run_batch, validate_batch,
  process_all, process_single, process_with, batch_violation,
}
use noc_iq_contracts.Guards.{require_operator, require_not_paused}
use noc_iq_contracts.Calc.Outcome.{reward, reward_of, penalty_of}
use noc_iq_contracts.Base.{true, none, map, ◌+◌, arith}
use noc_iq_contracts.Batch.Downtime.{get_batch_downtime}
use noc_iq_contracts.Batch.Downtime.Scan.{scan, get_batch_downtime-eq-scan}
use noc_iq_contracts.Batch.Complete.{run_batch-Accounted}
use noc_iq_contracts.Config.Soundness.{initialize_default_configs-IsSound}
use noc_iq_contracts.Fixtures.{met_result}

abbrev requests : List BatchRequest
requests =
    record { outage_id = "o1"; severity = "critical"; mttr_minutes = 10 }
    ∷ record { outage_id = "o2"; severity = "low"; mttr_minutes = 130 }
    ∷ []

requests_valid : validate_batch requests (at_time 2000) ready ≡ (ok 2, ready)
unfolding validate_batch
requests_valid = refl

run_batch-Accounted_example :
    (t : Tally) × (run_batch requests (at_time 2000) ready ≡ (ok t, ready))
    × (map (λ r. r.outage_id) t.results ≡ "o1" ∷ "o2" ∷ [])
    × (t.succeeded + t.failed ≡ 2)
    × (t.met_count + t.violation_count ≡ t.succeeded)
run_batch-Accounted_example =
    run_batch-Accounted requests initialize_default_configs (at_time 2000) ready refl
      initialize_default_configs-IsSound (omega arith)

abbrev calculated : Storage
calculated = (batch_calculate 2 requests (at_time 2000) ready).1

abbrev outcome_of_batch : BatchSummary × List BatchResult
outcome_of_batch = (
  record {
    total = 2;
    succeeded = 2;
    failed = 0;
    total_rewards = pos 1125;
    total_penalties = negsuc 49;
  },
  record { outage_id = "o1"; success = true; result = met_result 2000 ∷ []; error = none }
      ∷ record {
        outage_id = "o2";
        success = true;
        result =
            record {
              outage_id = "o2";
              status = "viol";
              mttr_minutes = 130;
              threshold_minutes = 120;
              amount = negsuc 49;
              payment_type = "pen";
              rating = "poor";
              config_version_hash = [];
              recorded_at = 2000;
            }
            ∷ [];
        error = none;
      }
      ∷ [],
)

calculates : batch_calculate 2 requests (at_time 2000) ready ≡ (ok outcome_of_batch, calculated)
unfolding batch_calculate validate_batch require_operator require_not_paused run_batch
    initialize_default_configs process_all process_single process_with batch_violation reward
    reward_of penalty_of div_euclid saturating_mul saturating_add saturate ◌*ℤ◌ ◌+ℤ◌ wrapping_neg
    neg_ℤ lookup
calculates = refl

-- One entry of "o1", asked for along with a site that has none.
get_batch_downtime-eq-scan_example :
    get_batch_downtime
      ("o1" ∷ "o9" ∷ [])
      (at_time 9000)
      (record ready { history = some (met_result 2000 ∷ []) })
    ≡ (
      ok (scan "o1" (met_result 2000 ∷ []) ∷ scan "o9" [] ∷ []),
      record ready { history = some (met_result 2000 ∷ []) },
    )
get_batch_downtime-eq-scan_example =
    get_batch_downtime-eq-scan ("o1" ∷ "o9" ∷ []) (at_time 9000)
      (record ready { history = some (met_result 2000 ∷ []) }) refl (omega arith)
