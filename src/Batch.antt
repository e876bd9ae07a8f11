-- ===== src/Batch.antt =====
-- Batch calculation and downtime aggregation (sla_calculator/src/batch.rs, and the view in
-- sla_calculator/src/lib.rs).
pub mod Downtime
pub mod Frame
pub mod Effect
pub mod Complete
mod Tests
use noc_iq_contracts.Base.{
  ℕ, suc, ◌+◌, ◌-◌, ◌^◌, Bool, true, false, ◌&&◌, Option, none, some, List, [], ◌∷◌, ◌++◌, length,
  unwrap_or, not, str_eq, ltb, ◌==◌, if◌then◌else◌,
}
use noc_iq_contracts.Base.Int.{ℤ, pos, ltb_ℤ, saturating_add, wrapping_neg}
use noc_iq_contracts.Types.{
  Address, Symbol, SlaConfig, SlaResult, ConfigMap, lookup, insert, Env, u32_mod, u64_mod, SlaError,
  invalid_severity, invalid_threshold, not_initialized, config_not_found, duplicate_outage_input,
  threshold_out_of_bounds, unauthorized, contract_paused, invalid_mttr,
}
use noc_iq_contracts.Storage.{
  Event, batch_calculated, Storage, Result, Action, ok, err, panic, ◌>>=◌, ◌>>◌, pure, fail, abort,
  gets, asks, ok_or, reject_if, publish, lift,
}
use noc_iq_contracts.Guards.{check_version, require_operator, require_not_paused}
use noc_iq_contracts.Config.Severity.{canonical_severities}
use noc_iq_contracts.Calc.Outcome.{penalty_of, reward}
use noc_iq_contracts.Calc.Submit.{stored_history}

pub record BatchRequest : Type 0 where
  pub outage_id : Symbol
  pub severity : Symbol
  pub mttr_minutes : ℕ

pub record BatchResult : Type 0 where
  pub outage_id : Symbol
  pub success : Bool
  pub result : List SlaResult
  pub error : Option Symbol

pub record BatchSummary : Type 0 where
  pub total : ℕ
  pub succeeded : ℕ
  pub failed : ℕ
  pub total_rewards : ℤ
  pub total_penalties : ℤ

abbrev pub batch_limit : ℕ
batch_limit = 50

unfoldable pub contains : List Symbol → Symbol → Bool
contains [] k = false
contains (x ∷ xs) k = if str_eq x k then true else contains xs k

-- The violation case of `process_single`, which does not refuse an amount of zero or more.
unfoldable pub batch_violation : Symbol → ℕ → SlaConfig → List ℕ → ℕ → Result SlaResult
batch_violation outage_id mttr cfg hash now = ok (record {
  outage_id = outage_id;
  status = "viol";
  mttr_minutes = mttr;
  threshold_minutes = cfg.threshold_minutes;
  amount = wrapping_neg (penalty_of mttr cfg);
  payment_type = "pen";
  rating = "poor";
  config_version_hash = hash;
  recorded_at = now;
})

unfoldable pub process_with : Env → ConfigMap → BatchRequest → Option SlaConfig → Result SlaResult
unfolding batch_violation reward
process_with e configs req none = err config_not_found
process_with e configs req (some cfg) =
    let hash = e.config_digest (λ k. lookup k configs) in
    if req.mttr_minutes == 0
    then err invalid_mttr
    else if ltb cfg.threshold_minutes req.mttr_minutes
    then batch_violation req.outage_id req.mttr_minutes cfg hash e.timestamp
    else reward req.outage_id req.mttr_minutes cfg hash e.timestamp

unfoldable pub process_single : Env → ConfigMap → BatchRequest → Result SlaResult
unfolding contains process_with
process_single e configs req =
    if not (contains canonical_severities req.severity)
    then err invalid_severity
    else process_with e configs req (lookup req.severity configs)

-- What the loop over a batch carries.
pub record Tally : Type 0 where
  pub results : List BatchResult
  pub succeeded : ℕ
  pub failed : ℕ
  pub met_count : ℕ
  pub violation_count : ℕ
  pub total_rewards : ℤ
  pub total_penalties : ℤ

abbrev pub empty_tally : Tally
empty_tally = record {
  results = [];
  succeeded = 0;
  failed = 0;
  met_count = 0;
  violation_count = 0;
  total_rewards = pos 0;
  total_penalties = pos 0;
}

-- `saturating_add(1)` on u32.
abbrev pub bump : ℕ → ℕ
bump n = if ltb (n + 1) u32_mod then n + 1 else u32_mod - 1

unfoldable pub error_msg : SlaError → Symbol
error_msg config_not_found = "no_config"
error_msg invalid_severity = "bad_sev"
error_msg invalid_threshold = "bad_thres"
error_msg _ = "unknown"

unfoldable pub tally_ok : BatchRequest → SlaResult → Tally → Tally
tally_ok req r t =
    let violated = str_eq r.status "viol" in
    record {
      results =
          t.results
          ++ (record { outage_id = req.outage_id; success = true; result = r ∷ []; error = none }
              ∷ []);
      succeeded = bump t.succeeded;
      failed = t.failed;
      met_count = (if violated then t.met_count else bump t.met_count);
      violation_count = (if violated then bump t.violation_count else t.violation_count);
      total_rewards =
          (if violated then t.total_rewards else saturating_add t.total_rewards r.amount);
      total_penalties =
          (if violated then saturating_add t.total_penalties r.amount else t.total_penalties);
    }

unfoldable pub tally_err : BatchRequest → SlaError → Tally → Tally
unfolding error_msg
tally_err req x t = record t {
  results =
      t.results
      ++ (record {
        outage_id = req.outage_id;
        success = false;
        result = [];
        error = some (error_msg x);
      }
          ∷ []);
  failed = bump t.failed;
}

-- One request's outcome: an error is recorded, a panic ends the call.
unfoldable pub tally_one : BatchRequest → Result SlaResult → Tally → Result Tally
unfolding tally_ok tally_err
tally_one req (ok r) t = ok (tally_ok req r t)
tally_one req (err x) t = ok (tally_err req x t)
tally_one req panic t = panic

abbrev continue : Result Tally → (Tally → Result Tally) → Result Tally
continue (ok t) k = k t
continue (err x) k = err x
continue panic k = panic

unfoldable pub process_all : Env → ConfigMap → List BatchRequest → Tally → Result Tally
unfolding tally_one process_single
process_all e configs [] t = ok t
process_all e configs (req ∷ reqs) t =
    continue (tally_one req (process_single e configs req) t) (process_all e configs reqs)

abbrev pub summary_of : List BatchRequest → Tally → BatchSummary
summary_of reqs t = record {
  total = length reqs;
  succeeded = t.succeeded;
  failed = t.failed;
  total_rewards = t.total_rewards;
  total_penalties = t.total_penalties;
}

-- The loop of `validate_batch`; `seen` holds the ids so far.
unfoldable pub validate_requests : List Symbol → List BatchRequest → Action (Unit {0})
unfolding contains
validate_requests seen [] = pure tt
validate_requests seen (req ∷ reqs) = do
  reject_if (contains seen req.outage_id) duplicate_outage_input
  reject_if (not (contains canonical_severities req.severity)) invalid_severity
  validate_requests (req.outage_id ∷ seen) reqs

unfoldable pub validate_batch : List BatchRequest → Action ℕ
unfolding validate_requests
validate_batch reqs = do
  reject_if (length reqs == 0) threshold_out_of_bounds
  reject_if (ltb batch_limit (length reqs)) threshold_out_of_bounds
  validate_requests [] reqs
  pure (length reqs)

-- `i128::abs`, which wraps at the least value.
unfoldable pub abs_i128 : ℤ → ℤ
abs_i128 a = if ltb_ℤ a (pos 0) then wrapping_neg a else a

-- The configurations, and the loop over the batch.
unfoldable pub run_batch : List BatchRequest → Action Tally
unfolding process_all
run_batch reqs = do
  configs ← ok_or (← gets (λ s. s.config)) not_initialized
  lift (process_all (← asks (λ e. e)) configs reqs empty_tally)

unfoldable pub batch_calculate :
    Address → List BatchRequest → Action (BatchSummary × List BatchResult)
unfolding abs_i128
batch_calculate caller reqs = do
  validate_batch reqs
  require_operator caller
  require_not_paused
  t ← run_batch reqs
  publish (
      batch_calculated caller (length reqs) t.met_count t.violation_count
        (abs_i128 t.total_penalties))
  pure (summary_of reqs t, t.results)

unfoldable pub batch_calculate_view : List BatchRequest → Action (BatchSummary × List BatchResult)
batch_calculate_view reqs = do
  check_version
  validate_batch reqs
  t ← run_batch reqs
  pure (summary_of reqs t, t.results)

unfoldable pub find_result_by_outage_id : List BatchResult → Symbol → Option BatchResult
find_result_by_outage_id [] outage_id = none
find_result_by_outage_id (r ∷ rs) outage_id =
    if str_eq r.outage_id outage_id then some r else find_result_by_outage_id rs outage_id
