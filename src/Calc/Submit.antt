-- ===== src/Calc/Submit.antt =====
-- `calculate_sla` (sla_calculator/src/lib.rs): the operator submits an outage; its result goes to
-- the history, the statistics and the events.
use noc_iq_contracts.Base.{
  ℕ, ◌+◌, ◌-◌, Bool, true, false, ◌||◌, Option, none, some, List, [], ◌∷◌, ◌++◌, length, drop,
  unwrap_or, not, str_eq, ltb, ◌==◌, if◌then◌else◌,
}
use noc_iq_contracts.Base.Int.{ℤ, pos, saturating_add, wrapping_neg}
use noc_iq_contracts.Types.{
  Address, Symbol, SlaConfig, SlaResult, SlaStats, lookup, u64_mod, invalid_severity,
  not_initialized, config_not_found, duplicate_outage_input,
}
use noc_iq_contracts.Storage.{
  sla_calculated, settlement_intent, sla_violated, sla_met, duration_capped, Storage, Action, ◌>>=◌,
  ◌>>◌, pure, fail, gets, asks, ok_or, modify, reject_if, publish, lift,
}
use noc_iq_contracts.Guards.{check_version, require_operator, require_not_paused}
use noc_iq_contracts.Config.Severity.{is_canonical_severity}
use noc_iq_contracts.Calc.Outcome.{compute_result}
use noc_iq_contracts.Lifecycle.{zero_stats}

abbrev pub max_history_size : ℕ
max_history_size = 1000

abbrev pub default_max_outage_duration_minutes : ℕ
default_max_outage_duration_minutes = 10_080

-- Outage ids always pass; a severity must be canonical.
unfoldable pub validate_symbol_input : Symbol → Bool → Action (Unit {0})
unfolding is_canonical_severity
validate_symbol_input symbol true = pure tt
validate_symbol_input symbol false = reject_if (not (is_canonical_severity symbol)) invalid_severity

unfoldable pub max_duration : Storage → ℕ
max_duration s = unwrap_or s.max_outage_duration default_max_outage_duration_minutes

abbrev pub retention : Storage → ℕ
retention s = unwrap_or s.retention_limit max_history_size

abbrev pub stored_history : Storage → List SlaResult
stored_history s = unwrap_or s.history []

-- The last entry of that outage, as the loops over the history find it.
unfoldable pub latest : Symbol → List SlaResult → Option SlaResult → Option SlaResult
latest outage_id [] found = found
latest outage_id (r ∷ rs) found =
    latest outage_id rs (if str_eq r.outage_id outage_id then some r else found)

unfoldable pub cap_duration : Address → Symbol → ℕ → Action ℕ
unfolding max_duration
cap_duration caller outage_id mttr = do
  limit ← gets max_duration
  if ltb limit mttr
      then (publish (duration_capped caller outage_id mttr limit) >> pure limit)
      else pure mttr

-- The history with the new entry: over the limit the oldest goes.
unfoldable pub push_bounded : ℕ → List SlaResult → SlaResult → List SlaResult
push_bounded limit history result =
    let longer = history ++ (result ∷ []) in
    if ltb limit (length longer) then drop 1 longer else longer

-- `saturating_add(1)` on u64.
abbrev pub count_up : ℕ → ℕ
count_up n = if ltb (n + 1) u64_mod then n + 1 else u64_mod - 1

unfoldable pub next_stats : Bool → ℤ → ℤ → SlaStats → SlaStats
next_stats true reward penalty st = record st {
  total_calculations = count_up st.total_calculations;
  total_rewards = saturating_add st.total_rewards reward;
}
next_stats false reward penalty st = record st {
  total_calculations = count_up st.total_calculations;
  total_violations = count_up st.total_violations;
  total_penalties = saturating_add st.total_penalties penalty;
}

unfoldable pub increment_stats : Bool → ℤ → ℤ → Action (Unit {0})
unfolding next_stats
increment_stats met reward penalty =
    modify (λ s. record s {
      stats = some (next_stats met reward penalty (unwrap_or s.stats zero_stats));
    })

abbrev pub publish_sla_event : Symbol → SlaResult → Action (Unit {0})
publish_sla_event severity r = publish (
    sla_calculated severity r.outage_id r.status r.payment_type r.rating r.mttr_minutes
      r.threshold_minutes r.amount)

abbrev pub publish_settlement_intent_event : Symbol → SlaResult → Action (Unit {0})
publish_settlement_intent_event severity r = publish (
    settlement_intent severity r.outage_id r.status r.payment_type r.amount r.config_version_hash
      r.recorded_at)

abbrev pub publish_sla_violated_event : SlaResult → Action (Unit {0})
publish_sla_violated_event r =
    publish (sla_violated r.outage_id r.mttr_minutes r.threshold_minutes r.amount)

abbrev pub publish_sla_met_event : SlaResult → Action (Unit {0})
publish_sla_met_event r = publish (sla_met r.outage_id r.mttr_minutes r.threshold_minutes r.amount)

-- A first submission: history, statistics, events.
unfoldable pub record_new : Symbol → SlaResult → Action SlaResult
unfolding push_bounded increment_stats
record_new severity result = do
  modify (λ s. record s { history = some (push_bounded (retention s) (stored_history s) result) })
  if str_eq result.status "viol"
      then (increment_stats false (pos 0) (wrapping_neg result.amount)
          >> publish_sla_violated_event result)
      else (increment_stats true result.amount (pos 0) >> publish_sla_met_event result)
  publish_sla_event severity result
  publish_settlement_intent_event severity result
  pure result

-- A repeated outage id: the stored result, if the inputs resolve to the same.
unfoldable pub resubmit : ℕ → SlaConfig → SlaResult → Action SlaResult
resubmit mttr cfg prev =
    if not (prev.mttr_minutes == mttr) || not (prev.threshold_minutes == cfg.threshold_minutes)
    then fail duplicate_outage_input
    else pure prev

abbrev settle : Symbol → ℕ → SlaConfig → SlaResult → Option SlaResult → Action SlaResult
settle severity mttr cfg result none = record_new severity result
settle severity mttr cfg result (some prev) = resubmit mttr cfg prev

-- The checks at the head of `calculate_sla`.
unfoldable pub authorize : Address → Symbol → Symbol → Action (Unit {0})
unfolding check_version validate_symbol_input require_not_paused require_operator
authorize caller outage_id severity = do
  check_version
  validate_symbol_input outage_id true
  validate_symbol_input severity false
  require_not_paused
  require_operator caller

-- The configuration of the severity, and the hash of the whole map.
unfoldable pub config_and_hash : Symbol → Action (SlaConfig × List ℕ)
unfolding lookup
config_and_hash severity = do
  configs ← ok_or (← gets (λ s. s.config)) not_initialized
  cfg ← ok_or (lookup severity configs) config_not_found
  hash ← asks (λ e. e.config_digest (λ k. lookup k configs))
  pure (cfg, hash)

-- From the capped duration on.
unfoldable pub finish : Symbol → Symbol → SlaConfig → List ℕ → ℕ → Action SlaResult
finish outage_id severity cfg hash mttr = do
  now ← asks (λ e. e.timestamp)
  result ← lift (compute_result outage_id mttr cfg hash now)
  existing ← gets (λ s. latest outage_id (stored_history s) none)
  settle severity mttr cfg result existing

unfoldable pub calculate_sla : Address → Symbol → Symbol → ℕ → Action SlaResult
calculate_sla caller outage_id severity mttr_minutes = do
  authorize caller outage_id severity
  found ← config_and_hash severity
  mttr ← cap_duration caller outage_id mttr_minutes
  finish outage_id severity found.0 found.1 mttr
