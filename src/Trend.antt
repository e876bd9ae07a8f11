-- ===== src/Trend.antt =====
-- Trends over the history, operator tiers and the rolling uptime (sla_calculator/src/trend.rs).
pub mod Period
pub mod Summary
pub mod Rolling
pub mod Tests
use noc_iq_contracts.Base.{
  ℕ, zero, suc, ◌+◌, ◌-◌, ◌*◌, ◌/◌, ◌%◌, ◌||◌, ◌==◌, not, Bool, true, false, Option, none, some,
  List, [], ◌∷◌, ◌++◌, length, drop, leb, ltb, if◌then◌else◌, str_eq, unwrap_or,
}
use noc_iq_contracts.Base.Int.{ℤ, pos, ◌+ℤ◌, neg_ℤ, saturating_add, wrap_i128}
use noc_iq_contracts.Types.{
  Address, SlaResult, SlaError, invalid_threshold, invalid_timestamp_sequence, u64_mod, u32_mod,
  saturating_u32, saturating_u64,
}
use noc_iq_contracts.AddressMap.{get, set}
use noc_iq_contracts.Effect.{
  Outcome, ok, panic, Effect, ◌>>=◌, ◌>>◌, return_ok, clock, reads, writes, refuse_if,
}

pub record OperatorOutcome : Type 0 where
  pub recorded_at : ℕ
  pub met : Bool

pub data OperatorTier : Type 0 where
  gold silver bronze at_risk : OperatorTier

pub record TrendData : Type 0 where
  pub period_start : ℕ
  pub period_end : ℕ
  pub calculation_count : ℕ
  pub violation_count : ℕ
  pub compliance_rate_bps : ℕ
  pub avg_mttr_minutes : ℕ
  pub total_rewards : ℤ
  pub total_penalties : ℤ
  pub net_amount : ℤ

pub record RollingDowntimeEntry : Type 0 where
  pub closed_at : ℕ
  pub downtime_seconds : ℕ

pub record RollingUptimeWindow : Type 0 where
  pub window_start : ℕ
  pub window_end : ℕ
  pub downtime_seconds : ℕ
  pub outage_count : ℕ
  pub availability_bps : ℕ

-- The storage keys that the module reads; what is absent reads as empty.
pub record TrendStore : Type 0 where
  pub history : List SlaResult
  pub outcomes : List (Address × List OperatorOutcome)
  pub rolling : List RollingDowntimeEntry

abbrev pub TrendCall : Type 0 → Type 0
TrendCall A = Effect TrendStore SlaError A

abbrev pub tier_window_secs : ℕ
tier_window_secs = 90 * 24 * 60 * 60

abbrev pub gold_threshold_bps : ℕ
gold_threshold_bps = 9990

abbrev pub silver_threshold_bps : ℕ
silver_threshold_bps = 9900

abbrev pub bronze_threshold_bps : ℕ
bronze_threshold_bps = 9500

abbrev pub rolling_window_secs : ℕ
rolling_window_secs = 30 * 24 * 60 * 60

-- The counters of the loop over the history.
pub record Totals : Type 0 where
  pub calculation_count : ℕ
  pub violation_count : ℕ
  pub total_mttr : ℕ
  pub total_rewards : ℤ
  pub total_penalties : ℤ

abbrev pub no_totals : Totals
no_totals = record {
  calculation_count = 0;
  violation_count = 0;
  total_mttr = 0;
  total_rewards = pos 0;
  total_penalties = pos 0;
}

abbrev pub outside : ℕ → ℕ → SlaResult → Bool
outside from to r = ltb r.recorded_at from || ltb to r.recorded_at

-- One entry of the loop that lies in the period.
unfoldable pub add_entry : SlaResult → Totals → Totals
add_entry r t =
    let seen = record t {
      calculation_count = saturating_u32 (t.calculation_count + 1);
      total_mttr = saturating_u64 (t.total_mttr + r.mttr_minutes);
    } in
    if str_eq r.status "viol"
    then record seen {
      violation_count = saturating_u32 (t.violation_count + 1);
      total_penalties = saturating_add t.total_penalties r.amount;
    }
    else record seen { total_rewards = saturating_add t.total_rewards r.amount }

unfoldable pub add_entries : ℕ → ℕ → List SlaResult → Totals → Totals
add_entries from to [] t = t
add_entries from to (r ∷ rs) t =
    add_entries from to rs (if outside from to r then t else add_entry r t)

abbrev pub rate_bps : ℕ → ℕ → ℕ
rate_bps met total = if ltb 0 total then (met * 10000 / total) % u32_mod else 0

abbrev pub trend_data : ℕ → ℕ → Totals → TrendData
trend_data from to t = record {
  period_start = from;
  period_end = to;
  calculation_count = t.calculation_count;
  violation_count = t.violation_count;
  compliance_rate_bps = rate_bps (t.calculation_count - t.violation_count) t.calculation_count;
  avg_mttr_minutes =
      (if ltb 0 t.calculation_count then (t.total_mttr / t.calculation_count) % u32_mod else 0);
  total_rewards = t.total_rewards;
  total_penalties = t.total_penalties;
  net_amount = wrap_i128 (t.total_rewards +ℤ neg_ℤ t.total_penalties);
}

unfoldable pub calculate_trend : ℕ → ℕ → List SlaResult → TrendData
unfolding add_entries
calculate_trend from to history = trend_data from to (add_entries from to history no_totals)

abbrev pub last_time : SlaResult → List SlaResult → ℕ
last_time r [] = r.recorded_at
last_time r (q ∷ qs) = last_time q qs

-- The period of the entries that are looked back to; without any, `history.get` is out of bounds.
abbrev pub recent : List SlaResult → List SlaResult → Outcome SlaError TrendData
recent [] history = panic
recent (r ∷ rs) history = ok (calculate_trend r.recorded_at (last_time r rs) history)

unfoldable pub get_recent_trend : ℕ → List SlaResult → Outcome SlaError TrendData
unfolding calculate_trend
get_recent_trend lookback history =
    if length history == 0
    then ok (trend_data 0 0 no_totals)
    else recent (drop (length history - lookback) history) history

unfoldable pub record_operator_outcome : Address → Bool → TrendCall (Unit {0})
record_operator_outcome operator met = do
  now ← clock
  writes (λ s. record s {
    outcomes =
        set operator
          (unwrap_or (get operator s.outcomes) [] ++ (record { recorded_at = now; met = met } ∷ []))
          s.outcomes;
  })

-- The loop over an operator's outcomes: how many are in the window, and how many of them are met.
unfoldable pub count_outcomes : ℕ → List OperatorOutcome → ℕ → ℕ → ℕ × ℕ
count_outcomes start [] total met = (total, met)
count_outcomes start (o ∷ os) total met =
    count_outcomes start os (if ltb o.recorded_at start then total else saturating_u32 (total + 1))
      (if ltb o.recorded_at start then met else if o.met then saturating_u32 (met + 1) else met)

abbrev pub outcomes_bps : ℕ → Option (List OperatorOutcome) → ℕ
outcomes_bps now none = 0
outcomes_bps now (some os) =
    let (total, met) = count_outcomes (now - tier_window_secs) os 0 0 in rate_bps met total

unfoldable pub calculate_operator_compliance_bps : Address → ℕ → TrendStore → ℕ
unfolding count_outcomes
calculate_operator_compliance_bps operator now s = outcomes_bps now (get operator s.outcomes)

unfoldable pub get_operator_tier : Address → ℕ → TrendStore → OperatorTier
unfolding calculate_operator_compliance_bps
get_operator_tier operator now s =
    let bps = calculate_operator_compliance_bps operator now s in
    if ltb gold_threshold_bps bps
    then gold
    else if ltb silver_threshold_bps bps
    then silver
    else if ltb bronze_threshold_bps bps
    then bronze
    else at_risk

unfoldable pub rolling_availability_bps : ℕ → ℕ
rolling_availability_bps downtime =
    let capped = if ltb rolling_window_secs downtime then rolling_window_secs else downtime in
    ((rolling_window_secs - capped) * 10000 / rolling_window_secs) % u32_mod

-- The entries that are kept, the sum of their downtime and their number.
unfoldable pub collect_from :
    ℕ → List RollingDowntimeEntry → ℕ → ℕ → List RollingDowntimeEntry × ℕ × ℕ
collect_from start [] downtime count = ([], downtime, count)
collect_from start (e ∷ es) downtime count =
    let evicted = ltb e.closed_at start in
    let (kept, total, seen) =
      collect_from start es
        (if evicted then downtime else saturating_u64 (downtime + e.downtime_seconds))
        (if evicted then count else saturating_u32 (count + 1)) in
    (if evicted then kept else e ∷ kept, total, seen)

unfoldable pub collect_window : ℕ → TrendStore → List RollingDowntimeEntry × ℕ × ℕ
unfolding collect_from
collect_window now s = collect_from (now - rolling_window_secs) s.rolling 0 0

abbrev pub uptime_window : ℕ → ℕ → ℕ → RollingUptimeWindow
uptime_window now downtime count = record {
  window_start = now - rolling_window_secs;
  window_end = now;
  downtime_seconds = downtime;
  outage_count = count;
  availability_bps = rolling_availability_bps downtime;
}

unfoldable pub record_outage_close : ℕ → ℕ → TrendCall RollingUptimeWindow
unfolding collect_window
record_outage_close start end = do
  refuse_if (ltb end start) invalid_timestamp_sequence
  now ← clock
  window ← reads (collect_window now)
  let counts = leb (now - rolling_window_secs) end
  let entry : RollingDowntimeEntry = record { closed_at = end; downtime_seconds = end - start }
  let kept = if counts then window.0 ++ (entry ∷ []) else window.0
  let downtime = if counts then saturating_u64 (window.1 + (end - start)) else window.1
  writes (λ s. record s { rolling = kept })
  return_ok (uptime_window now downtime (length kept))

unfoldable pub get_rolling_sla_bps : ℕ → TrendStore → ℕ
unfolding collect_window
get_rolling_sla_bps now s = rolling_availability_bps (collect_window now s).1

unfoldable pub get_rolling_uptime_window : ℕ → TrendStore → RollingUptimeWindow
unfolding collect_window
get_rolling_uptime_window now s =
    let (kept, downtime, count) = collect_window now s in uptime_window now downtime count
