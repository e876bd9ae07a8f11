-- ===== src/Trend/Summary.antt =====
-- The summary over buckets of a period (sla_calculator/src/trend.rs).
pub mod Telescope
use noc_iq_contracts.Base.{
  ℕ, zero, suc, ◌+◌, ◌-◌, ◌*◌, ◌/◌, ◌%◌, ◌^◌, ◌==◌, Bool, true, false, List, [], ◌∷◌, length, leb,
  ltb, if◌then◌else◌,
}
use noc_iq_contracts.Base.Int.{ℤ, pos, negsuc, pos_part, neg_part, ◌+ℤ◌, neg_ℤ, leb_ℤ, ltb_ℤ}
use noc_iq_contracts.Types.{
  SlaResult, SlaError, invalid_threshold, u32_mod, u64_mod, saturating_u32, saturating_u64,
  cast_i32,
}
use noc_iq_contracts.Effect.{Outcome, ok, err, panic}
use noc_iq_contracts.Trend.{TrendData, calculate_trend}

pub record TrendSummary : Type 0 where
  pub overall_compliance_bps : ℕ
  pub overall_avg_mttr : ℕ
  pub total_calculations : ℕ
  pub trend_direction : ℤ
  pub period_count : ℕ

-- The nearest i64, for `saturating_add`.
unfoldable pub saturate_i64 : ℤ → ℤ
saturate_i64 a =
    if ltb (2 ^ 63 - 1) (pos_part a)
    then pos (2 ^ 63 - 1)
    else if ltb (2 ^ 63) (neg_part a)
    then negsuc (2 ^ 63 - 1)
    else a

-- The variables of the loop over the buckets; the previous rate is -1 before the first.
pub record Sums : Type 0 where
  pub calculations : ℕ
  pub compliance : ℕ
  pub mttr : ℕ
  pub calculations_for_mttr : ℕ
  pub prev_compliance : ℤ
  pub trend_sum : ℤ

abbrev pub no_sums : Sums
no_sums = record {
  calculations = 0;
  compliance = 0;
  mttr = 0;
  calculations_for_mttr = 0;
  prev_compliance = negsuc 0;
  trend_sum = pos 0;
}

unfoldable pub add_bucket : TrendData → Sums → Sums
add_bucket t s = record {
  calculations = saturating_u32 (s.calculations + t.calculation_count);
  compliance = saturating_u64 (s.compliance + t.compliance_rate_bps);
  mttr =
      (if ltb 0 t.calculation_count
        then saturating_u64 (s.mttr + t.avg_mttr_minutes * t.calculation_count)
        else s.mttr);
  calculations_for_mttr =
      (if ltb 0 t.calculation_count
        then saturating_u32 (s.calculations_for_mttr + t.calculation_count)
        else s.calculations_for_mttr);
  prev_compliance = pos t.compliance_rate_bps;
  trend_sum =
      (if leb_ℤ (pos 0) s.prev_compliance
        then saturate_i64 (s.trend_sum +ℤ (pos t.compliance_rate_bps +ℤ neg_ℤ s.prev_compliance))
        else s.trend_sum);
}

-- The bucket of the given index, of which `rest` follow.
unfoldable pub bucket : ℕ → ℕ → ℕ → ℕ → ℕ → List SlaResult → TrendData
unfolding calculate_trend
bucket from to duration i rest history =
    let start = (from + i * duration) % u64_mod in
    calculate_trend start (if rest == 0 then to else (start + duration) % u64_mod) history

-- The loop from the given index on, over as many buckets as there are left.
unfoldable pub add_buckets : ℕ → ℕ → ℕ → ℕ → ℕ → List SlaResult → Sums → Sums
add_buckets from to duration i zero history s = s
add_buckets from to duration i (suc rest) history s =
    add_buckets from to duration (i + 1) rest history
      (add_bucket (bucket from to duration i rest history) s)

abbrev pub summary_of : ℕ → Sums → TrendSummary
summary_of count s = record {
  overall_compliance_bps = (s.compliance / count) % u32_mod;
  overall_avg_mttr =
      (if ltb 0 s.calculations_for_mttr then (s.mttr / s.calculations_for_mttr) % u32_mod else 0);
  total_calculations = s.calculations;
  trend_direction = cast_i32 s.trend_sum;
  period_count = count;
}

unfoldable pub calculate_trend_summary : ℕ → ℕ → ℕ → List SlaResult → Outcome SlaError TrendSummary
unfolding add_buckets
calculate_trend_summary from to count history =
    if count == 0
    then err invalid_threshold
    else ok (summary_of count (add_buckets from to ((to - from) / count) 0 count history no_sums))

-- The first and the last time of the history.
abbrev pub earliest : List SlaResult → ℕ → ℕ
earliest [] t = t
earliest (r ∷ rs) t = earliest rs (if ltb r.recorded_at t then r.recorded_at else t)

abbrev pub latest : List SlaResult → ℕ → ℕ
latest [] t = t
latest (r ∷ rs) t = latest rs (if ltb t r.recorded_at then r.recorded_at else t)

-- `i32::signum`
abbrev pub signum : ℤ → ℤ
signum (pos n) = if n == 0 then pos 0 else pos 1
signum (negsuc n) = negsuc 0

abbrev pub direction_of : Outcome SlaError TrendSummary → Outcome SlaError ℤ
direction_of (ok s) = ok (signum s.trend_direction)
direction_of (err x) = err x
direction_of panic = panic

unfoldable pub get_latest_trend_direction : ℕ → List SlaResult → Outcome SlaError ℤ
unfolding calculate_trend_summary
get_latest_trend_direction count history =
    if ltb (length history) 2
    then ok (pos 0)
    else direction_of
        (calculate_trend_summary (earliest history (u64_mod - 1)) (latest history 0) count history)
