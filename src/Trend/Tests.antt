-- ===== src/Trend/Tests.antt =====
-- Trends over short histories (sla_calculator/src/trend.rs), and the theorems at these inputs.
use noc_iq_contracts.Base.{ℕ, ◌≡◌, refl, List, [], ◌∷◌, arith, String}
use noc_iq_contracts.Base.Int.{
  ℤ, pos, negsuc, ◌+ℤ◌, neg_ℤ, saturate, saturating_add, wrap_i128, sub_ℕ,
}
use noc_iq_contracts.Types.{SlaResult}
use noc_iq_contracts.Effect.{ok, panic}
use noc_iq_contracts.Trend.{
  TrendStore, calculate_trend, get_recent_trend, add_entry, record_outage_close,
  get_rolling_uptime_window,
}
use noc_iq_contracts.Trend.Summary.{TrendSummary, calculate_trend_summary, bucket, add_bucket}
use noc_iq_contracts.Trend.Rolling.{record_outage_close-get_rolling_uptime_window}
use noc_iq_contracts.Trend.Summary.Telescope.{calculate_trend_summary-direction}

abbrev result_at : ℕ → String → ℤ → SlaResult
result_at now status amount = record {
  outage_id = "o1";
  status = status;
  mttr_minutes = 10;
  threshold_minutes = 15;
  amount = amount;
  payment_type = "rew";
  rating = "excel";
  config_version_hash = [];
  recorded_at = now;
}

-- A met result at 100 and a violation at 200, in the middle of the period from 0 to 400.
abbrev history : List SlaResult
history = result_at 100 "met" (pos 750) ∷ result_at 200 "viol" (negsuc 499) ∷ []

-- The penalty of 500 is added to the net amount instead of taken from it.
net_amount_of_penalty : (calculate_trend 0 400 history).net_amount ≡ pos 1250
unfolding calculate_trend add_entry saturating_add saturate ◌+ℤ◌ neg_ℤ wrap_i128
net_amount_of_penalty = refl

-- The violation at 200 lies on the border of two buckets, and is counted in both.
counted_twice :
    (s : TrendSummary) × (calculate_trend_summary 0 400 2 history ≡ ok s)
    × (s.total_calculations ≡ 3)
unfolding calculate_trend_summary bucket add_bucket add_entry
counted_twice = (_, refl, refl)

nothing_looked_back_to : get_recent_trend 0 history ≡ panic
unfolding get_recent_trend
nothing_looked_back_to = refl

calculate_trend_summary-direction_example :
    (s : TrendSummary) × (calculate_trend_summary 0 400 3 history ≡ ok s)
    × (s.trend_direction
        ≡ sub_ℕ
            (bucket 0 400 133 2 0 history).compliance_rate_bps
            (bucket 0 400 133 0 2 history).compliance_rate_bps)
calculate_trend_summary-direction_example =
    calculate_trend_summary-direction 0 400 2 history (omega arith)

abbrev idle : TrendStore
idle = record {
  history = [];
  outcomes = [];
  rolling = record { closed_at = 5; downtime_seconds = 60 } ∷ [];
}

record_outage_close-get_rolling_uptime_window_example :
    let (r, t) = record_outage_close 100 400 3000000 idle in
    r ≡ ok (get_rolling_uptime_window 3000000 t)
record_outage_close-get_rolling_uptime_window_example =
    record_outage_close-get_rolling_uptime_window 100 400 3000000 idle (omega arith) (omega arith)
