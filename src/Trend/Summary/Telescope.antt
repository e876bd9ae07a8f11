-- ===== src/Trend/Summary/Telescope.antt =====
-- The direction of a trend (sla_calculator/src/trend.rs).
use noc_iq_contracts.Base.{
  ℕ, zero, suc, ◌+◌, ◌-◌, ◌/◌, ◌≤◌, ◌<◌, ◌≡◌, refl, subst, List, length, arith,
}
use noc_iq_contracts.Base.Int.{pos, ◌+ℤ◌, neg_ℤ, sub_ℕ}
use noc_iq_contracts.Types.{SlaResult, u32_mod, cast_i32}
use noc_iq_contracts.Effect.{ok}
use noc_iq_contracts.Trend.{TrendData}
use noc_iq_contracts.Trend.Period.{calculate_trend-counts}
use noc_iq_contracts.Trend.Summary.{
  TrendSummary, Sums, summary_of, no_sums, add_bucket, bucket, add_buckets, saturate_i64,
  calculate_trend_summary,
}

saturate_i64-step :
    (first p r : ℕ)
    → first ≤ 10000
    → p ≤ 10000
    → r ≤ 10000
    → saturate_i64 (sub_ℕ p first +ℤ (pos r +ℤ neg_ℤ (pos p))) ≡ sub_ℕ r first
unfolding saturate_i64 ◌+ℤ◌ neg_ℤ
saturate_i64-step first p r h k l = ground arith

cast_i32-small :
    (p first : ℕ) → p ≤ 10000 → first ≤ 10000 → cast_i32 (sub_ℕ p first) ≡ sub_ℕ p first
unfolding cast_i32
cast_i32-small p first h k = ground arith

-- The previous rate is p, and the sum of the differences is what p is above the first rate.
record Follows (first p : ℕ) (s : Sums) : Type 0 where
  prev : s.prev_compliance ≡ pos p
  sum : s.trend_sum ≡ sub_ℕ p first
  small : p ≤ 10000

bucket-le :
    (from to duration i rest : ℕ) (history : List SlaResult)
    → length history < u32_mod
    → (bucket from to duration i rest history).compliance_rate_bps ≤ 10000
unfolding bucket
bucket-le from to duration i rest history few = (calculate_trend-counts _ _ history few).4

add_bucket-Follows :
    (first p : ℕ) (t : TrendData) (s : Sums)
    → first ≤ 10000
    → t.compliance_rate_bps ≤ 10000
    → Follows first p s
    → Follows first t.compliance_rate_bps (add_bucket t s)
unfolding add_bucket
add_bucket-Follows first p t s h k f = record {
  prev = refl;
  sum =
      rw (f.prev, f.sum)
        (ground (arith, saturate_i64-step first p t.compliance_rate_bps h f.small k));
  small = k;
}

add_bucket-first :
    (t : TrendData)
    → t.compliance_rate_bps ≤ 10000
    → Follows t.compliance_rate_bps t.compliance_rate_bps (add_bucket t no_sums)
unfolding add_bucket
add_bucket-first t k = record { prev = refl; sum = ground arith; small = k }

module _ (from to duration : ℕ) (history : List SlaResult) (few : length history < u32_mod) where
  abbrev pub rate : ℕ → ℕ → ℕ
  rate i rest = (bucket from to duration i rest history).compliance_rate_bps

  add_buckets-Follows :
      (first p i rest : ℕ) (s : Sums)
      → first ≤ 10000
      → Follows first p s
      → Follows first (rate (i + rest) 0) (add_buckets from to duration i (suc rest) history s)
  unfolding add_buckets
  add_buckets-Follows first p i zero s h f =
      let e : i + 0 ≡ i = omega arith in
      rw e (
        add_bucket-Follows first p (bucket from to duration i 0 history) s h
          (bucket-le from to duration i 0 history few) f)
  add_buckets-Follows first p i (suc rest) s h f =
      let e : i + suc rest ≡ i + 1 + rest = omega arith in
      rw e (
        add_buckets-Follows first (rate i (suc rest)) (i + 1) rest
          (add_bucket (bucket from to duration i (suc rest) history) s) h
          (add_bucket-Follows first p (bucket from to duration i (suc rest) history) s h
            (bucket-le from to duration i (suc rest) history few) f))

  all-Follow :
      (rest : ℕ)
      → Follows
          (rate 0 rest)
          (rate rest 0)
          (add_buckets from to duration 0 (suc rest) history no_sums)
  unfolding add_buckets
  all-Follow zero =
      add_bucket-first (bucket from to duration 0 0 history)
        (bucket-le from to duration 0 0 history few)
  all-Follow (suc rest) =
      let b = bucket from to duration 0 (suc rest) history in
      let le = bucket-le from to duration 0 (suc rest) history few in
      let e : 1 + rest ≡ suc rest = omega arith in
      subst
        (λ k.
          Follows (rate 0 (suc rest)) (rate k 0)
            (add_buckets from to duration 0 (suc (suc rest)) history no_sums))
        e
        (add_buckets-Follows (rate 0 (suc rest)) (rate 0 (suc rest)) 1 rest (add_bucket b no_sums)
          le (add_bucket-first b le))

-- For at least one bucket and a history of fewer than 2 ^ 32 entries, the sum of the differences
-- that `calculate_trend_summary` reports as the direction is the compliance rate of the last
-- bucket less that of the first, whatever the buckets between them hold.
pub calculate_trend_summary-direction :
    (from to n : ℕ) (history : List SlaResult)
    → length history < u32_mod
    → let duration = (to - from) / suc n in
      (s : TrendSummary) × (calculate_trend_summary from to (suc n) history ≡ ok s)
      × (s.trend_direction
          ≡ sub_ℕ
              (bucket from to duration n 0 history).compliance_rate_bps
              (bucket from to duration 0 n history).compliance_rate_bps)
unfolding calculate_trend_summary
calculate_trend_summary-direction from to n history few =
    let duration = (to - from) / suc n in
    let f = all-Follow from to duration history few n in
    let first = (bucket from to duration 0 n history).compliance_rate_bps in
    (
      summary_of (suc n) (add_buckets from to duration 0 (suc n) history no_sums),
      ground arith,
      rw f.sum (
          cast_i32-small (bucket from to duration n 0 history).compliance_rate_bps first f.small
            (bucket-le from to duration 0 n history few)),
    )
