-- ===== src/Trend/Period.antt =====
-- The counts of a period (sla_calculator/src/trend.rs).
use noc_iq_contracts.Base.{
  quotient-le, ℕ, ◌+◌, ◌-◌, ◌*◌, ◌/◌, ◌≤◌, ◌<◌, ◌≡◌, ◌&&◌, refl, Bool, List, [], ◌∷◌, length,
  select, leb, ltb, if◌then◌else◌, str_eq, arith,
}
use noc_iq_contracts.Types.{SlaResult, u32_mod}
use noc_iq_contracts.Trend.{Totals, no_totals, rate_bps, add_entry, add_entries, calculate_trend}

-- The entries of the period, and those of them that are violations.
abbrev pub inside : ℕ → ℕ → SlaResult → Bool
inside from to r = leb from r.recorded_at && leb r.recorded_at to

abbrev pub violated : ℕ → ℕ → SlaResult → Bool
violated from to r = inside from to r && str_eq r.status "viol"

rate_bps_lem :
    (met total : ℕ)
    → met ≤ total
    → (rate_bps met total ≡ (if ltb 0 total then met * 10000 / total else 0))
      × (rate_bps met total ≤ 10000)
rate_bps_lem met total le = ground (arith, quotient-le met total)

add_entries-counts :
    (from to : ℕ) (rs : List SlaResult) (t : Totals)
    → t.calculation_count + length rs < u32_mod
    → t.violation_count ≤ t.calculation_count
    → let u = add_entries from to rs t in
      (u.calculation_count ≡ t.calculation_count + length (select (inside from to) rs))
      × (u.violation_count ≡ t.violation_count + length (select (violated from to) rs))
      × (u.violation_count ≤ u.calculation_count)
unfolding add_entries add_entry
add_entries-counts from to [] t few le = (omega arith, omega arith, le)
add_entries-counts from to (r ∷ rs) t few le =
    ground (arith, add_entries-counts from to rs t, add_entries-counts from to rs (add_entry r t))

-- Over a history of fewer than 2 ^ 32 entries, the counts of `calculate_trend` are the numbers of
-- entries recorded in the period, both ends included, and of violations among them; the compliance
-- rate is the share of the others in basis points, rounded down, at most 10000, and 0 for an empty
-- period.
pub calculate_trend-counts :
    (from to : ℕ) (history : List SlaResult)
    → length history < u32_mod
    → let d = calculate_trend from to history in
      let total = length (select (inside from to) history) in
      let violations = length (select (violated from to) history) in
      (d.calculation_count ≡ total)
      × (d.violation_count ≡ violations)
      × (violations ≤ total)
      × (d.compliance_rate_bps ≡ (if ltb 0 total then (total - violations) * 10000 / total else 0))
      × (d.compliance_rate_bps ≤ 10000)
unfolding calculate_trend
calculate_trend-counts from to history few =
    let h = add_entries-counts from to history no_totals (omega arith) (omega arith) in
    let total = length (select (inside from to) history) in
    let violations = length (select (violated from to) history) in
    let counted : (add_entries from to history no_totals).calculation_count ≡ total = omega arith in
    let broken : (add_entries from to history no_totals).violation_count ≡ violations =
      omega arith in
    rw (counted, broken)
      (let rate = rate_bps_lem (total - violations) total (omega arith) in
        (refl, refl, omega arith, rate.0, rate.1))
