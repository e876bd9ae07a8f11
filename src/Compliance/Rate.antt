-- ===== src/Compliance/Rate.antt =====
-- The rate: what it is for the entries of a month.
use noc_iq_contracts.Base.{
  ℕ, ◌-◌, ◌*◌, ◌≤◌, ◌<◌, ◌≡◌, ◌↔◌, some, length, select, length-select-le, arith,
}
use noc_iq_contracts.Types.{Env}
use noc_iq_contracts.Storage.{Storage, ok}
use noc_iq_contracts.Calc.Submit.{stored_history}
use native.Mathlib.Nat.{div-lt_iff_lt-mul}
use noc_iq_contracts.Compliance.{
  start_timestamp, end_timestamp, is_in_month, is_violation, rate_bps,
  calculate_monthly_sla_compliance,
}

scaled :
    (c v : ℕ)
    → 0 < c
    → v ≤ c
    → ((c - v) * 10000 < 10001 * c) × (((c - v) * 10000 < 10000 * c) ↔ (0 < v))
scaled c v h k = ground arith

-- The rate is at most 10000, and 10000 exactly without violations.
rate_bps-full :
    (count violations : ℕ)
    → violations ≤ count
    → (rate_bps count violations ≤ 10000) × ((rate_bps count violations ≡ 10000) ↔ (violations ≡ 0))
unfolding rate_bps
rate_bps-full count violations h = ground (
  arith,
  scaled count violations,
  div-lt_iff_lt-mul {k = count} {x = (count - violations) * 10000} {y = 10001},
  div-lt_iff_lt-mul {k = count} {x = (count - violations) * 10000} {y = 10000},
)

-- Under the current version and for a month from 1 to 12 the compliance is defined, at most 10000
-- basis points, and 10000 exactly when no entry recorded in that month is a violation.
calculate_monthly_sla_compliance-full :
    (year month : ℕ) (e : Env) (s : Storage)
    → s.version ≡ some 1
    → 1 ≤ month
    → month ≤ 12
    → let entries =
        select
          (is_in_month (start_timestamp year month) (end_timestamp year month))
          (stored_history s) in
      (r : ℕ) × (calculate_monthly_sla_compliance year month e s ≡ (ok r, s))
      × (r ≤ 10000)
      × ((r ≡ 10000) ↔ (length (select is_violation entries) ≡ 0))
unfolding calculate_monthly_sla_compliance
calculate_monthly_sla_compliance-full year month e s version low high =
    let entries =
      select (is_in_month (start_timestamp year month) (end_timestamp year month))
        (stored_history s) in
    let (bound, full) =
      rate_bps-full (length entries) (length (select is_violation entries))
        (length-select-le is_violation entries) in
    (rate_bps (length entries) (length (select is_violation entries)), ground arith, bound, full)
