-- ===== src/Compliance/Months.antt =====
-- The months that the calendar arithmetic gives.
use noc_iq_contracts.Base.{
  ℕ, zero, suc, ◌+◌, ◌-◌, ◌*◌, ◌/◌, ◌≤◌, ◌<◌, ◌≡◌, ap, if◌then◌else◌, arith,
}
use noc_iq_contracts.Base.{◌∙◌, ◌%◌}
use noc_iq_contracts.Types.{u64_mod}
use noc_iq_contracts.Compliance.{
  i32_as_u64, is_leap, days_of_month, days_of_years, days_of_months, start_timestamp, end_timestamp,
}

-- The days before the year 1970 + n by the Gregorian rule: 365 each and one for each leap year.
pub days_of_years-eq :
    (n : ℕ) → days_of_years n + (1969 + n) / 100 + 477 ≡ 365 * n + (1969 + n) / 4 + (1969 + n) / 400
unfolding days_of_years
days_of_years-eq zero = omega arith
days_of_years-eq (suc n) = ground (arith, days_of_years-eq n)

days_of_years-le : (n : ℕ) → days_of_years n ≤ 366 * n
unfolding days_of_years
days_of_years-le zero = omega arith
days_of_years-le (suc n) = ground (arith, days_of_years-le n)

days_of_month-le : (y m : ℕ) → days_of_month y m ≤ 31
unfolding days_of_month
days_of_month-le y m = ground arith

days_of_months-le : (y n : ℕ) → days_of_months y n ≤ 31 * n
unfolding days_of_months
days_of_months-le y zero = omega arith
days_of_months-le y (suc n) = ground (arith, days_of_months-le y n, days_of_month-le y (suc n))

-- Twelve months make a year.
days_of_months-twelve : (y : ℕ) → days_of_months y 12 ≡ (if is_leap y then 366 else 365)
unfolding days_of_months
days_of_months-twelve y = ground arith

days_before :
    (k m : ℕ) → k < 100000 → m ≤ 12 → days_of_years k + days_of_months (1970 + k) m < 40000000
days_before k m h l = omega (arith, days_of_years-le k, days_of_months-le (1970 + k) m)

word_small : (d : ℕ) → d < 40000000 → i32_as_u64 d * 86400 % u64_mod ≡ d * 86400
word_small d h = ground arith

-- Within the range nothing wraps.
start_timestamp-eq :
    (k m : ℕ)
    → k < 100000
    → m ≤ 12
    → start_timestamp (1970 + k) (suc m) ≡ (days_of_years k + days_of_months (1970 + k) m) * 86400
unfolding start_timestamp
start_timestamp-eq k m h l =
    let years : 1970 + k - 1970 ≡ k = omega arith in
    let months : suc m - 1 ≡ m = omega arith in
    ap (λ n. i32_as_u64 (days_of_years n + days_of_months (1970 + k) (suc m - 1)) * 86400 % u64_mod)
      years
    ∙ ap (λ n. i32_as_u64 (days_of_years k + days_of_months (1970 + k) n) * 86400 % u64_mod) months
    ∙ word_small _ (days_before k m h l)

end_timestamp-eq :
    (k m : ℕ)
    → k < 100000
    → m < 12
    → end_timestamp (1970 + k) (suc m)
      ≡ (days_of_years k + days_of_months (1970 + k) (suc m)) * 86400
unfolding end_timestamp days_of_months
end_timestamp-eq k m h l = omega (
  arith,
  start_timestamp-eq k m h (omega arith),
  days_before k m h (omega arith),
  days_of_month-le (1970 + k) (suc m),
)

december : (k : ℕ) → k < 99999 → end_timestamp (1970 + k) 12 ≡ start_timestamp (1970 + suc k) 1
unfolding days_of_years days_of_months
december k h = omega (
  arith,
  end_timestamp-eq k 11 (omega arith) (omega arith),
  start_timestamp-eq (suc k) 0 (omega arith) (omega arith),
  days_of_months-twelve (1970 + k),
)

-- The months tile the time line: for the years from 1970 to 101968 a month before December ends
-- where the next one starts, and December where the next January starts.
end_timestamp-eq-start_timestamp :
    (k m : ℕ)
    → k < 99999
    → m < 11
    → (end_timestamp (1970 + k) (suc m) ≡ start_timestamp (1970 + k) (suc (suc m)))
      × (end_timestamp (1970 + k) 12 ≡ start_timestamp (1970 + suc k) 1)
end_timestamp-eq-start_timestamp k m h l = (
  omega (
    arith,
    end_timestamp-eq k m (omega arith) (omega arith),
    start_timestamp-eq k (suc m) (omega arith) (omega arith),
  ),
  december k h,
)
