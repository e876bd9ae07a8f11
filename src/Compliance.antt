-- ===== src/Compliance.antt =====
-- `calculate_monthly_sla_compliance` (sla_calculator/src/lib.rs): the share of a month's recorded
-- outages that met their threshold.
pub mod Months
pub mod Rate
mod Tests
use noc_iq_contracts.Base.{
  ℕ, zero, suc, ◌+◌, ◌-◌, ◌*◌, ◌/◌, ◌%◌, ◌^◌, Bool, true, false, not, ◌&&◌, ◌||◌, List, [], ◌∷◌,
  length, select, str_eq, leb, ltb, ◌==◌, if◌then◌else◌,
}
use noc_iq_contracts.Types.{SlaResult, u32_mod, u64_mod, invalid_month}
use noc_iq_contracts.Storage.{Action, ◌>>=◌, ◌>>◌, pure, gets, reject_if}
use noc_iq_contracts.Guards.{check_version}
use noc_iq_contracts.Calc.Submit.{stored_history}

unfoldable pub is_leap : ℕ → Bool
is_leap y = (y % 4 == 0) && (not (y % 100 == 0) || (y % 400 == 0))

unfoldable pub days_of_month : ℕ → ℕ → ℕ
unfolding is_leap
days_of_month year m =
    if m == 2
    then (if is_leap year then 29 else 28)
    else if (m == 4) || (m == 6) || (m == 9) || (m == 11)
    then 30
    else if leb 1 m && leb m 12
    then 31
    else 0

-- The loop over the years from 1970 on, after `n` rounds.
unfoldable pub days_of_years : ℕ → ℕ
unfolding is_leap
days_of_years zero = 0
days_of_years (suc n) = days_of_years n + (if is_leap (1970 + n) then 366 else 365)

-- The loop over the months from 1 on, after `n` rounds.
unfoldable pub days_of_months : ℕ → ℕ → ℕ
unfolding days_of_month
days_of_months year zero = 0
days_of_months year (suc n) = days_of_months year n + days_of_month year (suc n)

-- The days are counted on i32; `as u64` extends the sign.
abbrev pub i32_as_u64 : ℕ → ℕ
i32_as_u64 days =
    let word = days % u32_mod in if ltb word (2 ^ 31) then word else word + (u64_mod - u32_mod)

unfoldable pub start_timestamp : ℕ → ℕ → ℕ
unfolding days_of_years days_of_months
start_timestamp year month =
    i32_as_u64 (days_of_years (year - 1970) + days_of_months year (month - 1)) * 86400 % u64_mod

unfoldable pub end_timestamp : ℕ → ℕ → ℕ
unfolding start_timestamp
end_timestamp year month = (start_timestamp year month + days_of_month year month * 86400) % u64_mod

abbrev pub is_in_month : ℕ → ℕ → SlaResult → Bool
is_in_month start end r = leb start r.recorded_at && ltb r.recorded_at end

abbrev pub is_violation : SlaResult → Bool
is_violation r = str_eq r.status "viol"

-- From the two counters.
unfoldable pub rate_bps : ℕ → ℕ → ℕ
rate_bps calculation_count violations =
    if ltb 0 calculation_count
    then (calculation_count - violations) * 10000 / calculation_count % u32_mod
    else 10000

unfoldable pub calculate_monthly_sla_compliance : ℕ → ℕ → Action ℕ
unfolding check_version start_timestamp end_timestamp
calculate_monthly_sla_compliance year month = do
  check_version
  reject_if (not (leb 1 month && leb month 12)) invalid_month
  history ← gets stored_history
  let entries = select (is_in_month (start_timestamp year month) (end_timestamp year month)) history
  pure (rate_bps (length entries) (length (select is_violation entries)))
