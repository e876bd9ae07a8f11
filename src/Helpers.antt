-- ===== src/Helpers.antt =====
-- The arithmetic helpers at the end of sla_calculator/src/lib.rs: integer square root, the discount
-- for outages of several sites, and the millisecond precision of availability.
pub mod Root
pub mod Precision
mod Tests
use noc_iq_contracts.Base.{
  ℕ, zero, suc, ◌+◌, ◌-◌, ◌*◌, ◌/◌, ◌%◌, ◌^◌, Bool, true, false, leb, ltb, ◌==◌, if◌then◌else◌,
}
use noc_iq_contracts.Base.Int.{ℤ, pos, leb_ℤ, saturating_mul, div_euclid}
use noc_iq_contracts.Types.{u32_mod, u64_mod, division_by_zero}
use noc_iq_contracts.Storage.{Result, ok, err, panic}

-- The binary search, on fuel: each round halves the range from `low` to `high`.
unfoldable pub isqrt_loop : ℕ → ℕ → ℕ → ℕ → ℕ → ℕ
isqrt_loop n zero low high ans = ans
isqrt_loop n (suc fuel) low high ans =
    let mid = low + (high - low) / 2 in
    elim (leb low high) [
      | false ↦ ans
      | true ↦ elim (leb mid (n / mid)) [
        | true ↦ isqrt_loop n fuel (mid + 1) high mid
        | false ↦ elim (mid == 0) [ true ↦ ans | false ↦ isqrt_loop n fuel low (mid - 1) ans ]
      ]
    ]

unfoldable pub isqrt : ℕ → ℕ
isqrt n = if n == 0 then 0 else if n == 1 then 1 else isqrt_loop n 128 1 (n / 2 + 1) 0

unfoldable pub multi_site_discount_factor_bps : ℕ → ℕ
multi_site_discount_factor_bps count =
    if leb count 1 then 10000 else if count == 2 then 9000 else if count == 3 then 8000 else 7000

-- `saturating_div` by 10000; on an amount that is not negative it is `div_euclid`.
unfoldable pub apply_multi_site_discount : ℤ → ℕ → ℤ
unfolding multi_site_discount_factor_bps
apply_multi_site_discount base_penalty count =
    if leb_ℤ base_penalty (pos 0)
    then pos 0
    else div_euclid (saturating_mul base_penalty (pos (multi_site_discount_factor_bps count))) 10000

abbrev pub millis_per_minute : ℕ
millis_per_minute = 60000

abbrev pub full_availability_milli_bps : ℕ
full_availability_milli_bps = 10_000_000

unfoldable pub availability_milli_bps : ℕ → ℕ → Result ℕ
availability_milli_bps uptime window =
    if window == 0
    then err division_by_zero
    else ok ((if ltb uptime window then uptime else window) * 10000 * 1000 / window % u64_mod)

unfoldable pub downtime_availability_milli_bps : ℕ → ℕ → Result ℕ
unfolding availability_milli_bps
downtime_availability_milli_bps downtime window =
    availability_milli_bps (window - (if ltb downtime window then downtime else window)) window

abbrev map_result : {A B : Type 0} → (A → B) → Result A → Result B
map_result f (ok a) = ok (f a)
map_result f (err x) = err x
map_result f panic = panic

unfoldable pub meets_threshold_milli_bps : ℕ → ℕ → ℕ → Result Bool
unfolding availability_milli_bps
meets_threshold_milli_bps uptime window threshold =
    map_result (λ a. leb threshold a) (availability_milli_bps uptime window)

unfoldable pub minutes_to_millis : ℕ → ℕ
minutes_to_millis minutes =
    if ltb (minutes * millis_per_minute) u64_mod then minutes * millis_per_minute else u64_mod - 1

-- `div_ceil`, and the greatest u32 where the quotient is none.
unfoldable pub millis_to_minutes_ceil : ℕ → ℕ
millis_to_minutes_ceil millis =
    let minutes = (millis + 59999) / millis_per_minute in
    if ltb minutes u32_mod then minutes else u32_mod - 1

unfoldable pub milli_bps_to_bps : ℕ → ℕ
milli_bps_to_bps milli_bps = milli_bps / 1000 % u32_mod
