-- ===== src/Helpers/Precision.antt =====
-- Availability in milli-basis-points, minutes and milliseconds, and the discount for several sites.
use native.Mathlib.Nat.{div-lt_iff_lt-mul}
use noc_iq_contracts.Base.{ℕ, suc, ◌+◌, ◌*◌, ◌/◌, ◌≤◌, ◌<◌, ◌≡◌, ltb, if◌then◌else◌, arith}
use noc_iq_contracts.Base.Int.{pos, ◌≤ℤ◌, ◌*ℤ◌, saturate, saturating_mul, div_euclid, i128_max}
use noc_iq_contracts.Types.{u32_mod}
use noc_iq_contracts.Storage.{ok}
use noc_iq_contracts.Helpers.{
  full_availability_milli_bps, availability_milli_bps, minutes_to_millis, millis_to_minutes_ceil,
  apply_multi_site_discount,
}

-- The part of the window that was up.
abbrev pub up : ℕ → ℕ → ℕ
up uptime window = if ltb uptime window then uptime else window

mul_le : (a w c : ℕ) → 0 < w → a ≤ w → a * c < suc c * w
mul_le a w c h k = grind arith

div_bounds :
    (a w c : ℕ)
    → 0 < w
    → a ≤ w
    → (a * c / w ≤ c) × (a * c / w * w ≤ a * c) × (a * c < suc (a * c / w) * w)
div_bounds a w c h k = ground (
  arith,
  mul_le a w c h k,
  div-lt_iff_lt-mul {k = w} {x = a * c} {y = suc c} h,
  div-lt_iff_lt-mul {k = w} {x = a * c} {y = a * c / w} h,
  div-lt_iff_lt-mul {k = w} {x = a * c} {y = suc (a * c / w)} h,
)

-- For a window above 0 the availability is defined, at most 100 per cent, and the exact fraction
-- of the window that was up, rounded down to a milli-basis-point.
pub availability_milli_bps-exact :
    (uptime window : ℕ)
    → 0 < window
    → (a : ℕ) × (availability_milli_bps uptime window ≡ ok a)
      × (a ≤ full_availability_milli_bps)
      × (a * window ≤ up uptime window * full_availability_milli_bps)
      × (up uptime window * full_availability_milli_bps < suc a * window)
unfolding availability_milli_bps
availability_milli_bps-exact uptime window h =
    let (below, lower, upper) = div_bounds (up uptime window) window 10000000 h (ground arith) in
    (up uptime window * 10000000 / window, ground arith, below, lower, upper)

-- A whole number of minutes survives the way to milliseconds and back, and a millisecond more counts
-- as a further minute, as long as both fit their machine types.
millis_to_minutes_ceil-minutes_to_millis :
    (minutes : ℕ)
    → suc minutes < u32_mod
    → (millis_to_minutes_ceil (minutes_to_millis minutes) ≡ minutes)
      × (millis_to_minutes_ceil (minutes_to_millis minutes + 1) ≡ suc minutes)
unfolding millis_to_minutes_ceil minutes_to_millis
millis_to_minutes_ceil-minutes_to_millis minutes h = ground arith

-- For an i128 penalty that is not negative, more affected sites never cost more, and the
-- discounted penalty is at most the base penalty, saturation included.
pub apply_multi_site_discount-bounds :
    (base n m : ℕ)
    → base ≤ i128_max
    → n ≤ m
    → (apply_multi_site_discount (pos base) m ≤ℤ apply_multi_site_discount (pos base) n)
      × (apply_multi_site_discount (pos base) n ≤ℤ pos base)
unfolding apply_multi_site_discount saturating_mul saturate ◌*ℤ◌ div_euclid
apply_multi_site_discount-bounds base n m h k = ground arith
