-- ===== src/Helpers/Root.antt =====
-- `isqrt` (sla_calculator/src/lib.rs) and its search.
use noc_iq_contracts.Base.{
  ℕ, zero, suc, ◌+◌, ◌-◌, ◌*◌, ◌/◌, ◌^◌, ◌≤◌, ◌<◌, ◌≡◌, true, false, leb, arith,
}
use native.Mathlib.Nat.{div-lt_iff_lt-mul, pow-succ'}
use noc_iq_contracts.Helpers.{isqrt_loop, isqrt}

-- `r` is the square root of `n`, rounded down.
abbrev pub IsRoot : ℕ → ℕ → Type 0
IsRoot n r = (r * r ≤ n) × (n < suc r * suc r)

square_mono : (a b : ℕ) → a ≤ b → a * a ≤ b * b
square_mono a b h = grind arith

-- The test of the search, without its division.
root_test :
    (n mid : ℕ)
    → 0 < mid
    → ((leb mid (n / mid) ≡ true) → mid * mid ≤ n) × ((leb mid (n / mid) ≡ false) → n < mid * mid)
root_test n mid h = ground (arith, div-lt_iff_lt-mul {k = mid} {x = n} {y = mid} h)

-- The search is over: the next square is above.
stop :
    (n low high ans : ℕ)
    → high < low
    → suc ans ≡ low
    → ans * ans ≤ n
    → n < suc high * suc high
    → IsRoot n ans
stop n low high ans done next below above =
    (below, omega (arith, above, square_mono (suc high) (suc ans) (omega arith)))

isqrt_loop-IsRoot :
    (n fuel low high ans : ℕ)
    → suc high - low < 2 ^ fuel
    → suc ans ≡ low
    → ans * ans ≤ n
    → n < suc high * suc high
    → IsRoot n (isqrt_loop n fuel low high ans)
unfolding isqrt_loop
isqrt_loop-IsRoot n zero low high ans room next below above =
    stop n low high ans (omega arith) next below above
isqrt_loop-IsRoot n (suc f) low high ans room next below above =
    let mid = low + (high - low) / 2 in
    ground (
      arith,
      pow-succ' 2 f,
      stop n low high ans,
      root_test n mid,
      isqrt_loop-IsRoot n f (mid + 1) high mid,
      isqrt_loop-IsRoot n f low (mid - 1) ans,
    )

start_above : (h : ℕ) → 2 * h + 2 ≤ suc (h + 1) * suc (h + 1)
start_above h = grind arith

-- For every u128, `isqrt` is the square root rounded down.
pub isqrt-IsRoot : (n : ℕ) → n < 2 ^ 128 → IsRoot n (isqrt n)
unfolding isqrt
isqrt-IsRoot n h = ground (arith, isqrt_loop-IsRoot n 128 1 (n / 2 + 1) 0, start_above (n / 2))
