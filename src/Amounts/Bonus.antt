-- ===== src/Amounts/Bonus.antt =====
-- What a bonus pays (sla_calculator/src/zero_downtime_bonus.rs).
use noc_iq_contracts.Base.{
  ℕ, ◌*◌, ◌/◌, ◌≤◌, ◌<◌, ◌≡◌, [], ◌∷◌, ◌++◌, List, ltb, if◌then◌else◌, arith,
}
use noc_iq_contracts.Base.Int.{pos, i128_max, saturating_mul, saturate, pos-mul, div_trunc}
use noc_iq_contracts.Types.{Address}
use noc_iq_contracts.Effect.{ok}
use noc_iq_contracts.Amounts.{
  BonusEvent, bonus, evaluate_bonus, scaled_credit, cap_to_budget, max_multiplier_bps,
}

scaled_credit-pos :
    (base multiplier : ℕ)
    → multiplier ≤ max_multiplier_bps
    → base * multiplier ≤ i128_max
    → scaled_credit (pos base) multiplier ≡ pos (base * multiplier / 10000)
unfolding scaled_credit saturating_mul saturate div_trunc
scaled_credit-pos base multiplier low fits =
    let clamped : (if ltb max_multiplier_bps multiplier then max_multiplier_bps else multiplier)
        ≡ multiplier =
      ground arith in
    rw (clamped, pos-mul base multiplier) (ground arith)

-- For an operator without downtime in a window of some length, with a multiplier from 1 to 20000
-- basis points, a budget above 0 and a base of at least 0 whose product with the multiplier fits in
-- 128 bits, the bonus is the base scaled by the multiplier and rounded down, at most the budget, and
-- is published.
evaluate_bonus-exact :
    (operator : Address) (window base budget multiplier now : ℕ) (events : List BonusEvent)
    → 1 ≤ multiplier
    → multiplier ≤ max_multiplier_bps
    → 0 < budget
    → 0 < window
    → base * multiplier ≤ i128_max
    → let scaled = base * multiplier / 10000 in
      let credit = if ltb budget scaled then budget else scaled in
      evaluate_bonus operator 0 window (pos base) (pos budget) multiplier now events ≡ (
        ok (record {
          operator = operator;
          credit = pos credit;
          multiplier_bps = multiplier;
          window_seconds = window;
        }),
        events ++ (bonus operator (pos credit) ∷ []),
      )
unfolding evaluate_bonus cap_to_budget
evaluate_bonus-exact operator window base budget multiplier now events low high some_budget
      some_window fits =
    ground (arith, scaled_credit-pos base multiplier high fits)
