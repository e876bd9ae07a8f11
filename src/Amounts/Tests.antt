-- ===== src/Amounts/Tests.antt =====
-- A bonus that the budget caps, one that is denied, and the edges of the bounds and bands
-- (sla_calculator/src/zero_downtime_bonus.rs, penalty_bounds.rs, rating.rs).
use noc_iq_contracts.Base.{◌≡◌, refl, [], ◌∷◌}
use noc_iq_contracts.Base.Int.{pos, negsuc, saturating_mul, saturate, ◌*ℤ◌, div_trunc, neg_ℤ}
use noc_iq_contracts.Effect.{ok, err}
use noc_iq_contracts.Amounts.{
  evaluate_bonus, scaled_credit, incomplete_window, invalid_multiplier, bonus_budget_depleted,
  denied_downtime,
}
use noc_iq_contracts.Amounts.Penalty.{validate_penalty_per_minute, penalty_out_of_bounds}
use noc_iq_contracts.Amounts.Threshold.{validate_threshold_minutes}
use noc_iq_contracts.Amounts.Rating.{classify_sla, top, excel, rating_band, to_symbol}

denials :
    (evaluate_bonus 7 1 100 (pos 100) (pos 500) 10000 9 []
      ≡ (err incomplete_window, denied_downtime 7 1 ∷ []))
    × ((evaluate_bonus 7 0 100 (pos 100) (pos 500) 20001 9 []).0 ≡ err invalid_multiplier)
    × ((evaluate_bonus 7 0 100 (pos 100) (negsuc 0) 10000 9 []).0 ≡ err bonus_budget_depleted)
unfolding evaluate_bonus
denials = (refl, refl, refl)

negative_base : scaled_credit (negsuc 99) 10000 ≡ pos 0
unfolding scaled_credit saturating_mul saturate ◌*ℤ◌ div_trunc neg_ℤ
negative_base = refl

edges :
    (validate_penalty_per_minute (pos 10000) ≡ ok tt)
    × (validate_penalty_per_minute (pos 10001) ≡ err penalty_out_of_bounds)
    × (validate_threshold_minutes 1440 ≡ ok tt)
    × (classify_sla 99 ≡ top)
    × (classify_sla 98 ≡ excel)
    × (to_symbol (rating_band 89) ≡ "viol")
unfolding validate_penalty_per_minute validate_threshold_minutes classify_sla rating_band to_symbol
edges = (refl, refl, refl, refl, refl, refl)
