-- ===== src/Amounts/Penalty.antt =====
-- The range of a penalty (sla_calculator/src/penalty_bounds.rs).
use noc_iq_contracts.Base.{◌||◌, if◌then◌else◌}
use noc_iq_contracts.Base.Int.{ℤ, pos, ltb_ℤ}
use noc_iq_contracts.Effect.{Outcome, ok, err}

abbrev pub min_penalty_per_minute : ℤ
min_penalty_per_minute = pos 1

abbrev pub max_penalty_per_minute : ℤ
max_penalty_per_minute = pos 10000

pub data PenaltyValidationError : Type 0 where
  penalty_out_of_bounds : PenaltyValidationError

unfoldable pub validate_penalty_per_minute : ℤ → Outcome PenaltyValidationError (Unit {0})
validate_penalty_per_minute penalty_per_minute =
    if ltb_ℤ penalty_per_minute min_penalty_per_minute
      || ltb_ℤ max_penalty_per_minute penalty_per_minute
    then err penalty_out_of_bounds
    else ok tt

unfoldable pub penalty_bounds : ℤ × ℤ
penalty_bounds = (min_penalty_per_minute, max_penalty_per_minute)
