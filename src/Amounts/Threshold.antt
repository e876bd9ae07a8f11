-- ===== src/Amounts/Threshold.antt =====
-- The range of a threshold (sla_calculator/src/threshold_bounds.rs).
use noc_iq_contracts.Base.{ℕ, ◌||◌, ltb, if◌then◌else◌}
use noc_iq_contracts.Effect.{Outcome, ok, err}

abbrev pub min_threshold_minutes : ℕ
min_threshold_minutes = 1

abbrev pub max_threshold_minutes : ℕ
max_threshold_minutes = 1440

pub data ThresholdValidationError : Type 0 where
  threshold_out_of_bounds : ThresholdValidationError

unfoldable pub validate_threshold_minutes : ℕ → Outcome ThresholdValidationError (Unit {0})
validate_threshold_minutes threshold_minutes =
    if ltb threshold_minutes min_threshold_minutes || ltb max_threshold_minutes threshold_minutes
    then err threshold_out_of_bounds
    else ok tt
