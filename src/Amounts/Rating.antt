-- ===== src/Amounts/Rating.antt =====
-- The rating of a score (sla_calculator/src/rating.rs).
use noc_iq_contracts.Base.{ℕ, leb, if◌then◌else◌}
use noc_iq_contracts.Types.{Symbol}

pub data SlaRating : Type 0 where
  top excel good viol : SlaRating

unfoldable pub classify_sla : ℕ → SlaRating
classify_sla score =
    if leb 99 score
    then top
    else if leb 95 score
    then excel
    else if leb 90 score
    then good
    else viol

unfoldable pub to_symbol : SlaRating → Symbol
to_symbol top = "top"
to_symbol excel = "excel"
to_symbol good = "good"
to_symbol viol = "viol"

unfoldable pub rating_band : ℕ → SlaRating
unfolding classify_sla
rating_band score = classify_sla score
