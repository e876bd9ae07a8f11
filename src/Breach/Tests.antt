-- ===== src/Breach/Tests.antt =====
-- Breaches of two providers (sla_calculator/src/breach_escalation.rs), and the theorem at this
-- input.
use noc_iq_contracts.Base.{ℕ, ◌≡◌, refl, some, none, List, [], ◌∷◌, arith}
use noc_iq_contracts.Types.{Address}
use noc_iq_contracts.AddressMap.{get, set}
use noc_iq_contracts.Effect.{err}
use noc_iq_contracts.Breach.{
  BreachStore, breach_order, level_order, run_order, breach_count, record_breach, zero_penalty,
  penalty_out_of_range, escalation_factor_bps, effective_penalty_bps, set_max_escalation_level,
}
use noc_iq_contracts.Breach.Strikes.{accepted, record_all, strikes_saturate}

abbrev no_breaches : BreachStore
no_breaches = record { breach_map = []; max_level = none; events = [] }

abbrev level_two : BreachStore
level_two = record no_breaches { max_level = some 2 }

-- Four breaches of provider 7, one without a penalty, and one of provider 8.
abbrev breaches : List (Address × (ℕ × ℕ))
breaches = (7, (500, 1)) ∷ (8, (500, 2)) ∷ (7, (0, 3)) ∷ (7, (500, 4)) ∷ (7, (500, 5)) ∷ []

factors :
    (escalation_factor_bps 0 ≡ 10000)
    × (escalation_factor_bps 3 ≡ 14000)
    × (escalation_factor_bps 99 ≡ 28000)
unfolding escalation_factor_bps
factors = (refl, refl, refl)

refused :
    ((record_breach 7 0 1 1 no_breaches).0 ≡ err zero_penalty)
    × ((record_breach 7 20001 1 1 no_breaches).0 ≡ err penalty_out_of_range)
unfolding record_breach
refused = (refl, refl)

-- The level is lowered under the strikes: the next breach brings them down to it.
lowered :
    breach_count 7 (
      run_order 9
        (breach_order 7 500 9)
        (run_order 8 (level_order 1) (record_all breaches no_breaches)))
    ≡ 1
unfolding get set record_breach set_max_escalation_level record_all escalation_factor_bps
    effective_penalty_bps
lowered = refl

strikes_saturate_example : breach_count 7 (record_all breaches level_two) ≡ 2
unfolding get accepted
strikes_saturate_example = strikes_saturate 7 breaches level_two (omega arith) (omega arith)
