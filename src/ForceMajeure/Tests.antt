-- ===== src/ForceMajeure/Tests.antt =====
-- An excused outage (sla_calculator/src/force_majeure.rs).
use noc_iq_contracts.Base.{◌≡◌, refl, some, []}
use noc_iq_contracts.Types.{lookup, insert}
use noc_iq_contracts.ForceMajeure.{
  ExcuseStore, outage, record_order, close_order, run_order, record_force_majeure,
  close_force_majeure, apply_penalty_bps,
}

abbrev no_records : ExcuseStore
no_records = record { admin = some 1; records = []; events = [] }

-- Excused from 1000 to 5000, with a residual penalty of half, and closed at 6000.
abbrev closed_outage : ExcuseStore
closed_outage =
    run_order 6000 (close_order 1 "o1" 6000)
      (run_order 1000 (record_order 1 "o1" outage 1000 5000 "storm" 5000) no_records)

-- The residual penalty is stored, and the penalty is waived all the same.
residual_ignored : apply_penalty_bps "o1" 300 2000 closed_outage ≡ 0
unfolding apply_penalty_bps record_force_majeure close_force_majeure lookup insert
residual_ignored = refl
