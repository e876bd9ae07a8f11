-- ===== src/Resolution/Tests.antt =====
-- An outage that is detected and resolved (sla_calculator/src/resolution_delay.rs), and the theorems
-- at these inputs.
use noc_iq_contracts.Base.{◌≡◌, refl, some, []}
use noc_iq_contracts.Types.{lookup, insert}
use noc_iq_contracts.Effect.{ok, err}
use noc_iq_contracts.Effect.Reach.{here, next}
use noc_iq_contracts.Resolution.{
  ResolutionStore, detect_order, resolve_order, run_order, mark_detected, mark_resolved,
  pending_delay, delay_too_large, sequence_regressed,
}
use noc_iq_contracts.Resolution.Once.{IsConsistent, resolution_record-IsConsistent}

abbrev no_outages : ResolutionStore
no_outages = record { state_map = []; record_map = []; events = [] }

abbrev detected_at_100 : ResolutionStore
detected_at_100 = run_order 100 (detect_order "o1" 100) no_outages

-- An outage of more than a day stays pending, whatever later time its resolution names.
too_late :
    ((mark_resolved "o1" 86501 86501 detected_at_100).0 ≡ err delay_too_large)
    × ((mark_resolved "o1" 99 86501 detected_at_100).0 ≡ err sequence_regressed)
    × (pending_delay "o1" 90000 detected_at_100 ≡ some 86400)
unfolding mark_resolved mark_detected pending_delay lookup insert
too_late = (refl, refl, refl)

resolved_in_time : (mark_resolved "o1" 400 400 detected_at_100).0 ≡ ok 300
unfolding mark_resolved mark_detected lookup insert
resolved_in_time = refl

resolution_record-IsConsistent_example :
    IsConsistent "o1" (run_order 400 (resolve_order "o1" 400) detected_at_100)
resolution_record-IsConsistent_example =
    resolution_record-IsConsistent "o1" no_outages refl refl
      (next 400 (resolve_order "o1" 400) (next 100 (detect_order "o1" 100) here))
