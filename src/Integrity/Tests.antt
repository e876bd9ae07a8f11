-- ===== src/Integrity/Tests.antt =====
-- The check where the persistent storage is empty (sla_calculator/src/state_integrity.rs).
use noc_iq_contracts.Base.{◌≡◌, ◌↔◌, refl, true, false, none, some, [], ◌∷◌}
use noc_iq_contracts.Storage.{Storage, empty_storage}
use noc_iq_contracts.Fixtures.{at_time}
use noc_iq_contracts.Contract.{step, here, next, initialize_call, calculate_sla_call}
use noc_iq_contracts.Integrity.{
  Persistent, missing_key, integrity_check, is_healthy, orphaned_history_entries, has,
  collect_missing, collect_version_issues, expected_schema_version,
}
use noc_iq_contracts.Integrity.Orphans.{integrity_check-reached}

-- The entry points of lib.rs write the instance storage only.
abbrev untouched : Persistent
untouched = record { config = false; stats = false; history = false; version = none }

abbrev initialised : Storage
initialised = step (at_time 1000) (initialize_call 1 2) empty_storage

abbrev submitted : Storage
submitted = step (at_time 2000) (calculate_sla_call 2 "o1" "critical" 10) initialised

four_missing :
    (integrity_check untouched empty_storage).issues
    ≡ missing_key ∷ missing_key ∷ missing_key ∷ missing_key ∷ []
unfolding integrity_check collect_missing collect_version_issues has orphaned_history_entries
four_missing = refl

integrity_check-reached_example :
    (orphaned_history_entries submitted ≡ 0)
    × ((is_healthy (integrity_check untouched submitted) ≡ true) ↔ (
        (false ≡ true) × (false ≡ true) × (false ≡ true) × (none ≡ some expected_schema_version)))
integrity_check-reached_example = integrity_check-reached untouched (
    next (at_time 2000) (calculate_sla_call 2 "o1" "critical" 10)
      (next (at_time 1000) (initialize_call 1 2) here))
