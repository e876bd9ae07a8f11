-- ===== src/Integrity/Orphans.antt =====
-- What the check says of the contract (sla_calculator/src/state_integrity.rs, lib.rs).
use noc_iq_contracts.Base.{◌≡◌, ◌↔◌, true, some, arith}
use noc_iq_contracts.Storage.{Storage, empty_storage}
use noc_iq_contracts.Contract.{Reach}
use noc_iq_contracts.Contract.Invariant.{Inv}
use noc_iq_contracts.Contract.Preserve.{Reach-Inv}
use noc_iq_contracts.Integrity.{
  Persistent, has, collect_missing, collect_version_issues, orphaned_history_entries,
  integrity_check, expected_schema_version, is_healthy,
}

-- Each history entry of a storage with the invariant is counted.
no_orphans : (s : Storage) → Inv s → orphaned_history_entries s ≡ 0
unfolding orphaned_history_entries
no_orphans s v = ground (arith, v.matched, v.bounded)

-- In every storage that transactions lead to from the empty one there is no history entry that the
-- counter of calculations does not account for, so the check reports the contract as healthy exactly
-- if the persistent storage has the three keys CONFIG, STATS and HIST, and the expected version
-- under VER.
pub integrity_check-reached :
    (p : Persistent) {s : Storage}
    → Reach empty_storage s
    → (orphaned_history_entries s ≡ 0)
      × ((is_healthy (integrity_check p s) ≡ true) ↔ (
          (p.config ≡ true)
          × (p.stats ≡ true)
          × (p.history ≡ true)
          × (p.version ≡ some expected_schema_version)))
unfolding integrity_check collect_missing collect_version_issues has
integrity_check-reached p {s} path =
    let none_left = no_orphans s (Reach-Inv path) in (none_left, ground (arith, none_left))
