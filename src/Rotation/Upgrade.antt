-- ===== src/Rotation/Upgrade.antt =====
-- The upgrade of the stored version (sla_calculator/src/upgrade_path.rs).
use noc_iq_contracts.Base.{
  ℕ, ◌+◌, ◌≤◌, ◌≡◌, ◌++◌, some, [], ◌∷◌, List, refl, length-append, if◌then◌else◌, unwrap_or, arith,
}
use noc_iq_contracts.Types.{Address}
use noc_iq_contracts.Guards.{storage_version}
use noc_iq_contracts.Effect.{ok}
use noc_iq_contracts.Rotation.{
  KeyStore, UpgradeRecord, upgrade_record, last_of, perform_upgrade, upgrade_available,
  get_upgrade_count, get_last_upgrade,
}

last_of-append : (xs : List UpgradeRecord) (x : UpgradeRecord) → last_of (xs ++ (x ∷ [])) ≡ some x
last_of-append [] x = refl
last_of-append (y ∷ []) x = refl
last_of-append (y ∷ z ∷ xs) x = last_of-append (z ∷ xs) x

-- For the admin and a stored version of at most 1 (an absent one counts as 0), `perform_upgrade`
-- succeeds and leaves version 1; the log has one entry more exactly if an upgrade was available,
-- and that entry is then the last; a second call changes nothing.
pub perform_upgrade_twice :
    (caller : Address) (now later : ℕ) (s : KeyStore)
    → s.admin ≡ some caller
    → unwrap_or s.version 0 ≤ storage_version
    → let t = (perform_upgrade caller now s).1 in
      ((perform_upgrade caller now s).0 ≡ ok tt)
      × (t.version ≡ some storage_version)
      × (get_upgrade_count t ≡ get_upgrade_count s + (if upgrade_available s then 1 else 0))
      × (get_last_upgrade t ≡ (
          if upgrade_available s
          then some (upgrade_record (unwrap_or s.version 0) now caller)
          else get_last_upgrade s))
      × (perform_upgrade caller later t ≡ (ok tt, t))
unfolding perform_upgrade upgrade_available get_upgrade_count get_last_upgrade
perform_upgrade_twice caller now later s owner low =
    let entry = upgrade_record (unwrap_or s.version 0) now caller in
    ground (arith, length-append {0} s.upgrade_log (entry ∷ []), last_of-append s.upgrade_log entry)
