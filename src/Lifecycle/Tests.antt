-- ===== src/Lifecycle/Tests.antt =====
-- Revocation, renouncing and the emergency migration on the initialised storage.
use noc_iq_contracts.Base.{◌≡◌, refl, some, []}
use noc_iq_contracts.Storage.{Storage, ok}
use noc_iq_contracts.Fixtures.{at_time, ready}
use noc_iq_contracts.Roles.{revoke_operator, renounce_admin}
use noc_iq_contracts.Lifecycle.{initialize, execute_migration, zero_stats}
use noc_iq_contracts.Lifecycle.Locks.{renounce_admin-initialize}

abbrev revoked : Storage
revoked = (revoke_operator 1 (at_time 2000) ready).1

revokes : revoke_operator 1 (at_time 2000) ready ≡ (ok tt, revoked)
unfolding revoke_operator
revokes = refl

abbrev renounced : Storage
renounced = (renounce_admin 1 (at_time 2000) ready).1

renounces : renounce_admin 1 (at_time 2000) ready ≡ (ok tt, renounced)
unfolding renounce_admin
renounces = refl

-- Address 66, a stranger, takes the contract over.
renounce_admin-initialize_example :
    let (r, u) = initialize 66 67 (at_time 3000) renounced in
    (r ≡ ok tt)
    × (u.admin ≡ some 66)
    × (u.operator ≡ some 67)
    × (u.history ≡ some [])
    × (u.stats ≡ some zero_stats)
renounce_admin-initialize_example =
    renounce_admin-initialize 1 66 67 (at_time 2000) (at_time 3000) ready renounced renounces

-- The migration key was set at time 2000.
abbrev keyed : Storage
keyed = record ready { migration_key = some 9; migration_time = some 2000 }

abbrev migrated : Storage
migrated = (execute_migration 9 (at_time 1211600) keyed).1

migrates : execute_migration 9 (at_time 1211600) keyed ≡ (ok tt, migrated)
unfolding execute_migration
migrates = refl
