-- ===== src/Lifecycle/Locks.antt =====
-- The contract after revocation, renouncing and the emergency migration
-- (sla_calculator/src/lib.rs).
use noc_iq_contracts.Base.{ℕ, ◌≡◌, ◌≢◌, some, true, false, [], arith, unwrap_or}
use noc_iq_contracts.Types.{Address, Symbol, Env, not_initialized, version_mismatch}
use noc_iq_contracts.Storage.{Storage, ok, err}
use noc_iq_contracts.Guards.{check_version}
use noc_iq_contracts.Config.Severity.{is_canonical_severity}
use noc_iq_contracts.Roles.{revoke_operator, renounce_admin}
use noc_iq_contracts.Lifecycle.{initialize, migrate, execute_migration, zero_stats}
use noc_iq_contracts.Calc.Submit.{calculate_sla, authorize}

-- After the admin revoked the operator, a submission with a canonical severity to the running
-- contract fails for every caller, with `NotInitialized`.
pub revoke_operator-calculate_sla :
    (c caller : Address) (i k : Symbol) (mttr : ℕ) (e later : Env) (s t : Storage)
    → revoke_operator c e s ≡ (ok tt, t)
    → is_canonical_severity k ≡ true
    → unwrap_or s.paused false ≡ false
    → calculate_sla caller i k mttr later t ≡ (err not_initialized, t)
unfolding revoke_operator calculate_sla authorize
revoke_operator-calculate_sla c caller i k mttr e later s t h canonical running = ground arith

-- After the admin renounced, whoever calls `initialize` becomes the admin, and the history and the
-- statistics start afresh.
pub renounce_admin-initialize :
    (c admin operator : Address) (e later : Env) (s t : Storage)
    → renounce_admin c e s ≡ (ok tt, t)
    → let (r, u) = initialize admin operator later t in
      (r ≡ ok tt)
      × (u.admin ≡ some admin)
      × (u.operator ≡ some operator)
      × (u.history ≡ some [])
      × (u.stats ≡ some zero_stats)
unfolding renounce_admin initialize
renounce_admin-initialize c admin operator e later s t h = ground arith

-- An emergency migration that succeeds leaves storage version 2, at which the version check
-- fails, and `migrate`, the way back, refuses every caller.
execute_migration_locks :
    (c caller : Address) (e later : Env) (s t : Storage)
    → execute_migration c e s ≡ (ok tt, t)
    → (t.version ≡ some 2)
      × (check_version later t ≡ (err version_mismatch, t))
      × ((migrate caller later t).0 ≢ ok tt)
      × ((migrate caller later t).1 ≡ t)
unfolding execute_migration check_version migrate
execute_migration_locks c caller e later s t h = ground arith
