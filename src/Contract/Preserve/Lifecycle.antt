-- ===== src/Contract/Preserve/Lifecycle.antt =====
-- The invariant under initialisation, migration and pausing (sla_calculator/src/lib.rs).
use noc_iq_contracts.Base.{arith, String}
use noc_iq_contracts.Types.{Address, Env}
use noc_iq_contracts.Storage.{Storage, commit}
use noc_iq_contracts.Calc.Submit.{max_duration}
use noc_iq_contracts.Lifecycle.{
  initialize, migrate, pause, unpause, set_migration_key, execute_migration,
}
use noc_iq_contracts.Contract.Invariant.{Inv}

module _ (e : Env) (s : Storage) (v : Inv s) where
  pub initialize-Inv : (a : Address) (o : Address) → Inv (commit s (initialize a o e s))
  unfolding initialize max_duration
  initialize-Inv a o = ground (arith, v)

  pub migrate-Inv : (c : Address) → Inv (commit s (migrate c e s))
  unfolding migrate max_duration
  migrate-Inv c = ground (arith, v)

  pub pause-Inv : (c : Address) (r : String) → Inv (commit s (pause c r e s))
  unfolding pause max_duration
  pause-Inv c r = ground (arith, v)

  pub unpause-Inv : (c : Address) → Inv (commit s (unpause c e s))
  unfolding unpause max_duration
  unpause-Inv c = ground (arith, v)

  pub set_migration_key-Inv :
      (c : Address) (a : Address) → Inv (commit s (set_migration_key c a e s))
  unfolding set_migration_key max_duration
  set_migration_key-Inv c a = ground (arith, v)

  pub execute_migration-Inv : (c : Address) → Inv (commit s (execute_migration c e s))
  unfolding execute_migration max_duration
  execute_migration-Inv c = ground (arith, v)
