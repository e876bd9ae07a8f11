-- ===== src/Contract/Preserve.antt =====
-- The invariant under each call of the contract (sla_calculator/src/lib.rs).
mod Roles
mod Lifecycle
mod Config
mod History
mod Calc
use noc_iq_contracts.Base.{◌≡◌, refl}
use noc_iq_contracts.Types.{Env}
use noc_iq_contracts.Storage.{
  Storage, Action, Result, ok, err, panic, commit, bind_result, empty_storage,
}
use noc_iq_contracts.Contract
use noc_iq_contracts.Contract.{Call, step, exec, discard, Reach}
use noc_iq_contracts.Contract.Invariant.{Inv, empty_storage-Inv}
use noc_iq_contracts.Contract.{
  initialize_call, migrate_call, set_operator_call, revoke_operator_call, renounce_operator_call,
  propose_admin_call, accept_admin_call, cancel_admin_proposal_call, get_pending_admin_call,
  get_pending_operator_call, propose_operator_call, accept_operator_call,
  cancel_operator_proposal_call, renounce_admin_call, pause_call, unpause_call, set_config_call,
  import_config_map_call, reset_config_to_defaults_call, prune_history_call,
  prune_history_by_age_call, prune_history_queue_call, set_retention_limit_call,
  set_max_outage_duration_call, set_migration_key_call, execute_migration_call, calculate_sla_call,
  batch_calculate_call,
}
use noc_iq_contracts.Roles.{get_pending_admin, get_pending_operator}
use noc_iq_contracts.Calc.Submit.{calculate_sla}
use noc_iq_contracts.Batch.{batch_calculate}
use noc_iq_contracts.History.{prune_history_queue}
use noc_iq_contracts.Contract.{here, next}

pub commit-bind_result :
    {A : Type 0} (s : Storage) (r : Result A × Storage) (e : Env)
    → commit s (bind_result r (λ _ e' u. (ok tt, u)) e) ≡ commit s r
commit-bind_result s (ok a, t) e = refl
commit-bind_result s (err x, t) e = refl
commit-bind_result s (panic, t) e = refl

-- What a call returns does not matter for the storage that is kept.
discard-Inv :
    {A : Type 0} (m : Action A) (e : Env) (s : Storage)
    → Inv (commit s (m e s))
    → Inv (commit s (discard m e s))
discard-Inv m e s v = rw (commit-bind_result s (m e s) e) v

-- Every transaction keeps the invariant: the retention limit is between 50 and 5000, the history
-- within 5000 entries and no longer than the number of calculations, no more violations than
-- calculations and the latter a u64, a pause comes with its reason, and the cap on the duration is
-- above 0.
pub step-Inv : (e : Env) (c : Call) (s : Storage) → Inv s → Inv (step e c s)
unfolding step
step-Inv e (initialize_call a o) s v = Lifecycle.initialize-Inv e s v a o
step-Inv e (migrate_call c) s v = Lifecycle.migrate-Inv e s v c
step-Inv e (set_operator_call c o) s v = Roles.set_operator-Inv e s v c o
step-Inv e (revoke_operator_call c) s v = Roles.revoke_operator-Inv e s v c
step-Inv e (renounce_operator_call c) s v = Roles.renounce_operator-Inv e s v c
step-Inv e (propose_admin_call c a) s v = Roles.propose_admin-Inv e s v c a
step-Inv e (accept_admin_call c) s v = Roles.accept_admin-Inv e s v c
step-Inv e (cancel_admin_proposal_call c) s v = Roles.cancel_admin_proposal-Inv e s v c
step-Inv e get_pending_admin_call s v =
    discard-Inv (get_pending_admin) e s (Roles.get_pending_admin-Inv e s v)
step-Inv e get_pending_operator_call s v =
    discard-Inv (get_pending_operator) e s (Roles.get_pending_operator-Inv e s v)
step-Inv e (propose_operator_call c o) s v = Roles.propose_operator-Inv e s v c o
step-Inv e (accept_operator_call c) s v = Roles.accept_operator-Inv e s v c
step-Inv e (cancel_operator_proposal_call c) s v = Roles.cancel_operator_proposal-Inv e s v c
step-Inv e (renounce_admin_call c) s v = Roles.renounce_admin-Inv e s v c
step-Inv e (pause_call c r) s v = Lifecycle.pause-Inv e s v c r
step-Inv e (unpause_call c) s v = Lifecycle.unpause-Inv e s v c
step-Inv e (set_config_call c k new) s v = Config.set_config-Inv e s v c k new
step-Inv e (import_config_map_call c m) s v = Config.import_config_map-Inv e s v c m
step-Inv e (reset_config_to_defaults_call c) s v = Config.reset_config_to_defaults-Inv e s v c
step-Inv e (prune_history_call c n) s v = History.prune_history-Inv e s v c n
step-Inv e (prune_history_by_age_call c n) s v = History.prune_history_by_age-Inv e s v c n
step-Inv e (prune_history_queue_call c) s v =
    discard-Inv (prune_history_queue c) e s (History.prune_history_queue-Inv e s v c)
step-Inv e (set_retention_limit_call c n) s v = History.set_retention_limit-Inv e s v c n
step-Inv e (set_max_outage_duration_call c n) s v = History.set_max_outage_duration-Inv e s v c n
step-Inv e (set_migration_key_call c a) s v = Lifecycle.set_migration_key-Inv e s v c a
step-Inv e (execute_migration_call c) s v = Lifecycle.execute_migration-Inv e s v c
step-Inv e (calculate_sla_call c i k m) s v =
    discard-Inv (calculate_sla c i k m) e s (Calc.calculate_sla-Inv e s v c i k m)
step-Inv e (batch_calculate_call c reqs) s v =
    discard-Inv (batch_calculate c reqs) e s (Calc.batch_calculate-Inv e s v c reqs)

-- In every storage that transactions lead to from the empty one, the retention limit is between 50
-- and 5000, the history within 5000 entries and no longer than the number of calculations, no more
-- violations than calculations and the latter a u64, a pause comes with its reason, and the cap on the
-- duration is above 0.
pub Reach-Inv : {s : Storage} → Reach empty_storage s → Inv s
Reach-Inv here = empty_storage-Inv
Reach-Inv (next {t = t} e c r) = step-Inv e c t (Reach-Inv r)
