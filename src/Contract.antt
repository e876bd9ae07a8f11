-- ===== src/Contract.antt =====
-- The contract as a state machine: every entry point that can change the storage is a call, and a
-- transaction runs one call and keeps its effects only if it returns `Ok` (sla_calculator/src/lib.rs).
pub mod Invariant
pub mod Preserve
pub mod Authority
mod Tests
use noc_iq_contracts.Base.{ℕ, Bool, true, false, String, List, Option, some, none}
use noc_iq_contracts.Types.{Address, Symbol, SlaConfig, ConfigMap, Env}
use noc_iq_contracts.Storage.{Storage, Action, ok, err, panic, ◌>>=◌, ◌>>◌, pure, commit}
use noc_iq_contracts.Roles.{
  set_operator, revoke_operator, renounce_operator, propose_admin, accept_admin,
  cancel_admin_proposal, get_pending_admin, get_pending_operator, propose_operator, accept_operator,
  cancel_operator_proposal, renounce_admin,
}
use noc_iq_contracts.Lifecycle.{
  initialize, migrate, set_migration_key, execute_migration, pause, unpause,
}
use noc_iq_contracts.Config.Update.{set_config, import_config_map, reset_config_to_defaults}
use noc_iq_contracts.Calc.Submit.{calculate_sla}
use noc_iq_contracts.History.{
  prune_history, prune_history_by_age, prune_history_queue, set_retention_limit,
  set_max_outage_duration,
}
use noc_iq_contracts.Batch.{BatchRequest, batch_calculate}

-- The calls, with their arguments; the caller stands first.
pub data Call : Type 0 where
  initialize_call : Address → Address → Call
  migrate_call : Address → Call
  set_operator_call : Address → Address → Call
  revoke_operator_call : Address → Call
  renounce_operator_call : Address → Call
  propose_admin_call : Address → Address → Call
  accept_admin_call : Address → Call
  cancel_admin_proposal_call : Address → Call
  get_pending_admin_call : Call
  get_pending_operator_call : Call
  propose_operator_call : Address → Address → Call
  accept_operator_call : Address → Call
  cancel_operator_proposal_call : Address → Call
  renounce_admin_call : Address → Call
  pause_call : Address → String → Call
  unpause_call : Address → Call
  set_config_call : Address → Symbol → SlaConfig → Call
  import_config_map_call : Address → ConfigMap → Call
  reset_config_to_defaults_call : Address → Call
  calculate_sla_call : Address → Symbol → Symbol → ℕ → Call
  batch_calculate_call : Address → List BatchRequest → Call
  prune_history_call : Address → ℕ → Call
  prune_history_by_age_call : Address → ℕ → Call
  prune_history_queue_call : Address → Call
  set_retention_limit_call : Address → ℕ → Call
  set_max_outage_duration_call : Address → ℕ → Call
  set_migration_key_call : Address → Address → Call
  execute_migration_call : Address → Call

abbrev pub discard : {A : Type 0} → Action A → Action (Unit {0})
discard m = m >> pure tt

unfoldable pub exec : Call → Action (Unit {0})
exec (initialize_call a o) = initialize a o
exec (migrate_call c) = migrate c
exec (set_operator_call c o) = set_operator c o
exec (revoke_operator_call c) = revoke_operator c
exec (renounce_operator_call c) = renounce_operator c
exec (propose_admin_call c a) = propose_admin c a
exec (accept_admin_call c) = accept_admin c
exec (cancel_admin_proposal_call c) = cancel_admin_proposal c
exec get_pending_admin_call = discard get_pending_admin
exec get_pending_operator_call = discard get_pending_operator
exec (propose_operator_call c o) = propose_operator c o
exec (accept_operator_call c) = accept_operator c
exec (cancel_operator_proposal_call c) = cancel_operator_proposal c
exec (renounce_admin_call c) = renounce_admin c
exec (pause_call c r) = pause c r
exec (unpause_call c) = unpause c
exec (set_config_call c k cfg) = set_config c k cfg
exec (import_config_map_call c m) = import_config_map c m
exec (reset_config_to_defaults_call c) = reset_config_to_defaults c
exec (calculate_sla_call c i k m) = discard (calculate_sla c i k m)
exec (batch_calculate_call c reqs) = discard (batch_calculate c reqs)
exec (prune_history_call c n) = prune_history c n
exec (prune_history_by_age_call c n) = prune_history_by_age c n
exec (prune_history_queue_call c) = discard (prune_history_queue c)
exec (set_retention_limit_call c n) = set_retention_limit c n
exec (set_max_outage_duration_call c n) = set_max_outage_duration c n
exec (set_migration_key_call c a) = set_migration_key c a
exec (execute_migration_call c) = execute_migration c

-- One transaction: the host rolls back a call that fails.
unfoldable pub step : Env → Call → Storage → Storage
unfolding exec
step e c s = commit s (exec c e s)

-- What transactions can lead to, each at a ledger of its own.
pub data Reach (s : Storage) : Storage → Type 0 where
  here : Reach s s
  next : {t : Storage} (e : Env) (c : Call) → Reach s t → Reach s (step e c t)
