-- ===== src/Contract/Authority.antt =====
-- Who can move the roles, over all calls of the contract (sla_calculator/src/lib.rs).
pub mod Same
use noc_iq_contracts.Base.{ℕ, ◌≡◌, ◌⊎◌, ◌≤◌, inl, inr, refl, Option, some, none, arith}
use noc_iq_contracts.Types.{Address, Env, PendingProposalInfo}
use noc_iq_contracts.Storage.{Storage, Action, Result, ok, err, panic, commit}
use noc_iq_contracts.Roles.{
  age, set_operator, revoke_operator, renounce_operator, accept_admin, accept_operator,
  renounce_admin, get_pending_admin, get_pending_operator,
}
use noc_iq_contracts.Lifecycle.{initialize}
use noc_iq_contracts.Calc.Submit.{calculate_sla}
use noc_iq_contracts.Batch.{batch_calculate}
use noc_iq_contracts.History.{prune_history_queue}
use noc_iq_contracts.Contract.{
  Call, step, discard, initialize_call, migrate_call, set_operator_call, revoke_operator_call,
  renounce_operator_call, propose_admin_call, accept_admin_call, cancel_admin_proposal_call,
  get_pending_admin_call, get_pending_operator_call, propose_operator_call, accept_operator_call,
  cancel_operator_proposal_call, renounce_admin_call, pause_call, unpause_call, set_config_call,
  import_config_map_call, reset_config_to_defaults_call, prune_history_call,
  prune_history_by_age_call, prune_history_queue_call, set_retention_limit_call,
  set_max_outage_duration_call, set_migration_key_call, execute_migration_call, calculate_sla_call,
  batch_calculate_call,
}
use noc_iq_contracts.Contract.Preserve.{commit-bind_result}

-- A pending proposal of `c` that has not expired.
abbrev pub Proposed : Address → ℕ → Option PendingProposalInfo → Type 0
Proposed c now pending =
    (p : PendingProposalInfo) × (pending ≡ some p) × (p.target ≡ c) × (age now p ≤ 604800)

-- The condition under which a call may move a role: there is no admin yet, the caller is the
-- admin, the operator, or the address of a proposal within its window.
abbrev pub MayMove : Env → Storage → Call → Type 0
MayMove e s (initialize_call a o) = s.admin ≡ none
MayMove e s (accept_admin_call c) = Proposed c e.timestamp s.pending_admin
MayMove e s (accept_operator_call c) = Proposed c e.timestamp s.pending_operator
MayMove e s (renounce_admin_call c) = s.admin ≡ some c
MayMove e s (set_operator_call c o) = s.admin ≡ some c
MayMove e s (revoke_operator_call c) = s.admin ≡ some c
MayMove e s (renounce_operator_call c) = s.operator ≡ some c
MayMove e s _ = ⊥

discard-SameRoles :
    {A : Type 0} (m : Action A) (e : Env) (s : Storage)
    → Same.SameRoles s (commit s (m e s))
    → Same.SameRoles s (commit s (discard m e s))
discard-SameRoles m e s v = rw (commit-bind_result s (m e s) e) v

module _ (e : Env) (s : Storage) where
  accept_admin-moves :
      (c : Address)
      → (MayMove e s (accept_admin_call c)) ⊎ (Same.SameRoles s (commit s (accept_admin c e s)))
  unfolding accept_admin
  accept_admin-moves c = ground arith

  accept_operator-moves :
      (c : Address)
      → (MayMove e s (accept_operator_call c))
        ⊎ (Same.SameRoles s (commit s (accept_operator c e s)))
  unfolding accept_operator
  accept_operator-moves c = ground arith

  initialize-moves :
      (a : Address) (o : Address)
      → (MayMove e s (initialize_call a o)) ⊎ (Same.SameRoles s (commit s (initialize a o e s)))
  unfolding initialize
  initialize-moves a o = ground arith

  renounce_admin-moves :
      (c : Address)
      → (MayMove e s (renounce_admin_call c)) ⊎ (Same.SameRoles s (commit s (renounce_admin c e s)))
  unfolding renounce_admin
  renounce_admin-moves c = ground arith

  renounce_operator-moves :
      (c : Address)
      → (MayMove e s (renounce_operator_call c))
        ⊎ (Same.SameRoles s (commit s (renounce_operator c e s)))
  unfolding renounce_operator
  renounce_operator-moves c = ground arith

  revoke_operator-moves :
      (c : Address)
      → (MayMove e s (revoke_operator_call c))
        ⊎ (Same.SameRoles s (commit s (revoke_operator c e s)))
  unfolding revoke_operator
  revoke_operator-moves c = ground arith

  set_operator-moves :
      (c : Address) (o : Address)
      → (MayMove e s (set_operator_call c o)) ⊎ (Same.SameRoles s (commit s (set_operator c o e s)))
  unfolding set_operator
  set_operator-moves c o = ground arith

-- Every transaction leaves admin and operator as they are, or is one of seven calls under its
-- condition: `initialize` while there is no admin, an acceptance by the target of a proposal at most
-- seven days old, `set_operator`, `revoke_operator` or `renounce_admin` by the admin, or
-- `renounce_operator` by the operator.
pub step-MayMove :
    (e : Env) (c : Call) (s : Storage) → MayMove e s c ⊎ Same.SameRoles s (step e c s)
unfolding step
step-MayMove e (initialize_call a o) s = initialize-moves e s a o
step-MayMove e (migrate_call c) s = inr (Same.migrate-SameRoles e s c)
step-MayMove e (set_operator_call c o) s = set_operator-moves e s c o
step-MayMove e (revoke_operator_call c) s = revoke_operator-moves e s c
step-MayMove e (renounce_operator_call c) s = renounce_operator-moves e s c
step-MayMove e (propose_admin_call c a) s = inr (Same.propose_admin-SameRoles e s c a)
step-MayMove e (accept_admin_call c) s = accept_admin-moves e s c
step-MayMove e (cancel_admin_proposal_call c) s = inr (Same.cancel_admin_proposal-SameRoles e s c)
step-MayMove e get_pending_admin_call s =
    inr (discard-SameRoles (get_pending_admin) e s (Same.get_pending_admin-SameRoles e s))
step-MayMove e get_pending_operator_call s =
    inr (discard-SameRoles (get_pending_operator) e s (Same.get_pending_operator-SameRoles e s))
step-MayMove e (propose_operator_call c o) s = inr (Same.propose_operator-SameRoles e s c o)
step-MayMove e (accept_operator_call c) s = accept_operator-moves e s c
step-MayMove e (cancel_operator_proposal_call c) s =
    inr (Same.cancel_operator_proposal-SameRoles e s c)
step-MayMove e (renounce_admin_call c) s = renounce_admin-moves e s c
step-MayMove e (pause_call c r) s = inr (Same.pause-SameRoles e s c r)
step-MayMove e (unpause_call c) s = inr (Same.unpause-SameRoles e s c)
step-MayMove e (set_config_call c k new) s = inr (Same.set_config-SameRoles e s c k new)
step-MayMove e (import_config_map_call c m) s = inr (Same.import_config_map-SameRoles e s c m)
step-MayMove e (reset_config_to_defaults_call c) s =
    inr (Same.reset_config_to_defaults-SameRoles e s c)
step-MayMove e (prune_history_call c n) s = inr (Same.prune_history-SameRoles e s c n)
step-MayMove e (prune_history_by_age_call c n) s = inr (Same.prune_history_by_age-SameRoles e s c n)
step-MayMove e (prune_history_queue_call c) s =
    inr (discard-SameRoles (prune_history_queue c) e s (Same.prune_history_queue-SameRoles e s c))
step-MayMove e (set_retention_limit_call c n) s = inr (Same.set_retention_limit-SameRoles e s c n)
step-MayMove e (set_max_outage_duration_call c n) s =
    inr (Same.set_max_outage_duration-SameRoles e s c n)
step-MayMove e (set_migration_key_call c a) s = inr (Same.set_migration_key-SameRoles e s c a)
step-MayMove e (execute_migration_call c) s = inr (Same.execute_migration-SameRoles e s c)
step-MayMove e (calculate_sla_call c i k m) s =
    inr (discard-SameRoles (calculate_sla c i k m) e s (Same.calculate_sla-SameRoles e s c i k m))
step-MayMove e (batch_calculate_call c reqs) s =
    inr (discard-SameRoles (batch_calculate c reqs) e s (Same.batch_calculate-SameRoles e s c reqs))
