-- ===== src/Contract/Authority/Same.antt =====
-- The roles under the calls that concern other things (sla_calculator/src/lib.rs).
use noc_iq_contracts.Base.{ℕ, String, ◌≡◌, refl, none, arith, List, inl, inr, Option-cases}
use noc_iq_contracts.Types.{Address, Symbol, SlaConfig, SlaResult, ConfigMap, Env}
use noc_iq_contracts.Storage.{Storage, Result, ok, err, panic, commit}
use noc_iq_contracts.Lifecycle.{migrate, pause, unpause, set_migration_key, execute_migration}
use noc_iq_contracts.Roles.{
  propose_admin, cancel_admin_proposal, get_pending_admin, get_pending_operator, propose_operator,
  cancel_operator_proposal,
}
use noc_iq_contracts.Config.Update.{import_config_map, reset_config_to_defaults, set_config}
use noc_iq_contracts.History.{
  prune_history, prune_history_by_age, prune_history_queue, set_retention_limit,
  set_max_outage_duration,
}
use noc_iq_contracts.Config.Frame.{validate_config-same}
use noc_iq_contracts.Calc.Submit.{calculate_sla, finish, resubmit, latest, stored_history}
use noc_iq_contracts.Calc.Access.{after_cap, after_record, finish_fresh, calculate_sla-parts}
use noc_iq_contracts.Batch.{BatchRequest, Tally, batch_calculate}
use noc_iq_contracts.Batch.Effect.{after_batch, batch_calculate-ok}

-- Admin and operator are the same in both.
pub record SameRoles (s t : Storage) : Type 0 where
  pub same_admin : t.admin ≡ s.admin
  pub same_operator : t.operator ≡ s.operator

module _ (e : Env) (s : Storage) where
  pub migrate-SameRoles : (c : Address) → SameRoles s (commit s (migrate c e s))
  unfolding migrate
  migrate-SameRoles c = ground arith

  pub propose_admin-SameRoles :
      (c : Address) (a : Address) → SameRoles s (commit s (propose_admin c a e s))
  unfolding propose_admin
  propose_admin-SameRoles c a = ground arith

  pub cancel_admin_proposal-SameRoles :
      (c : Address) → SameRoles s (commit s (cancel_admin_proposal c e s))
  unfolding cancel_admin_proposal
  cancel_admin_proposal-SameRoles c = ground arith

  pub get_pending_admin-SameRoles : SameRoles s (commit s (get_pending_admin e s))
  unfolding get_pending_admin
  get_pending_admin-SameRoles = ground arith

  pub get_pending_operator-SameRoles : SameRoles s (commit s (get_pending_operator e s))
  unfolding get_pending_operator
  get_pending_operator-SameRoles = ground arith

  pub propose_operator-SameRoles :
      (c : Address) (o : Address) → SameRoles s (commit s (propose_operator c o e s))
  unfolding propose_operator
  propose_operator-SameRoles c o = ground arith

  pub cancel_operator_proposal-SameRoles :
      (c : Address) → SameRoles s (commit s (cancel_operator_proposal c e s))
  unfolding cancel_operator_proposal
  cancel_operator_proposal-SameRoles c = ground arith

  pub pause-SameRoles : (c : Address) (r : String) → SameRoles s (commit s (pause c r e s))
  unfolding pause
  pause-SameRoles c r = ground arith

  pub unpause-SameRoles : (c : Address) → SameRoles s (commit s (unpause c e s))
  unfolding unpause
  unpause-SameRoles c = ground arith

  pub import_config_map-SameRoles :
      (c : Address) (m : ConfigMap) → SameRoles s (commit s (import_config_map c m e s))
  unfolding import_config_map
  import_config_map-SameRoles c m = ground arith

  pub reset_config_to_defaults-SameRoles :
      (c : Address) → SameRoles s (commit s (reset_config_to_defaults c e s))
  unfolding reset_config_to_defaults
  reset_config_to_defaults-SameRoles c = ground arith

  pub prune_history-SameRoles :
      (c : Address) (n : ℕ) → SameRoles s (commit s (prune_history c n e s))
  unfolding prune_history
  prune_history-SameRoles c n = ground arith

  pub prune_history_by_age-SameRoles :
      (c : Address) (n : ℕ) → SameRoles s (commit s (prune_history_by_age c n e s))
  unfolding prune_history_by_age
  prune_history_by_age-SameRoles c n = ground arith

  pub prune_history_queue-SameRoles :
      (c : Address) → SameRoles s (commit s (prune_history_queue c e s))
  unfolding prune_history_queue
  prune_history_queue-SameRoles c = ground arith

  pub set_retention_limit-SameRoles :
      (c : Address) (n : ℕ) → SameRoles s (commit s (set_retention_limit c n e s))
  unfolding set_retention_limit
  set_retention_limit-SameRoles c n = ground arith

  pub set_max_outage_duration-SameRoles :
      (c : Address) (n : ℕ) → SameRoles s (commit s (set_max_outage_duration c n e s))
  unfolding set_max_outage_duration
  set_max_outage_duration-SameRoles c n = ground arith

  pub set_migration_key-SameRoles :
      (c : Address) (a : Address) → SameRoles s (commit s (set_migration_key c a e s))
  unfolding set_migration_key
  set_migration_key-SameRoles c a = ground arith

  pub execute_migration-SameRoles : (c : Address) → SameRoles s (commit s (execute_migration c e s))
  unfolding execute_migration
  execute_migration-SameRoles c = ground arith

  pub set_config-SameRoles :
      (c : Address) (k : Symbol) (new : SlaConfig) → SameRoles s (commit s (set_config c k new e s))
  unfolding set_config
  set_config-SameRoles c k new = elim (Option-cases s.config) [
    | inl p ↦ ground arith
    | inr (m, p) ↦ ground (
      arith,
      validate_config-same k new.threshold_minutes new.penalty_per_minute new.reward_base m e s,
    )
  ]

after_cap-SameRoles :
    (c : Address) (i : Symbol) (m : ℕ) (s : Storage) → SameRoles s (after_cap c i m s)
unfolding after_cap
after_cap-SameRoles c i m s = ground arith

after_record-SameRoles :
    (k : Symbol) (r : SlaResult) (s : Storage) → SameRoles s (after_record k r s)
unfolding after_record
after_record-SameRoles k r s = ground arith

after_batch-SameRoles :
    (c : Address) (reqs : List BatchRequest) (t : Tally) (s : Storage)
    → SameRoles s (after_batch c reqs t s)
unfolding after_batch
after_batch-SameRoles c reqs t s = ground arith

keep :
    {A : Type 0} (s : Storage) (r : Result A × Storage)
    → ((a : A) (t : Storage) → r ≡ (ok a, t) → SameRoles s t)
    → SameRoles s (commit s r)
keep s (ok a, t) h = h a t refl
keep s (err x, t) h = record { same_admin = refl; same_operator = refl }
keep s (panic, t) h = record { same_admin = refl; same_operator = refl }

finish-SameRoles :
    (e : Env) (s : Storage) (i k : Symbol) (cfg : SlaConfig) (hash : List ℕ) (m : ℕ) {r : SlaResult}
    {t : Storage}
    → finish i k cfg hash m e s ≡ (ok r, t)
    → SameRoles s t
unfolding finish resubmit
finish-SameRoles e s i k cfg hash m {r} h = elim (Option-cases (latest i (stored_history s) none)) [
  | inl fresh ↦
      let (computed, stored) = finish_fresh i k cfg hash m e s h fresh in
      rw stored (after_record-SameRoles k r s)
  | inr (prev, known) ↦ ground arith
]

trans-SameRoles : (s t u : Storage) → SameRoles s t → SameRoles t u → SameRoles s u
trans-SameRoles s t u p q = ground arith

pub calculate_sla-SameRoles :
    (e : Env) (s : Storage) (c : Address) (i k : Symbol) (m : ℕ)
    → SameRoles s (commit s (calculate_sla c i k m e s))
calculate_sla-SameRoles e s c i k m = keep s _ λ r t h.
    let (x, found, rest) = calculate_sla-parts c i k m e s h in
    trans-SameRoles s (after_cap c i m s) t (after_cap-SameRoles c i m s)
      (finish-SameRoles e (after_cap c i m s) i k x.0 x.1 _ rest)

pub batch_calculate-SameRoles :
    (e : Env) (s : Storage) (c : Address) (reqs : List BatchRequest)
    → SameRoles s (commit s (batch_calculate c reqs e s))
batch_calculate-SameRoles e s c reqs = keep s _ λ r u h.
    let (t, run, result, after, operator, running) = batch_calculate-ok c reqs e s h in
    rw after (after_batch-SameRoles c reqs t s)
