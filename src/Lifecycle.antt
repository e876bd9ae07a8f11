-- ===== src/Lifecycle.antt =====
-- Initialisation, storage versions, the emergency migration key, and pausing
-- (sla_calculator/src/lib.rs).
pub mod Locks
mod Tests
use noc_iq_contracts.Base.{
  ℕ, ◌+◌, ◌-◌, ◌%◌, Bool, true, false, String, Option, some, none, not, unwrap_or, is_some, ltb,
  ◌==◌, if◌then◌else◌, [],
}
use noc_iq_contracts.Base.Int.{pos}
use noc_iq_contracts.Types.{
  Address, SlaStats, PauseInfo, u32_mod, already_initialized, not_initialized, unauthorized,
  version_mismatch, no_pending_transfer, threshold_out_of_bounds,
}
use noc_iq_contracts.Storage.{
  paused_event, unpaused_event, migration_set, migration_executed, Action, ◌>>=◌, ◌>>◌, pure, abort,
  gets, asks, ok_or, modify, reject_if, publish,
}
use noc_iq_contracts.Guards.{storage_version, write_version, check_version, require_admin}
use noc_iq_contracts.Config.Defaults.{initialize_default_configs}

abbrev pub zero_stats : SlaStats
zero_stats = record {
  total_calculations = 0;
  total_violations = 0;
  total_rewards = pos 0;
  total_penalties = pos 0;
}

abbrev pub migration_timelock : ℕ
migration_timelock = 1_209_600

unfoldable pub initialize : Address → Address → Action (Unit {0})
unfolding write_version initialize_default_configs
initialize admin operator = do
  present ← gets (λ s. is_some s.admin)
  reject_if present already_initialized
  now ← asks (λ e. e.timestamp)
  modify (λ s. record s {
    admin = some admin;
    operator = some operator;
    paused = some false;
    stats = some zero_stats;
    history = some [];
    init_time = some now;
    config = some initialize_default_configs;
  })
  write_version

-- The steps from version `current`, and the assertion behind them.
unfoldable pub migrate_steps : ℕ → Action (Unit {0})
migrate_steps current =
    if current == 0
    then modify (λ s. record s { version = some 1 })
    else (if current == storage_version then pure tt else abort)

unfoldable pub migrate : Address → Action (Unit {0})
unfolding migrate_steps
migrate caller = do
  admin ← ok_or (← gets (λ s. s.admin)) not_initialized
  reject_if (not (caller == admin)) unauthorized
  stored ← gets (λ s. unwrap_or s.version 0)
  if stored == storage_version
      then pure tt
      else (reject_if (ltb storage_version stored) version_mismatch >> migrate_steps stored)

unfoldable pub set_migration_key : Address → Address → Action (Unit {0})
unfolding check_version require_admin
set_migration_key caller migration_address = do
  check_version
  require_admin caller
  now ← asks (λ e. e.timestamp)
  modify (λ s. record s { migration_key = some migration_address; migration_time = some now })
  publish (migration_set caller migration_address)

unfoldable pub execute_migration : Address → Action (Unit {0})
unfolding check_version
execute_migration caller = do
  check_version
  migration_addr ← ok_or (← gets (λ s. s.migration_key)) no_pending_transfer
  reject_if (not (caller == migration_addr)) unauthorized
  set_time ← ok_or (← gets (λ s. s.migration_time)) not_initialized
  now ← asks (λ e. e.timestamp)
  reject_if (ltb (now - set_time) migration_timelock) threshold_out_of_bounds
  current ← gets (λ s. unwrap_or s.version 0)
  modify (λ s. record s {
    version = some ((current + 1) % u32_mod);
    migration_key = none;
    migration_time = none;
  })
  publish (migration_executed caller)

unfoldable pub pause : Address → String → Action (Unit {0})
unfolding check_version require_admin
pause caller reason = do
  check_version
  require_admin caller
  now ← asks (λ e. e.timestamp)
  modify (λ s. record s {
    paused = some true;
    pause_info = some (record { reason = reason; paused_at = now; paused_by = caller });
  })
  publish (paused_event caller true)

unfoldable pub unpause : Address → Action (Unit {0})
unfolding check_version require_admin
unpause caller = do
  check_version
  require_admin caller
  modify (λ s. record s { paused = some false; pause_info = none })
  publish (unpaused_event caller false)

unfoldable pub is_paused : Action Bool
unfolding check_version
is_paused = do check_version; gets (λ s. unwrap_or s.paused false)

unfoldable pub get_pause_info : Action (Option PauseInfo)
unfolding check_version
get_pause_info = do check_version; gets (λ s. s.pause_info)

unfoldable pub get_storage_version : Action ℕ
get_storage_version = do ok_or (← gets (λ s. s.version)) not_initialized

pub record StorageVersionInfo : Type 0 where
  pub stored_version : ℕ
  pub expected_version : ℕ
  pub needs_migration : Bool

unfoldable pub get_migration_state : Action StorageVersionInfo
get_migration_state = do
  stored ← ok_or (← gets (λ s. s.version)) not_initialized
  pure (record {
    stored_version = stored;
    expected_version = storage_version;
    needs_migration = not (stored == storage_version);
  })
