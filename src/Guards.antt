-- ===== src/Guards.antt =====
-- The checks that entry points begin with (sla_calculator/src/lib.rs).
use noc_iq_contracts.Base.{ℕ, false, some, not, unwrap_or, ◌==◌}
use noc_iq_contracts.Types.{
  Address, not_initialized, unauthorized, version_mismatch, contract_paused,
}
use noc_iq_contracts.Storage.{Action, ◌>>=◌, ok_or, gets, reject_if, modify}

abbrev pub storage_version : ℕ
storage_version = 1

unfoldable pub write_version : Action (Unit {0})
write_version = modify (λ s. record s { version = some storage_version })

unfoldable pub check_version : Action (Unit {0})
check_version = do
  v ← ok_or (← gets (λ s. s.version)) not_initialized
  reject_if (not (v == storage_version)) version_mismatch

unfoldable pub require_admin : Address → Action (Unit {0})
require_admin caller = do
  admin ← ok_or (← gets (λ s. s.admin)) not_initialized
  reject_if (not (caller == admin)) unauthorized

unfoldable pub require_operator : Address → Action (Unit {0})
require_operator caller = do
  operator ← ok_or (← gets (λ s. s.operator)) not_initialized
  reject_if (not (caller == operator)) unauthorized

unfoldable pub require_not_paused : Action (Unit {0})
require_not_paused = do
  paused ← gets (λ s. s.paused)
  reject_if (unwrap_or paused false) contract_paused
