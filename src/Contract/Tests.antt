-- ===== src/Contract/Tests.antt =====
-- A run of three transactions.
use noc_iq_contracts.Base.{◌⊎◌}
use noc_iq_contracts.Storage.{Storage, empty_storage}
use noc_iq_contracts.Fixtures.{at_time, ready}
use noc_iq_contracts.Contract.{
  step, here, next, initialize_call, calculate_sla_call, set_retention_limit_call,
  revoke_operator_call,
}
use noc_iq_contracts.Contract.Invariant.{Inv}
use noc_iq_contracts.Contract.Preserve.{Reach-Inv}
use noc_iq_contracts.Contract.Authority.{MayMove, step-MayMove}
use noc_iq_contracts.Contract.Authority.Same.{SameRoles}

abbrev first : Storage
first = step (at_time 1000) (initialize_call 1 2) empty_storage

abbrev second : Storage
second = step (at_time 1500) (set_retention_limit_call 1 60) first

abbrev third : Storage
third = step (at_time 2000) (calculate_sla_call 2 "o1" "critical" 10) second

Reach-Inv_example : Inv third
Reach-Inv_example = Reach-Inv (
    next (at_time 2000) (calculate_sla_call 2 "o1" "critical" 10) (
      next (at_time 1500) (set_retention_limit_call 1 60)
        (next (at_time 1000) (initialize_call 1 2) here)))

step-MayMove_example :
    MayMove (at_time 3000) ready (revoke_operator_call 1)
    ⊎ SameRoles ready (step (at_time 3000) (revoke_operator_call 1) ready)
step-MayMove_example = step-MayMove (at_time 3000) (revoke_operator_call 1) ready
