-- ===== src/Contract/Preserve/Roles.antt =====
-- The invariant under the role entry points (sla_calculator/src/lib.rs).
use noc_iq_contracts.Base.{arith}
use noc_iq_contracts.Types.{Address, Env}
use noc_iq_contracts.Storage.{Storage, commit}
use noc_iq_contracts.Calc.Submit.{max_duration}
use noc_iq_contracts.Roles.{
  set_operator, revoke_operator, renounce_operator, propose_admin, accept_admin,
  cancel_admin_proposal, get_pending_admin, get_pending_operator, propose_operator, accept_operator,
  cancel_operator_proposal, renounce_admin,
}
use noc_iq_contracts.Contract.Invariant.{Inv}

module _ (e : Env) (s : Storage) (v : Inv s) where
  pub set_operator-Inv : (c : Address) (o : Address) → Inv (commit s (set_operator c o e s))
  unfolding set_operator max_duration
  set_operator-Inv c o = ground (arith, v)

  pub revoke_operator-Inv : (c : Address) → Inv (commit s (revoke_operator c e s))
  unfolding revoke_operator max_duration
  revoke_operator-Inv c = ground (arith, v)

  pub renounce_operator-Inv : (c : Address) → Inv (commit s (renounce_operator c e s))
  unfolding renounce_operator max_duration
  renounce_operator-Inv c = ground (arith, v)

  pub propose_admin-Inv : (c : Address) (a : Address) → Inv (commit s (propose_admin c a e s))
  unfolding propose_admin max_duration
  propose_admin-Inv c a = ground (arith, v)

  pub accept_admin-Inv : (c : Address) → Inv (commit s (accept_admin c e s))
  unfolding accept_admin max_duration
  accept_admin-Inv c = ground (arith, v)

  pub cancel_admin_proposal-Inv : (c : Address) → Inv (commit s (cancel_admin_proposal c e s))
  unfolding cancel_admin_proposal max_duration
  cancel_admin_proposal-Inv c = ground (arith, v)

  pub get_pending_admin-Inv : Inv (commit s (get_pending_admin e s))
  unfolding get_pending_admin max_duration
  get_pending_admin-Inv = ground (arith, v)

  pub get_pending_operator-Inv : Inv (commit s (get_pending_operator e s))
  unfolding get_pending_operator max_duration
  get_pending_operator-Inv = ground (arith, v)

  pub propose_operator-Inv : (c : Address) (o : Address) → Inv (commit s (propose_operator c o e s))
  unfolding propose_operator max_duration
  propose_operator-Inv c o = ground (arith, v)

  pub accept_operator-Inv : (c : Address) → Inv (commit s (accept_operator c e s))
  unfolding accept_operator max_duration
  accept_operator-Inv c = ground (arith, v)

  pub cancel_operator_proposal-Inv : (c : Address) → Inv (commit s (cancel_operator_proposal c e s))
  unfolding cancel_operator_proposal max_duration
  cancel_operator_proposal-Inv c = ground (arith, v)

  pub renounce_admin-Inv : (c : Address) → Inv (commit s (renounce_admin c e s))
  unfolding renounce_admin max_duration
  renounce_admin-Inv c = ground (arith, v)
