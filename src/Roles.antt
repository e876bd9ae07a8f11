-- ===== src/Roles.antt =====
-- The admin and operator roles: assignment, revocation, and the two-step handovers with their
-- seven-day window (sla_calculator/src/lib.rs).
pub mod Handover
mod Tests
use noc_iq_contracts.Base.{
  ℕ, ◌+◌, ◌-◌, ◌%◌, Option, some, none, not, is_some, ltb, leb, ◌==◌, if◌then◌else◌,
}
use noc_iq_contracts.Types.{
  Address, Symbol, PendingProposalInfo, u64_mod, not_initialized, unauthorized, no_pending_transfer,
}
use noc_iq_contracts.Storage.{
  op_set, role_audit, op_revoked, admin_proposed, admin_accepted, admin_cancelled, admin_renounced,
  op_proposed, op_accepted, op_cancelled, Action, ◌>>=◌, ◌>>◌, pure, fail, gets, asks, ok_or,
  modify, reject_if, publish,
}
use noc_iq_contracts.Guards.{check_version, require_admin, require_operator}

abbrev pub proposal_expiration_seconds : ℕ
proposal_expiration_seconds = 604800

-- `now - proposed_at` on u64.
abbrev pub age : ℕ → PendingProposalInfo → ℕ
age now p = (now + u64_mod - p.proposed_at) % u64_mod

abbrev pub publish_role_audit_event :
    Address → Symbol → Option Address → Option Address → Action (Unit {0})
publish_role_audit_event caller role prev new =
    publish (role_audit caller role (is_some prev) (is_some new))

unfoldable pub get_admin : Action Address
unfolding check_version
get_admin = do check_version; ok_or (← gets (λ s. s.admin)) not_initialized

unfoldable pub get_operator : Action Address
unfolding check_version
get_operator = do check_version; ok_or (← gets (λ s. s.operator)) not_initialized

unfoldable pub set_operator : Address → Address → Action (Unit {0})
unfolding check_version require_admin
set_operator caller new_operator = do
  check_version
  require_admin caller
  prev ← gets (λ s. s.operator)
  modify (λ s. record s { operator = some new_operator })
  publish (op_set caller new_operator)
  publish_role_audit_event caller "operator" prev (some new_operator)

unfoldable pub revoke_operator : Address → Action (Unit {0})
unfolding check_version require_admin
revoke_operator caller = do
  check_version
  require_admin caller
  modify (λ s. record s { operator = none; pending_operator = none })
  publish (op_revoked caller)

unfoldable pub renounce_operator : Address → Action (Unit {0})
unfolding check_version require_operator
renounce_operator caller = do
  check_version
  require_operator caller
  modify (λ s. record s { operator = none; pending_operator = none })
  publish (op_revoked caller)

unfoldable pub propose_admin : Address → Address → Action (Unit {0})
unfolding check_version require_admin
propose_admin caller new_admin = do
  check_version
  require_admin caller
  now ← asks (λ e. e.timestamp)
  modify (λ s. record s { pending_admin = some (record { target = new_admin; proposed_at = now }) })
  publish (admin_proposed caller new_admin)

-- The part of `accept_admin` behind the two tests.
unfoldable pub install_admin : Address → Action (Unit {0})
install_admin caller = do
  prev ← gets (λ s. s.admin)
  modify (λ s. record s { admin = some caller; pending_admin = none })
  publish (admin_accepted caller)
  publish_role_audit_event caller "admin" prev (some caller)

unfoldable pub accept_admin : Address → Action (Unit {0})
unfolding check_version install_admin
accept_admin caller = do
  check_version
  pending ← ok_or (← gets (λ s. s.pending_admin)) no_pending_transfer
  now ← asks (λ e. e.timestamp)
  if ltb proposal_expiration_seconds (age now pending)
      then (modify (λ s. record s { pending_admin = none }) >> fail no_pending_transfer)
      else (reject_if (not (caller == pending.target)) unauthorized >> install_admin caller)

unfoldable pub cancel_admin_proposal : Address → Action (Unit {0})
unfolding check_version require_admin
cancel_admin_proposal caller = do
  check_version
  require_admin caller
  pending ← gets (λ s. s.pending_admin)
  reject_if (not (is_some pending)) no_pending_transfer
  modify (λ s. record s { pending_admin = none })
  publish (admin_cancelled caller)

-- `if let Some(proposal) = pending { … }`
abbrev live_target : Option PendingProposalInfo → Action (Unit {0}) → Action (Option Address)
live_target none clear = pure none
live_target (some p) clear = do
  now ← asks (λ e. e.timestamp)
  if leb (age now p) proposal_expiration_seconds then pure (some p.target) else (clear >> pure none)

unfoldable pub get_pending_admin : Action (Option Address)
unfolding check_version
get_pending_admin = do
  check_version
  pending ← gets (λ s. s.pending_admin)
  live_target pending (modify (λ s. record s { pending_admin = none }))

unfoldable pub get_pending_operator : Action (Option Address)
unfolding check_version
get_pending_operator = do
  check_version
  pending ← gets (λ s. s.pending_operator)
  live_target pending (modify (λ s. record s { pending_operator = none }))

unfoldable pub propose_operator : Address → Address → Action (Unit {0})
unfolding check_version require_admin
propose_operator caller new_operator = do
  check_version
  require_admin caller
  now ← asks (λ e. e.timestamp)
  modify (λ s. record s {
    pending_operator = some (record { target = new_operator; proposed_at = now });
  })
  publish (op_proposed caller new_operator)

-- The part of `accept_operator` behind the two tests.
unfoldable pub install_operator : Address → Action (Unit {0})
install_operator caller = do
  prev ← gets (λ s. s.operator)
  modify (λ s. record s { operator = some caller; pending_operator = none })
  publish (op_accepted caller)
  publish_role_audit_event caller "operator" prev (some caller)

unfoldable pub accept_operator : Address → Action (Unit {0})
unfolding check_version install_operator
accept_operator caller = do
  check_version
  pending ← ok_or (← gets (λ s. s.pending_operator)) no_pending_transfer
  now ← asks (λ e. e.timestamp)
  if ltb proposal_expiration_seconds (age now pending)
      then (modify (λ s. record s { pending_operator = none }) >> fail no_pending_transfer)
      else (reject_if (not (caller == pending.target)) unauthorized >> install_operator caller)

unfoldable pub cancel_operator_proposal : Address → Action (Unit {0})
unfolding check_version require_admin
cancel_operator_proposal caller = do
  check_version
  require_admin caller
  pending ← gets (λ s. s.pending_operator)
  reject_if (not (is_some pending)) no_pending_transfer
  modify (λ s. record s { pending_operator = none })
  publish (op_cancelled caller)

unfoldable pub renounce_admin : Address → Action (Unit {0})
unfolding check_version require_admin
renounce_admin caller = do
  check_version
  require_admin caller
  modify (λ s. record s { admin = none; pending_admin = none })
  publish (admin_renounced caller)
