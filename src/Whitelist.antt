-- ===== src/Whitelist.antt =====
-- The contract whitelist, the operator roles and the grace period of new services
-- (sla_calculator/src/whitelist.rs).
pub mod Spec
pub mod Count
pub mod Grace
pub mod Tests
use noc_iq_contracts.Base.{
  ℕ, ◌+◌, ◌-◌, ◌*◌, not, Bool, true, false, Option, none, some, List, [], ◌∷◌, ◌++◌, ltb, ◌==◌,
  if◌then◌else◌, unwrap_or,
}
use noc_iq_contracts.Base.Int.{ℤ, pos}
use noc_iq_contracts.Types.{
  Address, Symbol, SlaError, not_initialized, unauthorized, u32_mod, u64_mod, saturating_u32,
  saturating_u64,
}
use noc_iq_contracts.AddressMap.{get, set, remove}
use noc_iq_contracts.Effect.{
  Effect, ◌>>=◌, ◌>>◌, return_ok, return_err, clock, reads, writes, found_or, refuse_if, kept,
}

pub record ServiceRegistrationRecord : Type 0 where
  pub service : Address
  pub registered_at : ℕ
  pub grace_period_seconds : ℕ

pub record WhitelistState : Type 0 where
  pub contracts : List (Address × Bool)
  pub count : ℕ
  pub enforcement_enabled : Bool

pub data OperatorRole : Type 0 where
  reporter auditor admin_role emergency_guard : OperatorRole

pub data WhitelistEvent : Type 0 where
  wl_add wl_rem : Address → Address → WhitelistEvent
  wl_clr : Address → WhitelistEvent
  role_assigned : Address → Address → OperatorRole → WhitelistEvent
  role_revoked : Address → Address → WhitelistEvent
  svc_reg : Address → ServiceRegistrationRecord → WhitelistEvent
  grace_exempt : Address → Symbol → ℤ → WhitelistEvent
  grace_set : Address → ℕ → WhitelistEvent

-- The storage keys; absent maps read as empty ones.
pub record AccessStore : Type 0 where
  pub admin : Option Address
  pub whitelist : Option WhitelistState
  pub operator_roles : List (Address × OperatorRole)
  pub registrations : List (Address × ServiceRegistrationRecord)
  pub grace_period : Option ℕ
  pub events : List WhitelistEvent

abbrev pub Access : Type 0 → Type 0
Access A = Effect AccessStore SlaError A

abbrev pub default_grace_period_seconds : ℕ
default_grace_period_seconds = 14 * 86400

abbrev pub empty_whitelist : WhitelistState
empty_whitelist = record { contracts = []; count = 0; enforcement_enabled = false }

-- The stored state, or the empty one.
abbrev pub current : AccessStore → WhitelistState
current s = unwrap_or s.whitelist empty_whitelist

-- `contracts.get(a).unwrap_or(false)`
abbrev pub is_listed : Address → WhitelistState → Bool
is_listed a w = unwrap_or (get a w.contracts) false

abbrev pub save : WhitelistState → Access (Unit {0})
save w = writes (λ s. record s { whitelist = some w })

abbrev pub emit : WhitelistEvent → Access (Unit {0})
emit ev = writes (λ s. record s { events = s.events ++ (ev ∷ []) })

unfoldable pub require_admin : Address → Access (Unit {0})
require_admin caller = do
  admin ← found_or (← reads (λ s. s.admin)) not_initialized
  refuse_if (not (caller == admin)) unauthorized

unfoldable pub init_whitelist : Access (Unit {0})
init_whitelist = save empty_whitelist

unfoldable pub add_to_whitelist : Address → Address → Access (Unit {0})
unfolding require_admin
add_to_whitelist caller contract = do
  require_admin caller
  state ← reads current
  if is_listed contract state
      then return_ok tt
      else (save (record state {
        contracts = set contract true state.contracts;
        count = saturating_u32 (state.count + 1);
      })
          >> emit (wl_add caller contract))

unfoldable pub remove_from_whitelist : Address → Address → Access (Unit {0})
unfolding require_admin
remove_from_whitelist caller contract = do
  require_admin caller
  state ← reads current
  if not (is_listed contract state)
      then return_ok tt
      else (save (record state {
        contracts = set contract false state.contracts;
        count = state.count - 1;
      })
          >> emit (wl_rem caller contract))

unfoldable pub clear_whitelist : Address → Access (Unit {0})
unfolding require_admin
clear_whitelist caller = do require_admin caller; save empty_whitelist; emit (wl_clr caller)

unfoldable pub enable_whitelist : Address → Access (Unit {0})
unfolding require_admin
enable_whitelist caller = do
  require_admin caller
  state ← reads current
  save (record state { enforcement_enabled = true })

unfoldable pub disable_whitelist : Address → Access (Unit {0})
unfolding require_admin
disable_whitelist caller = do
  require_admin caller
  state ← reads current
  save (record state { enforcement_enabled = false })

-- What `check_whitelist` makes of the stored state.
abbrev pub admits : Address → Option WhitelistState → Access (Unit {0})
admits contract none = return_ok tt
admits contract (some state) =
    if not state.enforcement_enabled
    then return_ok tt
    else if is_listed contract state
    then return_ok tt
    else return_err unauthorized

unfoldable pub check_whitelist : Address → Access (Unit {0})
check_whitelist contract = do state ← reads (λ s. s.whitelist); admits contract state

abbrev pub listed_in : Address → Option WhitelistState → Bool
listed_in contract none = false
listed_in contract (some state) = is_listed contract state

unfoldable pub is_whitelisted : Address → Access Bool
is_whitelisted contract = reads (λ s. listed_in contract s.whitelist)

abbrev pub status_of : Option WhitelistState → Bool × ℕ
status_of none = (false, 0)
status_of (some state) = (state.enforcement_enabled, state.count)

unfoldable pub get_whitelist_status : Access (Bool × ℕ)
get_whitelist_status = reads (λ s. status_of s.whitelist)

unfoldable pub assign_role : Address → Address → OperatorRole → Access (Unit {0})
unfolding require_admin
assign_role caller operator role = do
  require_admin caller
  writes (λ s. record s { operator_roles = set operator role s.operator_roles })
  emit (role_assigned caller operator role)

unfoldable pub revoke_role : Address → Address → Access (Unit {0})
unfolding require_admin
revoke_role caller operator = do
  require_admin caller
  writes (λ s. record s { operator_roles = remove operator s.operator_roles })
  emit (role_revoked caller operator)

unfoldable pub get_operator_role : Address → AccessStore → Option OperatorRole
get_operator_role operator s = get operator s.operator_roles

abbrev pub same_role : OperatorRole → OperatorRole → Bool
same_role reporter reporter = true
same_role auditor auditor = true
same_role admin_role admin_role = true
same_role emergency_guard emergency_guard = true
same_role _ _ = false

abbrev pub has_role : OperatorRole → Option OperatorRole → Bool
has_role expected none = false
has_role expected (some role) = same_role role expected

unfoldable pub require_role : Address → OperatorRole → Access (Unit {0})
unfolding get_operator_role
require_role operator expected = do
  role ← reads (get_operator_role operator)
  if has_role expected role then return_ok tt else return_err unauthorized

unfoldable pub require_reporter : Address → Access (Unit {0})
unfolding require_role
require_reporter operator = require_role operator reporter

unfoldable pub require_auditor : Address → Access (Unit {0})
unfolding require_role
require_auditor operator = require_role operator auditor

unfoldable pub set_grace_period_duration : Address → ℕ → Access (Unit {0})
unfolding require_admin
set_grace_period_duration caller duration = do
  require_admin caller
  writes (λ s. record s { grace_period = some duration })
  emit (grace_set caller duration)

unfoldable pub get_grace_period_duration : AccessStore → ℕ
get_grace_period_duration s = unwrap_or s.grace_period default_grace_period_seconds

abbrev pub registration : Address → ℕ → ℕ → ServiceRegistrationRecord
registration service now grace = record {
  service = service;
  registered_at = now;
  grace_period_seconds = grace;
}

unfoldable pub register_service : Address → Address → Access ServiceRegistrationRecord
unfolding require_admin get_grace_period_duration
register_service caller service = do
  require_admin caller
  grace ← reads get_grace_period_duration
  now ← clock
  let entry = registration service now grace
  writes (λ s. record s { registrations = set service entry s.registrations })
  emit (svc_reg caller entry)
  return_ok entry

unfoldable pub get_service_registration : Address → AccessStore → Option ServiceRegistrationRecord
get_service_registration service s = get service s.registrations

abbrev pub in_grace : ℕ → Option ServiceRegistrationRecord → Bool
in_grace now none = false
in_grace now (some r) = ltb now (saturating_u64 (r.registered_at + r.grace_period_seconds))

unfoldable pub is_service_in_grace_period : Address → Access Bool
unfolding get_service_registration
is_service_in_grace_period service = do
  now ← clock
  reads (λ s. in_grace now (get_service_registration service s))

unfoldable pub evaluate_outage_penalty_with_grace : Address → Symbol → ℤ → Access ℤ
unfolding is_service_in_grace_period
evaluate_outage_penalty_with_grace service outage penalty = do
  graced ← is_service_in_grace_period service
  if graced
      then (emit (grace_exempt service outage penalty) >> return_ok (pos 0))
      else return_ok penalty
