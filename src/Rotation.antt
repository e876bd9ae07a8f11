-- ===== src/Rotation.antt =====
-- The upgrade log and the rotation of the admin key by guardians (sla_calculator/src/upgrade_path.rs).
pub mod Upgrade
pub mod Campaign
pub mod Safety
pub mod Tests
use noc_iq_contracts.Base.{
  ℕ, ◌+◌, ◌-◌, ◌*◌, ◌%◌, ◌==◌, ◌||◌, not, Bool, true, false, Option, none, some, List, [], ◌∷◌,
  ◌++◌, length, leb, ltb, any, if◌then◌else◌, unwrap_or, is_some,
}
use noc_iq_contracts.Types.{
  Address, SlaError, not_initialized, unauthorized, version_mismatch, u64_mod,
}
use noc_iq_contracts.Guards.{storage_version}
use noc_iq_contracts.Effect.{
  Effect, ◌>>=◌, ◌>>◌, return_ok, return_err, clock, reads, writes, found_or, refuse_if, kept,
}

pub record UpgradeRecord : Type 0 where
  pub from_version : ℕ
  pub to_version : ℕ
  pub timestamp : ℕ
  pub upgraded_by : Address

pub record RotationProposal : Type 0 where
  pub new_admin : Address
  pub initiated_at : ℕ
  pub approvals : List Address

pub data KeyRotationError : Type 0 where
  not_a_guardian not_admin invalid_guardian_set no_active_proposal : KeyRotationError
  insufficient_approvals timelock_not_elapsed : KeyRotationError

pub data RotationEvent : Type 0 where
  upgraded : Address → ℕ → ℕ → RotationEvent
  rotation_proposed : Address → Address → ℕ → RotationEvent
  rotation_executed : Address → RotationEvent
  rotation_cancelled : Address → RotationEvent

-- The storage keys; an absent guardian set or log reads as the empty one.
pub record KeyStore : Type 0 where
  pub admin : Option Address
  pub version : Option ℕ
  pub upgrade_log : List UpgradeRecord
  pub guardians : List Address
  pub proposal : Option RotationProposal
  pub events : List RotationEvent

abbrev pub guardian_quorum : ℕ
guardian_quorum = 3

abbrev pub guardian_quorum_total : ℕ
guardian_quorum_total = 5

abbrev pub rotation_timelock_secs : ℕ
rotation_timelock_secs = 72 * 60 * 60

abbrev pub announce : {E : Type 0} → RotationEvent → Effect KeyStore E (Unit {0})
announce ev = writes (λ s. record s { events = s.events ++ (ev ∷ []) })

abbrev pub upgrade_record : ℕ → ℕ → Address → UpgradeRecord
upgrade_record from now caller = record {
  from_version = from;
  to_version = storage_version;
  timestamp = now;
  upgraded_by = caller;
}

-- What follows the two version tests: the one migration step, and the log entry.
abbrev pub migrate_from : Address → ℕ → Effect KeyStore SlaError (Unit {0})
migrate_from caller from = do
  writes (λ s. record s { version = (if from == 0 then some 1 else s.version) })
  refuse_if (not ((if from == 0 then 1 else from) == storage_version)) version_mismatch
  now ← clock
  writes (λ s. record s { upgrade_log = s.upgrade_log ++ (upgrade_record from now caller ∷ []) })
  announce (upgraded caller from storage_version)

unfoldable pub perform_upgrade : Address → Effect KeyStore SlaError (Unit {0})
perform_upgrade caller = do
  admin ← found_or (← reads (λ s. s.admin)) not_initialized
  refuse_if (not (caller == admin)) unauthorized
  stored ← reads (λ s. unwrap_or s.version 0)
  if stored == storage_version
      then return_ok tt
      else (refuse_if (ltb storage_version stored) version_mismatch >> migrate_from caller stored)

unfoldable pub get_upgrade_log : KeyStore → List UpgradeRecord
get_upgrade_log s = s.upgrade_log

unfoldable pub get_upgrade_count : KeyStore → ℕ
get_upgrade_count s = length s.upgrade_log

abbrev pub last_of : List UpgradeRecord → Option UpgradeRecord
last_of [] = none
last_of (x ∷ []) = some x
last_of (x ∷ y ∷ xs) = last_of (y ∷ xs)

unfoldable pub get_last_upgrade : KeyStore → Option UpgradeRecord
get_last_upgrade s = last_of s.upgrade_log

unfoldable pub upgrade_available : KeyStore → Bool
upgrade_available s = ltb (unwrap_or s.version 0) storage_version

unfoldable pub get_version_pair : Effect KeyStore SlaError (ℕ × ℕ)
get_version_pair = do
  stored ← found_or (← reads (λ s. s.version)) not_initialized
  return_ok (stored, storage_version)

unfoldable pub require_current_admin : Address → Effect KeyStore KeyRotationError (Unit {0})
require_current_admin caller = do
  admin ← found_or (← reads (λ s. s.admin)) not_admin
  refuse_if (not (admin == caller)) not_admin

-- `Vec::contains`
abbrev pub has : Address → List Address → Bool
has a xs = any (λ x. x == a) xs

-- Whether two places of the list hold the same address: the two loops over pairs.
unfoldable pub has_repeat : List Address → Bool
has_repeat [] = false
has_repeat (x ∷ xs) = has x xs || has_repeat xs

unfoldable pub set_guardians : Address → List Address → Effect KeyStore KeyRotationError (Unit {0})
unfolding require_current_admin has_repeat
set_guardians caller guardians = do
  require_current_admin caller
  refuse_if (length guardians == 0 || ltb guardian_quorum_total (length guardians))
      invalid_guardian_set
  refuse_if (has_repeat guardians) invalid_guardian_set
  writes (λ s. record s { guardians = guardians })

-- The running proposal, if it is for the same admin, and otherwise a new one.
unfoldable pub joined : Address → ℕ → Option RotationProposal → RotationProposal
joined new_admin now (some p) =
    if p.new_admin == new_admin
    then p
    else record { new_admin = new_admin; initiated_at = now; approvals = [] }
joined new_admin now none = record { new_admin = new_admin; initiated_at = now; approvals = [] }

unfoldable pub approved_by : Address → RotationProposal → RotationProposal
approved_by caller p =
    if has caller p.approvals then p else record p { approvals = p.approvals ++ (caller ∷ []) }

unfoldable pub propose_key_rotation :
    Address → Address → Effect KeyStore KeyRotationError (Unit {0})
unfolding joined approved_by
propose_key_rotation caller new_admin = do
  guardians ← reads (λ s. s.guardians)
  refuse_if (not (has caller guardians)) not_a_guardian
  now ← clock
  existing ← reads (λ s. s.proposal)
  let proposal = approved_by caller (joined new_admin now existing)
  writes (λ s. record s { proposal = some proposal })
  announce (rotation_proposed caller proposal.new_admin (length proposal.approvals))

unfoldable pub execute_key_rotation : Effect KeyStore KeyRotationError Address
execute_key_rotation = do
  proposal ← found_or (← reads (λ s. s.proposal)) no_active_proposal
  refuse_if (ltb (length proposal.approvals) guardian_quorum) insufficient_approvals
  now ← clock
  refuse_if (ltb now ((proposal.initiated_at + rotation_timelock_secs) % u64_mod))
      timelock_not_elapsed
  writes (λ s. record s { admin = some proposal.new_admin; proposal = none })
  announce (rotation_executed proposal.new_admin)
  return_ok proposal.new_admin

unfoldable pub cancel_key_rotation : Address → Effect KeyStore KeyRotationError (Unit {0})
unfolding require_current_admin
cancel_key_rotation caller = do
  require_current_admin caller
  refuse_if (← reads (λ s. not (is_some s.proposal))) no_active_proposal
  writes (λ s. record s { proposal = none })
  announce (rotation_cancelled caller)

unfoldable pub get_rotation_proposal : KeyStore → Option RotationProposal
get_rotation_proposal s = s.proposal

pub data KeyCall : Type 0 where
  upgrade_call : Address → KeyCall
  guardians_call : Address → List Address → KeyCall
  propose_call : Address → Address → KeyCall
  execute_call : KeyCall
  cancel_call : Address → KeyCall

unfoldable pub run_call : ℕ → KeyCall → KeyStore → KeyStore
unfolding perform_upgrade set_guardians propose_key_rotation execute_key_rotation
    cancel_key_rotation
run_call now (upgrade_call c) s = kept s (perform_upgrade c now s)
run_call now (guardians_call c gs) s = kept s (set_guardians c gs now s)
run_call now (propose_call c a) s = kept s (propose_key_rotation c a now s)
run_call now execute_call s = kept s (execute_key_rotation now s)
run_call now (cancel_call c) s = kept s (cancel_key_rotation c now s)
