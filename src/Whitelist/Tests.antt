-- ===== src/Whitelist/Tests.antt =====
-- A whitelist of two contracts and a new service (sla_calculator/src/whitelist.rs), and the
-- theorems at these inputs.
use noc_iq_contracts.Base.{ℕ, ◌≡◌, refl, none, some, List, [], ◌∷◌}
use noc_iq_contracts.Types.{unauthorized}
use noc_iq_contracts.Effect.{err}
use noc_iq_contracts.AddressMap.{get, set}
use noc_iq_contracts.Whitelist.{
  AccessStore, check_whitelist, add_to_whitelist, remove_from_whitelist, enable_whitelist,
}
use noc_iq_contracts.Whitelist.Spec.{WhitelistCall, add_call, remove_call, enable_call, run_calls}

-- Address 1 is the admin.
abbrev fresh : AccessStore
fresh = record {
  admin = some 1;
  whitelist = none;
  operator_roles = [];
  registrations = [];
  grace_period = none;
  events = [];
}

-- 30 and 31 are listed, 9 tries to list 32, 31 is removed, and the list is enforced.
abbrev orders : List (ℕ × WhitelistCall)
orders =
    (1, add_call 1 30)
    ∷ (2, add_call 1 31)
    ∷ (3, add_call 9 32)
    ∷ (4, remove_call 1 31)
    ∷ (5, enable_call 1)
    ∷ []

refused_31 : (check_whitelist 31 6 (run_calls orders fresh)).0 ≡ err unauthorized
unfolding check_whitelist run_calls add_to_whitelist enable_whitelist get set remove_from_whitelist
refused_31 = refl
