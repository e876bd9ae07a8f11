-- ===== src/CallSafety/Registry.antt =====
-- Who may call, as the admin ordered it (sla_calculator/src/cross_contract_safety.rs).
use noc_iq_contracts.Base.{
  ℕ, ◌≡◌, ◌==◌, ◌&&◌, refl, Bool, true, false, some, List, [], ◌∷◌, if◌then◌else◌, arith,
}
use noc_iq_contracts.Types.{Address}
use noc_iq_contracts.AddressMap.{get-set, get-remove}
use noc_iq_contracts.Effect.{ok, err}
use noc_iq_contracts.CallSafety.{
  RegistryStore, unauthorized_caller, RegistryCall, initialize_call, add_call, remove_call,
  run_call, initialize_admin, add_authorized_caller, remove_authorized_caller, is_authorized_caller,
  require_authorized_caller,
}

unfoldable pub run_calls : List (ℕ × RegistryCall) → RegistryStore → RegistryStore
run_calls [] s = s
run_calls ((now, call) ∷ calls) s = run_calls calls (run_call now call s)

-- Whether a contract may call after one order: only those of the owner on this contract count.
abbrev pub ordered : Address → Address → RegistryCall → Bool → Bool
ordered owner contract (initialize_call a) before = before
ordered owner contract (add_call a c) before =
    if (a == owner) && (c == contract) then true else before
ordered owner contract (remove_call a c) before =
    if (a == owner) && (c == contract) then false else before

pub admitted : Address → Address → List (ℕ × RegistryCall) → Bool → Bool
admitted owner contract [] before = before
admitted owner contract ((now, call) ∷ calls) before =
    admitted owner contract calls (ordered owner contract call before)

module _ (owner contract : Address) where
  abbrev Represents : Bool → RegistryStore → Type 0
  Represents b s = (s.admin ≡ some owner) × (is_authorized_caller contract s ≡ b)

  run_call-Represents :
      (now : ℕ) (call : RegistryCall) (s : RegistryStore) (b : Bool)
      → Represents b s
      → Represents (ordered owner contract call b) (run_call now call s)
  unfolding initialize_admin add_authorized_caller remove_authorized_caller
  run_call-Represents now (initialize_call a) s b h = ground arith
  run_call-Represents now (add_call a c) s b h =
      ground (arith, get-set c contract true s.authorized_callers)
  run_call-Represents now (remove_call a c) s b h =
      ground (arith, get-remove c contract s.authorized_callers)

  run_calls-Represents :
      (calls : List (ℕ × RegistryCall)) (s : RegistryStore) (b : Bool)
      → Represents b s
      → Represents (admitted owner contract calls b) (run_calls calls s)
  unfolding run_calls admitted
  run_calls-Represents [] s b h = h
  run_calls-Represents ((now, call) ∷ calls) s b h =
      run_calls-Represents calls (run_call now call s) (ordered owner contract call b)
        (run_call-Represents now call s b h)

-- From a storage with an admin, after any calls of the admin and of others, the admin is the same,
-- and the guard passes a contract exactly as the admin's last order on it says, or as the registry
-- said before where there was none.
pub require_authorized_caller-refines :
    (owner contract : Address) (calls : List (ℕ × RegistryCall)) (s : RegistryStore) (now : ℕ)
    → s.admin ≡ some owner
    → let after = run_calls calls s in
      (after.admin ≡ some owner)
      × (require_authorized_caller contract now after ≡ (
        (if admitted owner contract calls (is_authorized_caller contract s)
            then ok tt
            else err unauthorized_caller),
        after,
      ))
unfolding require_authorized_caller
require_authorized_caller-refines owner contract calls s now h =
    let r =
      run_calls-Represents owner contract calls s (is_authorized_caller contract s) (h, refl) in
    (r.0, ground (arith, r.1))
