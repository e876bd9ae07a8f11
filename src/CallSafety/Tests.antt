-- ===== src/CallSafety/Tests.antt =====
-- Callers that come and go, and a sequence of calls of which the third fails
-- (sla_calculator/src/cross_contract_safety.rs), with the theorems at these inputs.
use noc_iq_contracts.Base.{
  ℕ, ◌≡◌, ◌+◌, refl, Bool, false, some, List, [], ◌∷◌, ◌++◌, map, ltb, if◌then◌else◌,
}
use noc_iq_contracts.Types.{Address, Symbol}
use noc_iq_contracts.AddressMap.{get, set, remove}
use noc_iq_contracts.Effect.{ok, err}
use noc_iq_contracts.CallSafety.{
  RegistryStore, RegistryCall, initialize_call, add_call, remove_call, is_authorized_caller,
  require_authorized_caller, unauthorized_caller, initialize_admin, add_authorized_caller,
  remove_authorized_caller, new, result_of, call, safe_invoke_contract,
}
use noc_iq_contracts.CallSafety.Registry.{run_calls, admitted, require_authorized_caller-refines}
use noc_iq_contracts.CallSafety.Workflow.{
  Invocation, run_all, Returned, Stopped, action_of, run_all-Compensates,
}

-- The admin is 1; address 2 tries to become the admin and to list itself.
abbrev owned : RegistryStore
owned = record { admin = some 1; authorized_callers = [] }

abbrev orders : List (ℕ × RegistryCall)
orders =
    (1, add_call 1 30)
    ∷ (2, initialize_call 2)
    ∷ (3, add_call 2 2)
    ∷ (4, add_call 1 31)
    ∷ (5, remove_call 1 30)
    ∷ []

only_31 :
    ((require_authorized_caller 31 6 (run_calls orders owned)).0 ≡ ok tt)
    × ((require_authorized_caller 2 6 (run_calls orders owned)).0 ≡ err unauthorized_caller)
    × ((require_authorized_caller 30 6 (run_calls orders owned)).0 ≡ err unauthorized_caller)
unfolding run_calls initialize_admin add_authorized_caller remove_authorized_caller
    require_authorized_caller get set remove
only_31 = (refl, refl, refl)

require_authorized_caller-refines_example :
    let after = run_calls orders owned in
    (after.admin ≡ some 1)
    × (require_authorized_caller 31 6 after ≡ (
      (if admitted 1 31 orders (is_authorized_caller 31 owned)
          then ok tt
          else err unauthorized_caller),
      after,
    ))
require_authorized_caller-refines_example =
    require_authorized_caller-refines 1 31 orders owned 6 refl

-- A ledger that lets two invocations return and fails the next ones.
abbrev two_returns : Address → Symbol → List ℕ → ℕ → Bool × ℕ
two_returns contract_id function_name args w = (ltb w 2, w + 1)

abbrev invocations : List (Invocation ℕ)
invocations =
    record { contract_id = 40; function_name = "lock_fnds"; args = 5 ∷ []; tag = "unlck_fnd" }
    ∷ record { contract_id = 40; function_name = "rel_pay"; args = 5 ∷ []; tag = "rev_setle" }
    ∷ record { contract_id = 41; function_name = "can_setl"; args = []; tag = "unp_escro" }
    ∷ []

two_compensations : (run_all two_returns invocations new 0).0 ≡ some (result_of false)
unfolding run_all call safe_invoke_contract
two_compensations = refl

run_all-Compensates_example :
    (done : List (Invocation ℕ)) × (rest : List (Invocation ℕ)) × (w' : ℕ) × (invocations
      ≡ done ++ rest)
    × Returned two_returns 0 done w'
    × ((run_all two_returns invocations new 0).1.compensation_stack ≡ [] ++ map action_of done)
    × Stopped two_returns rest w' (run_all two_returns invocations new 0).0
run_all-Compensates_example = run_all-Compensates two_returns invocations new 0
