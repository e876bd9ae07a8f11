-- ===== src/CallSafety.antt =====
-- The registry of contracts that may call, and the compensations of a sequence of calls
-- (sla_calculator/src/cross_contract_safety.rs).
pub mod Registry
pub mod Workflow
pub mod Tests
use noc_iq_contracts.Base.{
  ℕ, ◌==◌, ◌||◌, not, Bool, true, false, Option, none, some, List, [], ◌∷◌, ◌++◌, length, is_some,
  if◌then◌else◌, unwrap_or,
}
use noc_iq_contracts.Base.Int.{ℤ}
use noc_iq_contracts.Types.{Address, Symbol}
use noc_iq_contracts.AddressMap.{get, set, remove}
use noc_iq_contracts.Effect.{
  Outcome, ok, err, Effect, ◌>>=◌, ◌>>◌, return_ok, reads, writes, found_or, refuse_if, kept,
}

pub data CrossContractSafetyError : Type 0 where
  not_initialized unauthorized unauthorized_caller : CrossContractSafetyError

-- The storage keys; an absent registry reads as an empty one.
pub record RegistryStore : Type 0 where
  pub admin : Option Address
  pub authorized_callers : List (Address × Bool)

abbrev pub RegistryEffect : Type 0 → Type 0
RegistryEffect A = Effect RegistryStore CrossContractSafetyError A

unfoldable pub require_admin : Address → RegistryEffect (Unit {0})
require_admin caller = do
  admin ← found_or (← reads (λ s. s.admin)) not_initialized
  refuse_if (not (admin == caller)) unauthorized

unfoldable pub initialize_admin : Address → RegistryEffect (Unit {0})
initialize_admin admin = do
  stored ← reads (λ s. s.admin)
  refuse_if (is_some stored) unauthorized
  writes (λ s. record s { admin = some admin })

unfoldable pub add_authorized_caller : Address → Address → RegistryEffect (Unit {0})
unfolding require_admin
add_authorized_caller admin caller_contract = do
  require_admin admin
  writes (λ s. record s { authorized_callers = set caller_contract true s.authorized_callers })

unfoldable pub remove_authorized_caller : Address → Address → RegistryEffect (Unit {0})
unfolding require_admin
remove_authorized_caller admin caller_contract = do
  require_admin admin
  writes (λ s. record s { authorized_callers = remove caller_contract s.authorized_callers })

abbrev pub is_authorized_caller : Address → RegistryStore → Bool
is_authorized_caller caller_contract s = unwrap_or (get caller_contract s.authorized_callers) false

unfoldable pub require_authorized_caller : Address → RegistryEffect (Unit {0})
require_authorized_caller caller_contract = do
  listed ← reads (is_authorized_caller caller_contract)
  refuse_if (not listed) unauthorized_caller

-- The calls that change the registry.
pub data RegistryCall : Type 0 where
  initialize_call : Address → RegistryCall
  add_call remove_call : Address → Address → RegistryCall

abbrev pub run_call : ℕ → RegistryCall → RegistryStore → RegistryStore
run_call now (initialize_call a) s = kept s (initialize_admin a now s)
run_call now (add_call a c) s = kept s (add_authorized_caller a c now s)
run_call now (remove_call a c) s = kept s (remove_authorized_caller a c now s)

pub data CrossContractCallStatus : Type 0 where
  success recoverable_error fatal_error dispatch_failed compensated : CrossContractCallStatus

pub record SafeCallResult : Type 0 where
  pub status : CrossContractCallStatus
  pub error_symbol : Option Symbol

pub record CompensationAction : Type 0 where
  pub tag : Symbol
  pub fn_name : Symbol

unfoldable pub requires_rollback : CrossContractCallStatus → Bool
requires_rollback fatal_error = true
requires_rollback dispatch_failed = true
requires_rollback success = false
requires_rollback recoverable_error = false
requires_rollback compensated = false

pub record CrossContractSafety : Type 0 where
  pub compensation_stack : List CompensationAction

abbrev pub new : CrossContractSafety
new = record { compensation_stack = [] }

abbrev pub depth : CrossContractSafety → ℕ
depth safety = length safety.compensation_stack

abbrev pub has_pending : CrossContractSafety → Bool
has_pending safety = elim safety.compensation_stack [ [] ↦ false | _ ∷ _ ↦ true ]

abbrev pub result_of : Bool → SafeCallResult
result_of true = record { status = success; error_symbol = none }
result_of false = record { status = fatal_error; error_symbol = some "CROSS_CONTRACT_FAILURE" }

-- The `match` of `call` on the status.
abbrev pub register :
    Symbol
    → Symbol
    → SafeCallResult
    → CrossContractSafety
    → Outcome SafeCallResult SafeCallResult × CrossContractSafety
register function_name tag result safety =
    let pushed = record safety {
      compensation_stack =
          safety.compensation_stack ++ (record { tag = tag; fn_name = function_name } ∷ []);
    } in
    elim result.status [
      | success ↦ (ok result, pushed)
      | recoverable_error ↦ (ok result, pushed)
      | fatal_error ↦ (err result, safety)
      | dispatch_failed ↦ (err result, safety)
      | compensated ↦ (err result, safety)
    ]

-- `env.try_invoke_contract` is a parameter: what the called contract makes of the rest of the
-- ledger, a `World`, and whether the invocation returned without an error.
module _ {World Val : Type 0}
    (try_invoke : Address → Symbol → List Val → World → Bool × World) where
  unfoldable pub safe_invoke_contract : Address → Symbol → List Val → World → SafeCallResult × World
  safe_invoke_contract contract_id function_name args w =
      let (returned, w') = try_invoke contract_id function_name args w in (result_of returned, w')

  unfoldable pub call :
      Address
      → Symbol
      → List Val
      → Symbol
      → CrossContractSafety
      → World
      → Outcome SafeCallResult SafeCallResult × CrossContractSafety × World
  unfolding safe_invoke_contract
  call contract_id function_name args tag safety w =
      let (result, w') = safe_invoke_contract contract_id function_name args w in
      let (outcome, safety') = register function_name tag result safety in (outcome, safety', w')

pub record CompactPayment : Type 0 where
  pub contract_id : Address
  pub amount : ℤ
  pub recipient : Address

unfoldable pub build_compact_payment : Address → ℤ → Address → CompactPayment
build_compact_payment contract_id amount recipient = record {
  contract_id = contract_id;
  amount = amount;
  recipient = recipient;
}

-- The conversions to the host's values are parameters.
unfoldable pub compact_payment_to_args :
    {Val : Type 0} → (Address → Val) → (ℤ → Val) → CompactPayment → List Val
compact_payment_to_args address_val amount_val payment =
    address_val payment.contract_id ∷ amount_val payment.amount ∷ address_val payment.recipient ∷ []

unfoldable pub estimate_compact_payment_size : ℕ
estimate_compact_payment_size = 80
