-- ===== src/Operators.antt =====
-- The set of operators (sla_calculator/src/multi_operator.rs).
pub mod Count
pub mod Tests
use noc_iq_contracts.Base.{
  ℕ, ◌+◌, ◌-◌, ◌==◌, not, Bool, true, false, Option, none, some, List, [], ◌∷◌, ◌++◌, if◌then◌else◌,
  unwrap_or,
}
use noc_iq_contracts.Types.{Address, SlaError, not_initialized, unauthorized, saturating_u32}
use noc_iq_contracts.AddressMap.{get, set}
use noc_iq_contracts.Effect.{
  Effect, ◌>>=◌, ◌>>◌, return_ok, reads, writes, found_or, refuse_if, kept,
}

pub record OperatorState : Type 0 where
  pub operators : List (Address × Bool)
  pub count : ℕ

pub data OperatorEvent : Type 0 where
  op_add op_rem : Address → Address → OperatorEvent

pub record OperatorStore : Type 0 where
  pub admin : Option Address
  pub state : Option OperatorState
  pub events : List OperatorEvent

abbrev pub OperatorEffect : Type 0 → Type 0
OperatorEffect A = Effect OperatorStore SlaError A

abbrev pub save : OperatorState → OperatorEffect (Unit {0})
save w = writes (λ s. record s { state = some w })

abbrev pub emit : OperatorEvent → OperatorEffect (Unit {0})
emit ev = writes (λ s. record s { events = s.events ++ (ev ∷ []) })

-- `state.operators.get(a).unwrap_or(false)`
abbrev pub is_active : Address → OperatorState → Bool
is_active a w = unwrap_or (get a w.operators) false

-- `env.storage().instance().get(&OPERATORS_KEY).ok_or(SLAError::NotInitialized)?`
abbrev pub stored_state : OperatorEffect OperatorState
stored_state = do state ← reads (λ s. s.state); found_or state not_initialized

unfoldable pub init_operators : Address → OperatorEffect (Unit {0})
init_operators operator = save (record { operators = set operator true []; count = 1 })

unfoldable pub is_operator : Address → OperatorEffect (Unit {0})
is_operator caller = do state ← stored_state; refuse_if (not (is_active caller state)) unauthorized

abbrev pub require_admin : Address → OperatorEffect (Unit {0})
require_admin caller = do
  admin ← found_or (← reads (λ s. s.admin)) not_initialized
  refuse_if (not (caller == admin)) unauthorized

unfoldable pub add_operator : Address → Address → OperatorEffect (Unit {0})
add_operator caller new_operator = do
  require_admin caller
  state ← stored_state
  if is_active new_operator state
      then return_ok tt
      else (save (record state {
        operators = set new_operator true state.operators;
        count = saturating_u32 (state.count + 1);
      })
          >> emit (op_add caller new_operator))

unfoldable pub remove_operator : Address → Address → OperatorEffect (Unit {0})
remove_operator caller operator = do
  require_admin caller
  state ← stored_state
  if not (is_active operator state)
      then return_ok tt
      else (save (record state {
        operators = set operator false state.operators;
        count = state.count - 1;
      })
          >> emit (op_rem caller operator))

-- The loop of `list_operators` over the entries, in the order in which the host iterates.
unfoldable pub active_addresses : List (Address × Bool) → List Address
active_addresses [] = []
active_addresses ((a, active) ∷ m) =
    let rest = active_addresses m in if active then a ∷ rest else rest

-- `iter` is the iteration of the host's map.
unfoldable pub list_operators :
    (List (Address × Bool) → List (Address × Bool)) → OperatorEffect (List Address)
list_operators iter = do state ← stored_state; return_ok (active_addresses (iter state.operators))

unfoldable pub operator_count : OperatorEffect ℕ
operator_count = do state ← stored_state; return_ok state.count

-- The calls that change the set.
pub data OperatorCall : Type 0 where
  add_call remove_call : Address → Address → OperatorCall

abbrev pub run_call : ℕ → OperatorCall → OperatorStore → OperatorStore
run_call now (add_call c a) s = kept s (add_operator c a now s)
run_call now (remove_call c a) s = kept s (remove_operator c a now s)
