-- ===== src/Operators/Tests.antt =====
-- Operators that come and go (sla_calculator/src/multi_operator.rs), and the theorem at this input.
use noc_iq_contracts.Base.{◌≡◌, refl, Bool, some, none, List, [], ◌∷◌, length, arith}
use mathlib.Core.List.{Permᴰ}
use noc_iq_contracts.Types.{Address, unauthorized}
use noc_iq_contracts.AddressMap.{get, set}
use noc_iq_contracts.Effect.{ok, err}
use noc_iq_contracts.Effect.Reach.{here, next}
use noc_iq_contracts.Operators.{
  OperatorStore, add_call, remove_call, run_call, init_operators, add_operator, remove_operator,
  is_operator, list_operators, operator_count, active_addresses,
}
use noc_iq_contracts.Operators.Count.{stored_entries, operator_count-list_operators}

-- The admin is 1; the operator 2 is replaced by 3, and 3 is added a second time.
abbrev admin_only : OperatorStore
admin_only = record { admin = some 1; state = none; events = [] }

abbrev first : OperatorStore
first = (init_operators 2 0 admin_only).1

abbrev last : OperatorStore
last = run_call 4 (add_call 1 3) (run_call 3 (remove_call 1 2) (run_call 2 (add_call 1 3) first))

removed_is_unauthorized : (is_operator 2 5 last).0 ≡ err unauthorized
unfolding is_operator get set add_operator remove_operator init_operators
removed_is_unauthorized = refl

only_three : (list_operators (λ m. m) 5 last).0 ≡ ok (3 ∷ [])
unfolding list_operators active_addresses get set add_operator remove_operator init_operators
only_three = refl

others_cannot_add : (add_operator 2 4 1 first).0 ≡ err unauthorized
unfolding add_operator init_operators
others_cannot_add = refl

same_order : (m : List (Address × Bool)) → Permᴰ m m
same_order [] = Permᴰ.nil
same_order (x ∷ m) = Permᴰ.cons refl (same_order m)

operator_count-list_operators_example :
    (names : List Address) × ((list_operators (λ m. m) 5 last).0 ≡ ok names)
    × ((operator_count 5 last).0 ≡ ok (length names))
unfolding get set add_operator remove_operator init_operators stored_entries
operator_count-list_operators_example =
    operator_count-list_operators (λ m. m) 2 0 5 admin_only same_order
      (next 4 (add_call 1 3) (next 3 (remove_call 1 2) (next 2 (add_call 1 3) here))) (omega arith)
