-- ===== src/Operators/Count.antt =====
-- The count of operators is the length of their list (sla_calculator/src/multi_operator.rs).
use noc_iq_contracts.Base.{
  ℕ, ◌<◌, ◌≡◌, ◌≢◌, refl, Bool, true, false, none, some, List, [], ◌∷◌, length, Option-cases, inl,
  inr, arith,
}
use mathlib.Core.List.{Permᴰ}
use noc_iq_contracts.Types.{Address, u32_mod}
use noc_iq_contracts.AddressMap.{set}
use noc_iq_contracts.AddressMap.Flags.{
  count_listed, count_listed-le-length, count_listed-set, length-set, Permᴰ-count_listed,
}
use noc_iq_contracts.Effect.{ok}
use noc_iq_contracts.Effect.Reach.{Reach, Reach-keeps}
use noc_iq_contracts.Operators.{
  OperatorState, OperatorStore, OperatorCall, add_call, remove_call, run_call, add_operator,
  remove_operator, init_operators, active_addresses, list_operators, operator_count,
}

length-active_addresses : (m : List (Address × Bool)) → length (active_addresses m) ≡ count_listed m
unfolding active_addresses count_listed
length-active_addresses [] = refl
length-active_addresses ((a, b) ∷ m) = ground (arith, length-active_addresses m)

-- With fewer than 2 ^ 32 entries the stored count is that of the listed addresses.
abbrev IsCountedState : OperatorState → Type 0
IsCountedState w = length w.operators < u32_mod → w.count ≡ count_listed w.operators

-- A state is stored, and each that is stored is counted.
abbrev IsCounted : OperatorStore → Type 0
IsCounted s = (s.state ≢ none) × ((w : OperatorState) → s.state ≡ some w → IsCountedState w)

add_operator-IsCounted :
    (now : ℕ) (c a : Address) (s : OperatorStore)
    → IsCounted s
    → IsCounted (run_call now (add_call c a) s)
unfolding add_operator
add_operator-IsCounted now c a s h = (
  ground (arith, h.0),
  λ w e few. elim (Option-cases s.state) [
    | inl none_yet ↦ ground (arith, none_yet, h.1 w)
    | inr (v, stored) ↦
        let m = v.operators in
        ground (
          arith,
          h.1 w,
          h.1 v stored,
          count_listed-set a true m,
          length-set a true m,
          count_listed-le-length (set a true m),
        )
  ],
)

remove_operator-IsCounted :
    (now : ℕ) (c a : Address) (s : OperatorStore)
    → IsCounted s
    → IsCounted (run_call now (remove_call c a) s)
unfolding remove_operator
remove_operator-IsCounted now c a s h = (
  ground (arith, h.0),
  λ w e few. elim (Option-cases s.state) [
    | inl none_yet ↦ ground (arith, none_yet, h.1 w)
    | inr (v, stored) ↦
        let m = v.operators in
        ground (arith, h.1 w, h.1 v stored, count_listed-set a false m, length-set a false m)
  ],
)

run_call-IsCounted :
    (now : ℕ) (call : OperatorCall) (s : OperatorStore)
    → IsCounted s
    → IsCounted (run_call now call s)
run_call-IsCounted now (add_call c a) s h = add_operator-IsCounted now c a s h
run_call-IsCounted now (remove_call c a) s h = remove_operator-IsCounted now c a s h

initial-IsCounted :
    (now : ℕ) (operator : Address) (s : OperatorStore) → IsCounted (init_operators operator now s).1
unfolding init_operators set count_listed
initial-IsCounted now operator s = (ground arith, λ w e few. ground (arith, e))

-- How many addresses are or were operators.
unfoldable pub stored_entries : OperatorStore → ℕ
stored_entries s = elim s.state [ none ↦ 0 | some w ↦ length w.operators ]

-- For any order in which the host iterates over a map: from `init_operators` on, whatever operators are added and removed by whomever, the calls of
-- `list_operators` and `operator_count` succeed, and the count is the length of the list, as long as
-- the map has fewer than 2 ^ 32 entries.
pub operator_count-list_operators :
    (iter : List (Address × Bool) → List (Address × Bool)) (operator : Address) (at now : ℕ)
    (before : OperatorStore) {t : OperatorStore}
    → ((m : List (Address × Bool)) → Permᴰ (iter m) m)
    → Reach run_call (init_operators operator at before).1 t
    → stored_entries t < u32_mod
    → (names : List Address) × ((list_operators iter now t).0 ≡ ok names)
      × ((operator_count now t).0 ≡ ok (length names))
unfolding list_operators operator_count stored_entries
operator_count-list_operators iter operator at now before {t} reorders path few =
    let h =
      Reach-keeps run_call IsCounted run_call-IsCounted path
        (initial-IsCounted at operator before) in
    elim (Option-cases t.state) [
      | inl missing ↦ absurd (h.0 missing)
      | inr (w, e) ↦ (
        active_addresses (iter w.operators),
        ground (arith, e),
        ground (
          arith,
          e,
          h.1 w e,
          length-active_addresses (iter w.operators),
          Permᴰ-count_listed (reorders w.operators),
        ),
      )
    ]
