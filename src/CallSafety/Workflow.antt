-- ===== src/CallSafety/Workflow.antt =====
-- A sequence of calls that stops at the first error
-- (sla_calculator/src/cross_contract_safety.rs).
use mathlib.Core.List.{append-nil, append_assoc}
use noc_iq_contracts.Base.{
  ◌≡◌, refl, sym, inl, inr, Bool, true, false, Option, none, some, List, [], ◌∷◌, ◌++◌, map,
  if◌then◌else◌, Bool-cases, arith, ap, ◌∙◌,
}
use noc_iq_contracts.Types.{Address, Symbol}
use noc_iq_contracts.Effect.{ok, err, panic}
use noc_iq_contracts.CallSafety.{
  CompensationAction, CrossContractSafety, SafeCallResult, result_of, call, safe_invoke_contract,
}

pub record Invocation (Val : Type 0) : Type 0 where
  pub contract_id : Address
  pub function_name : Symbol
  pub args : List Val
  pub tag : Symbol

abbrev pub action_of : {Val : Type 0} → Invocation Val → CompensationAction
action_of i = record { tag = i.tag; fn_name = i.function_name }

module _ {World Val : Type 0}
    (try_invoke : Address → Symbol → List Val → World → Bool × World) where
  abbrev pub invoke : Invocation Val → World → Bool × World
  invoke i w = try_invoke i.contract_id i.function_name i.args w

  -- `?` after each call: the first error ends the sequence.
  unfoldable pub run_all :
      List (Invocation Val)
      → CrossContractSafety
      → World
      → Option SafeCallResult × CrossContractSafety × World
  run_all [] safety w = (none, safety, w)
  run_all (i ∷ rest) safety w =
      let (outcome, safety', w') =
        call try_invoke i.contract_id i.function_name i.args i.tag safety w in
      elim outcome [
        | ok r ↦ run_all rest safety' w'
        | err r ↦ (some r, safety', w')
        | panic ↦ (none, safety', w')
      ]

  -- All invocations returned without an error, one after another.
  pub data Returned : World → List (Invocation Val) → World → Type 0 where
    idle : {w : World} → Returned w [] w
    then_also :
        {i : Invocation Val} {done : List (Invocation Val)} {w w' w'' : World}
        → invoke i w ≡ (true, w')
        → Returned w' done w''
        → Returned w (i ∷ done) w''

  -- Where the sequence stopped: after the last invocation, or at one that failed.
  abbrev pub Stopped : List (Invocation Val) → World → Option SafeCallResult → Type 0
  Stopped [] w result = result ≡ none
  Stopped (i ∷ rest) w result = ((invoke i w).0 ≡ false) × (result ≡ some (result_of false))

  abbrev Compensates :
      List (Invocation Val)
      → CrossContractSafety
      → World
      → Option SafeCallResult × CrossContractSafety × World
      → Type 0
  Compensates invocations before w (result, after, w_end) =
      (done : List (Invocation Val)) × (rest : List (Invocation Val)) × (w' : World) × (invocations
        ≡ done ++ rest)
      × Returned w done w'
      × (after.compensation_stack ≡ before.compensation_stack ++ map action_of done)
      × Stopped rest w' result

  abbrev with_action : Invocation Val → CrossContractSafety → CrossContractSafety
  with_action i before = record before {
    compensation_stack = before.compensation_stack ++ (action_of i ∷ []);
  }

  run_all-cons :
      (i : Invocation Val) (rest : List (Invocation Val)) (before : CrossContractSafety) (w : World)
      → run_all (i ∷ rest) before w ≡ (
          if (invoke i w).0
          then run_all rest (with_action i before) (invoke i w).1
          else (some (result_of false), before, (invoke i w).1))
  unfolding run_all call safe_invoke_contract
  run_all-cons i rest before w = ground arith

  -- Whatever the called contracts do, of a sequence of calls that ends at the first error the first
  -- ones returned and the next one, if there is one, failed with the fatal status; the stack then has
  -- the compensations of exactly those that returned, oldest first, above what it held before.
  pub run_all-Compensates :
      (invocations : List (Invocation Val)) (before : CrossContractSafety) (w : World)
      → Compensates invocations before w (run_all invocations before w)
  unfolding run_all
  run_all-Compensates [] before w =
      ([], [], w, refl, idle, sym (append-nil before.compensation_stack), refl)
  run_all-Compensates (i ∷ rest) before w = elim (Bool-cases (invoke i w).0) [
    | inl returned ↦
        let (done, left, w', split, ran, stack, stopped) =
          run_all-Compensates rest (with_action i before) (invoke i w).1 in
        rw (run_all-cons i rest before w, returned)
          (
            i ∷ done,
            left,
            w',
            ap (λ l. i ∷ l) split,
            then_also (ground arith) ran,
            stack ∙ append_assoc before.compensation_stack (action_of i ∷ []) (map action_of done),
            stopped,
          )
    | inr failed ↦
        rw (run_all-cons i rest before w, failed)
          ([], i ∷ rest, w, refl, idle, sym (append-nil before.compensation_stack), (failed, refl))
  ]
