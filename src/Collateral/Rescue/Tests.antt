-- ===== src/Collateral/Rescue/Tests.antt =====
-- Rescues from a contract with locked collateral (sla_calculator/src/token_rescue.rs), and the
-- theorem at this input.
use noc_iq_contracts.Base.{
  ◌≡◌, ◌==◌, ◌&&◌, not, refl, Option, none, some, [], ◌∷◌, arith, if◌then◌else◌,
}
use noc_iq_contracts.Base.Int.{ℤ, pos, ◌+ℤ◌, neg_ℤ, leb_ℤ, wrap_i128}
use noc_iq_contracts.Types.{Address}
use noc_iq_contracts.Effect.{err}
use noc_iq_contracts.Effect.Reach.{here, next}
use noc_iq_contracts.Collateral.{new_lock, total_locked, sum_locked}
use noc_iq_contracts.Collateral.Rescue.{
  RescueStore, surplus_order, tokens_order, rescue_surplus_collateral, exceeds_unlocked_surplus,
  run_order,
}
use noc_iq_contracts.Collateral.Rescue.Covered.{Debits, Covered, rescues_spare_collateral}

-- What contract 9 holds of each token; token 1 is the collateral.
abbrev Held : Type 0
Held = Address → ℤ

abbrev held_by : Address → Address → Held → ℤ
held_by token account held = held token

abbrev pay : Address → Address → Address → ℤ → Held → Option Held
pay token sender recipient amount held =
    if leb_ℤ (pos 0) amount && leb_ℤ amount (held token)
    then some (λ asked.
      if (asked == token) && not (recipient == 9) then held asked +ℤ neg_ℤ amount else held asked)
    else none

pay-Debits : Debits held_by pay 9 1
pay-Debits token recipient asked amount w w' paid = ground (arith, paid)

abbrev locked_100 : RescueStore Held
locked_100 = record {
  vault = record { records = (7, new_lock 7 (pos 100) 15000 50) ∷ []; events = [] };
  world = λ token. if token == 1 then pos 130 else pos 5;
  rescued = [];
}

too_much :
    (rescue_surplus_collateral held_by pay 9 1 4 (pos 31) 60 locked_100).0
    ≡ err exceeds_unlocked_surplus
unfolding rescue_surplus_collateral total_locked sum_locked ◌+ℤ◌ neg_ℤ wrap_i128
too_much = refl

locked_100-Covered : Covered held_by pay 9 1 100 locked_100
unfolding total_locked sum_locked ◌+ℤ◌ wrap_i128
locked_100-Covered = (omega arith, omega arith, refl)

abbrev rescued : RescueStore Held
rescued =
    run_order held_by pay 9 1 61 (tokens_order 2 4 (pos 5))
      (run_order held_by pay 9 1 60 (surplus_order 4 (pos 30)) locked_100)

rescues_spare_collateral_example : Covered held_by pay 9 1 100 rescued
rescues_spare_collateral_example =
    rescues_spare_collateral held_by pay 9 1 100 pay-Debits locked_100-Covered
      (next 61 (tokens_order 2 4 (pos 5)) (next 60 (surplus_order 4 (pos 30)) here))
