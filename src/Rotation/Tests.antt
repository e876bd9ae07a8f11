-- ===== src/Rotation/Tests.antt =====
-- A rotation and an upgrade (sla_calculator/src/upgrade_path.rs), and the theorems at these inputs.
use noc_iq_contracts.Base.{ℕ, ◌≡◌, ◌≢◌, refl, none, some, [], ◌∷◌, arith}
use noc_iq_contracts.Effect.Reach.{Reach, here, next}
use noc_iq_contracts.Rotation.{
  KeyStore, KeyCall, guardians_call, propose_call, execute_call, run_call,
}
use noc_iq_contracts.Rotation.Safety.{IsSanctioned, admin_change-IsSanctioned}

-- Address 1 is the admin; nothing is stored besides.
abbrev fresh : KeyStore
fresh = record {
  admin = some 1;
  version = none;
  upgrade_log = [];
  guardians = [];
  proposal = none;
  events = [];
}

-- Three of the five guardians 11 to 15 propose 2 as the admin.
abbrev approved_thrice : KeyStore
approved_thrice = run_call 300 (propose_call 13 2) (
    run_call 200 (propose_call 12 2) (
      run_call 150 (propose_call 11 2)
        (run_call 100 (guardians_call 1 (11 ∷ 12 ∷ 13 ∷ 14 ∷ 15 ∷ [])) fresh)))

approved_thrice-Reach : Reach run_call fresh approved_thrice
approved_thrice-Reach = next 300 _ (next 200 _ (next 150 _ (next 100 _ here)))

approved_thrice_admin : approved_thrice.admin ≡ some 1
unfolding run_call
approved_thrice_admin = refl

executed_admin : (run_call 260000 execute_call approved_thrice).admin ≡ some 2
unfolding run_call
executed_admin = refl

too_early : (run_call 200000 execute_call approved_thrice).admin ≡ some 1
unfolding run_call
too_early = refl

-- Guardian 14 names another admin, and the three approvals are gone.
approvals_lost :
    (run_call 260000 execute_call (run_call 250000 (propose_call 14 3) approved_thrice)).admin
    ≡ some 1
unfolding run_call
approvals_lost = refl

different : ◌≢◌ {A = ℕ} 1 2
different e = absurd (omega arith)

admin_change-IsSanctioned_example :
    (◌≡◌ {A = KeyCall} execute_call execute_call) × IsSanctioned approved_thrice-Reach 260000 2
admin_change-IsSanctioned_example =
    admin_change-IsSanctioned fresh 260000 execute_call 1 2 refl approved_thrice-Reach
      approved_thrice_admin executed_admin different
