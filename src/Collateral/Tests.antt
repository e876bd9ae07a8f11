-- ===== src/Collateral/Tests.antt =====
-- Payouts from a collateral (sla_calculator/src/collateral_lock.rs), and the theorem at this input.
use noc_iq_contracts.Base.{ℕ, ◌-◌, ◌≤◌, ◌≡◌, refl, true, List, [], ◌∷◌, arith}
use noc_iq_contracts.Base.Int.{ℤ, pos, ◌*ℤ◌, ◌+ℤ◌, neg_ℤ, wrap_i128, div_trunc}
use noc_iq_contracts.AddressMap.{get, set}
use noc_iq_contracts.Effect.{err}
use noc_iq_contracts.Collateral.{
  Vault, new_lock, available_collateral, payout_from_collateral, payout_exceeds_locked,
  lock_conserved,
}
use noc_iq_contracts.Collateral.Conserve.{pay_all, payouts_conserve}

-- 100 of provider 7, covered at 150 percent.
abbrev locked_100 : Vault
locked_100 = record { records = (7, new_lock 7 (pos 100) 15000 50) ∷ []; events = [] }

abbrev orders : List (ℤ × ℕ)
orders = (pos 30, 60) ∷ (pos 90, 61) ∷ (pos 70, 62) ∷ (pos 1, 63) ∷ []

locked_100-available : available_collateral 7 locked_100 ≡ pos 100
unfolding available_collateral get
locked_100-available = refl

-- A penalty that the coverage admits may still exceed what is locked.
covered_but_not_paid :
    (payout_from_collateral 7 (pos 120) 60 60 locked_100).0 ≡ err payout_exceeds_locked
unfolding payout_from_collateral get set ◌*ℤ◌ ◌+ℤ◌ neg_ℤ wrap_i128 div_trunc
covered_but_not_paid = refl

all_paid : (pay_all 7 orders locked_100).0 ≡ 100
unfolding pay_all payout_from_collateral get set ◌*ℤ◌ ◌+ℤ◌ neg_ℤ wrap_i128 div_trunc
all_paid = refl

payouts_conserve_example :
    let (paid, t) = pay_all 7 orders locked_100 in
    (paid ≤ 100)
    × (available_collateral 7 t ≡ pos (100 - paid))
    × (lock_conserved (pos 100) (pos paid) (available_collateral 7 t) ≡ true)
payouts_conserve_example =
    payouts_conserve 7 orders locked_100 100 (omega arith) locked_100-available
