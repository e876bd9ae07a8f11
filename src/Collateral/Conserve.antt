-- ===== src/Collateral/Conserve.antt =====
-- What payouts leave of a provider's collateral (sla_calculator/src/collateral_lock.rs).
use noc_iq_contracts.Base.{
  ℕ, ◌+◌, ◌-◌, ◌≤◌, ◌≡◌, true, List, [], ◌∷◌, Option-cases, inl, inr, ==_refl, arith,
}
use noc_iq_contracts.Base.Int.{
  ℤ, pos, negsuc, i128_max, pos_part, wrap_i128, wrap_i128-pos, wrap_i128-sub, ◌+ℤ◌, neg_ℤ,
}
use noc_iq_contracts.Types.{Address}
use noc_iq_contracts.AddressMap.{get, get-set}
use noc_iq_contracts.Effect.{Outcome, ok, err, panic, kept}
use noc_iq_contracts.Collateral.{
  LockError, Vault, available_collateral, verify_coverage, payout_from_collateral, after_payout,
  lock_conserved,
}

abbrev pub paid_of : Outcome LockError ℤ → ℕ
paid_of (ok z) = pos_part z
paid_of (err x) = 0
paid_of panic = 0

-- The payouts of a list of penalties with their times, and the sum that they pay.
unfoldable pub pay_all : Address → List (ℤ × ℕ) → Vault → ℕ × Vault
pay_all provider [] s = (0, s)
pay_all provider ((penalty, at) ∷ rest) s =
    let r = payout_from_collateral provider penalty at at s in
    let (paid, t) = pay_all provider rest (kept s r) in (paid_of r.0 + paid, t)

rest_lem :
    (amount : ℤ) (left p : ℕ)
    → left ≤ i128_max
    → amount ≡ pos left
    → p ≤ left
    → wrap_i128 (amount +ℤ neg_ℤ (pos p)) ≡ pos (left - p)
rest_lem amount left p fits e le = rw e (wrap_i128-sub left p fits le)

-- One payout, whatever it returns, takes from the collateral what it pays.
module _ (provider : Address) (at left : ℕ) (s : Vault) (fits : left ≤ i128_max)
    (h : available_collateral provider s ≡ pos left) where
  payout-left :
      (penalty : ℤ)
      → let r = payout_from_collateral provider penalty at at s in
        (paid_of r.0 ≤ left) × (available_collateral provider (kept s r) ≡ pos (left - paid_of r.0))
  unfolding payout_from_collateral verify_coverage available_collateral
  payout-left (negsuc n) = ground arith
  payout-left (pos p) = elim (Option-cases (get provider s.records)) [
    | inl e ↦ ground arith
    | inr (r, e) ↦
        let rest = wrap_i128 (r.amount +ℤ neg_ℤ (pos p)) in
        ground (
          arith,
          rest_lem r.amount left p fits,
          get-set provider provider (after_payout rest at r) s.records,
          ==_refl provider,
        )
  ]

pay_all-left :
    (provider : Address) (orders : List (ℤ × ℕ)) (s : Vault) (left : ℕ)
    → left ≤ i128_max
    → available_collateral provider s ≡ pos left
    → ((pay_all provider orders s).0 ≤ left)
      × (available_collateral provider (pay_all provider orders s).1
          ≡ pos (left - (pay_all provider orders s).0))
unfolding pay_all
pay_all-left provider [] s left fits h = (omega arith, ground arith)
pay_all-left provider ((penalty, at) ∷ orders) s left fits h =
    let r = payout_from_collateral provider penalty at at s in
    let first = payout-left provider at left s fits h penalty in
    let rest = pay_all-left provider orders (kept s r) (left - paid_of r.0) (omega arith) first.1 in
    (omega arith, ground arith)

lock_conserved-split :
    (a b : ℕ) → a ≤ i128_max → b ≤ a → lock_conserved (pos a) (pos b) (pos (a - b)) ≡ true
unfolding lock_conserved ◌+ℤ◌
lock_conserved-split a b fits le =
    let e : pos b +ℤ pos (a - b) ≡ pos a = ground arith in
    rw (e, wrap_i128-pos a fits) (ground arith)

-- Whatever penalties of a provider are taken one after another from a collateral within the range
-- of i128, what they pay and what is left locked add up to the collateral, so `lock_conserved`
-- holds of the three amounts.
pub payouts_conserve :
    (provider : Address) (orders : List (ℤ × ℕ)) (s : Vault) (collateral : ℕ)
    → collateral ≤ i128_max
    → available_collateral provider s ≡ pos collateral
    → let (paid, t) = pay_all provider orders s in
      (paid ≤ collateral)
      × (available_collateral provider t ≡ pos (collateral - paid))
      × (lock_conserved (pos collateral) (pos paid) (available_collateral provider t) ≡ true)
payouts_conserve provider orders s collateral fits h =
    let left = pay_all-left provider orders s collateral fits h in
    (
      left.0,
      left.1,
      rw left.1 (lock_conserved-split collateral (pay_all provider orders s).0 fits left.0),
    )
