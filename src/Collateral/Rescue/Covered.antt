-- ===== src/Collateral/Rescue/Covered.antt =====
-- Rescues leave the locked collateral in the contract (sla_calculator/src/token_rescue.rs,
-- collateral_lock.rs).
use noc_iq_contracts.Base.{
  ℕ, ◌-◌, ◌≡◌, ◌==◌, ◌&&◌, not, false, Option, some, arith, if◌then◌else◌, Option-cases, Bool-cases,
  inl, inr,
}
use noc_iq_contracts.Base.Int.{
  ℤ, pos, negsuc, ◌≤ℤ◌, ◌+ℤ◌, neg_ℤ, ltb_ℤ, i128_max, wrap_i128, wrap_i128-sub,
}
use noc_iq_contracts.Types.{Address}
use noc_iq_contracts.Effect.Reach.{Reach, Reach-keeps}
use noc_iq_contracts.Collateral.{total_locked}
use noc_iq_contracts.Collateral.Rescue.{
  RescueStore, RescueOrder, tokens_order, surplus_order, rescue_tokens, rescue_surplus_collateral,
  run_order,
}

-- An amount within the surplus leaves what is locked.
surplus_lem :
    (locked : ℕ) (held total amount : ℤ)
    → pos locked ≤ℤ held
    → held ≤ℤ pos i128_max
    → total ≡ pos locked
    → pos 0 ≤ℤ amount
    → ltb_ℤ (wrap_i128 (held +ℤ neg_ℤ total)) amount ≡ false
    → (pos locked ≤ℤ (held +ℤ neg_ℤ amount)) × ((held +ℤ neg_ℤ amount) ≤ℤ pos i128_max)
unfolding ◌+ℤ◌ neg_ℤ
surplus_lem locked (pos n) total (pos a) le fits e low within =
    let rest = wrap_i128-sub n locked (omega arith) (omega arith) in
    let within' : ltb_ℤ (pos (n - locked)) (pos a) ≡ false = rw (e, rest) at within in
    ground (arith, within')
surplus_lem locked (pos n) total (negsuc a) le fits e low within = ground arith
surplus_lem locked (negsuc n) total amount le fits e low within = ground arith

module _ {World : Type 0} (balance : Address → Address → World → ℤ)
    (transfer : Address → Address → Address → ℤ → World → Option World)
    (contract collateral_token : Address) where
  -- A transfer that succeeds is of at least 0, and takes its amount from the sender's balance of the
  -- token, unless the sender receives it.
  abbrev pub Debits : Type 0
  Debits =
      (token recipient asked : Address) (amount : ℤ) (w w' : World)
      → transfer token contract recipient amount w ≡ some w'
      → (pos 0 ≤ℤ amount)
        × (balance asked contract w' ≡ (
            if (asked == token) && not (recipient == contract)
            then balance asked contract w +ℤ neg_ℤ amount
            else balance asked contract w))

  -- The contract holds at least the collateral that is locked, and a balance that is an i128.
  abbrev pub Covered : ℕ → RescueStore World → Type 0
  Covered locked s =
      (pos locked ≤ℤ balance collateral_token contract s.world)
      × (balance collateral_token contract s.world ≤ℤ pos i128_max)
      × (total_locked s.vault ≡ pos locked)

  module _ (debits : Debits) (now locked : ℕ) (recipient : Address) (s : RescueStore World) where
    abbrev after : RescueOrder → RescueStore World
    after order = run_order balance transfer contract collateral_token now order s

    tokens-Covered :
        (token : Address) (amount : ℤ)
        → Covered locked s
        → Covered locked (after (tokens_order token recipient amount))
    unfolding rescue_tokens
    tokens-Covered token amount h =
        elim (Option-cases (transfer token contract recipient amount s.world)) [
          | inl failed ↦ ground (arith, failed)
          | inr (w, sent) ↦
              ground
                (arith, sent, (debits token recipient collateral_token amount s.world w sent).1)
        ]

    surplus-Covered :
        (amount : ℤ) → Covered locked s → Covered locked (after (surplus_order recipient amount))
    unfolding rescue_surplus_collateral
    surplus-Covered amount h =
        let held = balance collateral_token contract s.world in
        let before = surplus_lem locked held (total_locked s.vault) amount h.0 h.1 h.2 in
        elim (Bool-cases (ltb_ℤ (wrap_i128 (held +ℤ neg_ℤ (total_locked s.vault))) amount)) [
          | inl refused ↦ ground (arith, refused)
          | inr within ↦
              elim (Option-cases (transfer collateral_token contract recipient amount s.world)) [
                | inl failed ↦ ground (arith, failed)
                | inr (w, sent) ↦
                    let d =
                      debits collateral_token recipient collateral_token amount s.world w sent in
                    let left = before d.0 within in ground (arith, sent, within, d, left)
              ]
        ]

  run_order-Covered :
      Debits
      → (locked now : ℕ) (order : RescueOrder) (s : RescueStore World) → Covered locked s
      → Covered locked (run_order balance transfer contract collateral_token now order s)
  run_order-Covered d locked now (tokens_order token recipient amount) s h =
      tokens-Covered d now locked recipient s token amount h
  run_order-Covered d locked now (surplus_order recipient amount) s h =
      surplus-Covered d now locked recipient s amount h

-- Where the token contracts debit what they transfer, and the contract holds at least the collateral
-- that is locked, of at least 0, and an i128 of the collateral token: whatever rescues follow, it
-- still does, and as much is locked as before.
pub rescues_spare_collateral :
    {World : Type 0} (balance : Address → Address → World → ℤ)
    (transfer : Address → Address → Address → ℤ → World → Option World)
    (contract collateral_token : Address) (locked : ℕ) {s t : RescueStore World}
    → Debits balance transfer contract collateral_token
    → Covered balance transfer contract collateral_token locked s
    → Reach (run_order balance transfer contract collateral_token) s t
    → Covered balance transfer contract collateral_token locked t
rescues_spare_collateral balance transfer contract collateral_token locked d h path =
    Reach-keeps (run_order balance transfer contract collateral_token)
      (Covered balance transfer contract collateral_token locked)
      (run_order-Covered balance transfer contract collateral_token d locked) path h
