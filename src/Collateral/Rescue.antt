-- ===== src/Collateral/Rescue.antt =====
-- The rescue of tokens from the contract (sla_calculator/src/token_rescue.rs). The token contracts
-- are parameters: what an account holds of a token, and a transfer, which fails with `none`.
pub mod Covered
pub mod Tests
use noc_iq_contracts.Base.{ℕ, ◌==◌, Option, none, some, List, [], ◌∷◌, ◌++◌}
use noc_iq_contracts.Base.Int.{ℤ, ◌+ℤ◌, neg_ℤ, ltb_ℤ, wrap_i128}
use noc_iq_contracts.Types.{Address}
use noc_iq_contracts.Effect.{Effect, ok, panic, ◌>>=◌, ◌>>◌, reads, writes, refuse_if, kept}
use noc_iq_contracts.Collateral.{Vault, total_locked}

pub data RescueError : Type 0 where
  cannot_rescue_collateral_token exceeds_unlocked_surplus : RescueError

-- The collateral, what the token contracts store, and the tokens that events name.
pub record RescueStore (World : Type 0) : Type 0 where
  pub vault : Vault
  pub world : World
  pub rescued : List Address

-- The calls with their arguments.
pub data RescueOrder : Type 0 where
  tokens_order : Address → Address → ℤ → RescueOrder
  surplus_order : Address → ℤ → RescueOrder

module _ {World : Type 0} (balance : Address → Address → World → ℤ)
    (transfer : Address → Address → Address → ℤ → World → Option World)
    (contract collateral_token : Address) where
  abbrev RescueCall : Type 0 → Type 0
  RescueCall A = Effect (RescueStore World) RescueError A

  -- The transfer from the contract with its event; a transfer that fails aborts the call.
  abbrev pub send : Address → Address → ℤ → RescueCall (Unit {0})
  send token recipient amount now s = elim (transfer token contract recipient amount s.world) [
    | none ↦ (panic, s)
    | some w ↦ (ok tt, record s { world = w; rescued = s.rescued ++ (token ∷ []) })
  ]

  unfoldable pub rescue_tokens : Address → Address → ℤ → RescueCall (Unit {0})
  rescue_tokens token_address recipient amount = do
    refuse_if (token_address == collateral_token) cannot_rescue_collateral_token
    send token_address recipient amount

  unfoldable pub rescue_surplus_collateral : Address → ℤ → RescueCall (Unit {0})
  rescue_surplus_collateral recipient amount = do
    held ← reads (λ s. balance collateral_token contract s.world)
    locked ← reads (λ s. total_locked s.vault)
    refuse_if (ltb_ℤ (wrap_i128 (held +ℤ neg_ℤ locked)) amount) exceeds_unlocked_surplus
    send collateral_token recipient amount

  abbrev pub run_order : ℕ → RescueOrder → RescueStore World → RescueStore World
  run_order now (tokens_order token recipient amount) s =
      kept s (rescue_tokens token recipient amount now s)
  run_order now (surplus_order recipient amount) s =
      kept s (rescue_surplus_collateral recipient amount now s)
