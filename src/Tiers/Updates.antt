-- ===== src/Tiers/Updates.antt =====
-- A proposal is executed as it was made (sla_calculator/src/threshold_config.rs).
use noc_iq_contracts.Base.{ℕ, ◌+◌, ◌≤◌, ◌<◌, ◌≡◌, some, Option-cases, inl, inr, arith, unwrap_or}
use noc_iq_contracts.Types.{Address, u64_mod}
use noc_iq_contracts.Effect.{ok}
use noc_iq_contracts.Effect.Reach.{Reach, Reach-keeps}
use noc_iq_contracts.Tiers.{
  TierTable, TierTableProposal, TierStore, TierOrder, set_order, propose_order, execute_order,
  run_order, set_tier_table, propose_tier_table, execute_tier_table_proposal,
}

-- The id is in use, and a pending proposal under it proposes the table.
abbrev Pins : ℕ → TierTable → TierStore → Type 0
Pins id table s =
    (id ≤ unwrap_or s.last_id 0)
    × ((p : TierTableProposal) → s.pending ≡ some p → p.proposal_id ≡ id → p.new_table ≡ table)

module _ (id : ℕ) (table : TierTable) (within : id + 1 < u64_mod) where
  run_order-Pins :
      (now : ℕ) (order : TierOrder) (s : TierStore)
      → Pins id table s
      → Pins id table (run_order now order s)
  unfolding set_tier_table propose_tier_table execute_tier_table_proposal
  run_order-Pins now (set_order caller new) s h = (ground arith, λ p e f. ground (arith, h.1 p))
  run_order-Pins now (propose_order caller new) s h = (ground arith, λ p e f. ground (arith, h.1 p))
  run_order-Pins now (execute_order caller n) s h = elim (Option-cases s.pending) [
    | inl none_yet ↦ (ground arith, λ p e f. ground (arith, h.1 p))
    | inr (q, stored) ↦ (ground arith, λ p e f. ground (arith, h.1 p))
  ]

-- Once a proposal has been accepted under an id below the largest u64, whatever calls follow, a call
-- that executes this id with success installs the table of that proposal.
pub executed-eq-proposed :
    (proposer caller : Address) (table : TierTable) (at now id : ℕ) (s : TierStore) {t : TierStore}
    → (propose_tier_table proposer table at s).0 ≡ ok id
    → id + 1 < u64_mod
    → Reach run_order (propose_tier_table proposer table at s).1 t
    → (execute_tier_table_proposal caller id now t).0 ≡ ok tt
    → (execute_tier_table_proposal caller id now t).1.table ≡ some table
unfolding propose_tier_table execute_tier_table_proposal
executed-eq-proposed proposer caller table at now id s {t} proposed within path done =
    let start : Pins id table (propose_tier_table proposer table at s).1 =
      (ground arith, λ p e f. ground arith) in
    let h = Reach-keeps run_order (Pins id table) (run_order-Pins id table within) path start in
    elim (Option-cases t.pending) [
      | inl none_yet ↦ ground (arith, none_yet)
      | inr (p, stored) ↦ ground (arith, stored, h.1 p stored)
    ]
