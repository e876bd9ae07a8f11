-- ===== src/Dispute/Settle.antt =====
-- The tally of the votes and the shared finalisation (sla_calculator/src/dispute.rs).
use noc_iq_contracts.Base.{
  ℕ, ◌+◌, ◌&&◌, Bool, true, false, Option, none, some, List, [], ◌∷◌, ◌++◌, String, length,
  unwrap_or, leb, ltb, ◌==◌, if◌then◌else◌,
}
use noc_iq_contracts.Base.Int.{ℤ, pos, ◌+ℤ◌, neg_ℤ, ◌*ℤ◌, ltb_ℤ, wrap_i128, div_trunc}
use noc_iq_contracts.Types.{Address, Symbol, insert}
use noc_iq_contracts.AddressMap.{get, set}
use noc_iq_contracts.Effect.{Effect, ◌>>=◌, ◌>>◌, return_ok, clock, writes}
use noc_iq_contracts.Dispute.State.{
  ArbitratorVote, VoteDecision, uphold_outage, dismiss_outage, DisputeRecord, SettlementPayout,
  DisputeError, Court, arbitrator_fee_bps, bps_denominator, arbitrator_panel_size,
  arbitrator_quorum, DisputeEvent, resolved, dispute_resolved, settlement_payout,
}

-- The counters of the loop over the votes.
pub record VoteCount : Type 0 where
  pub uphold_count : ℕ
  pub dismiss_count : ℕ
  pub all_frivolous_dismiss : Bool

abbrev pub no_votes : VoteCount
no_votes = record { uphold_count = 0; dismiss_count = 0; all_frivolous_dismiss = true }

abbrev pub count_vote : VoteDecision → Bool → VoteCount → VoteCount
count_vote uphold_outage frivolous c = record c {
  uphold_count = c.uphold_count + 1;
  all_frivolous_dismiss = false;
}
count_vote dismiss_outage frivolous c = record c {
  dismiss_count = c.dismiss_count + 1;
  all_frivolous_dismiss = (if frivolous then c.all_frivolous_dismiss else false);
}

unfoldable pub count_votes : List ArbitratorVote → VoteCount → VoteCount
count_votes [] c = c
count_votes (v ∷ vs) c = count_votes vs (count_vote v.decision v.frivolous c)

-- The decision that a quorum makes: upheld, bond slashed, and the note.
pub record Verdict : Type 0 where
  pub upheld : Bool
  pub slash_bond : Bool
  pub resolution : String

unfoldable pub verdict_of : VoteCount → Option Verdict
verdict_of c =
    if leb arbitrator_quorum c.uphold_count
    then some (record {
      upheld = true;
      slash_bond = false;
      resolution = "Auto-resolved: arbitrator quorum upheld the outage breach";
    })
    else if leb arbitrator_quorum c.dismiss_count
    then (let slash =
          (c.uphold_count + c.dismiss_count == arbitrator_panel_size) && c.all_frivolous_dismiss in
        some (record {
          upheld = false;
          slash_bond = slash;
          resolution =
              (if slash
                then "Auto-resolved: unanimous frivolous dismissal, bond slashed to arbitration pool"
                else "Auto-resolved: arbitrator quorum dismissed the outage breach");
        }))
    else none

unfoldable pub try_tally_quorum : DisputeRecord → Option Verdict
unfolding count_votes verdict_of
try_tally_quorum dispute = verdict_of (count_votes dispute.votes_detail no_votes)

-- The four amounts of a settlement, the last what goes to the pool.
unfoldable pub settlement_amounts : ℤ → ℕ → Bool → Bool → ℤ × ℤ × ℤ × ℤ
settlement_amounts bond voters upheld slash =
    if slash
    then (pos 0, pos 0, pos 0, bond)
    else (let fee =
          if upheld && ltb 0 voters
          then div_trunc (wrap_i128 (bond *ℤ pos arbitrator_fee_bps)) bps_denominator
          else pos 0 in
        let share = if ltb 0 voters then div_trunc fee voters else pos 0 in
        (wrap_i128 (bond +ℤ neg_ℤ fee), fee, share, pos 0))

-- The loop that credits each voter.
unfoldable pub credit_all : List Address → ℤ → List (Address × ℤ) → List (Address × ℤ)
unfolding get set
credit_all [] share fees = fees
credit_all (a ∷ arbitrators) share fees =
    credit_all arbitrators share (set a (wrap_i128 (unwrap_or (get a fees) (pos 0) +ℤ share)) fees)

abbrev pub publish : DisputeEvent → Effect Court DisputeError (Unit {0})
publish ev = writes (λ s. record s { events = s.events ++ (ev ∷ []) })

abbrev pub payout_of : Symbol → Bool → ℤ × ℤ × ℤ × ℤ → SettlementPayout
payout_of id upheld amounts = record {
  dispute_id = id;
  upheld = upheld;
  customer_payout = amounts.0;
  arbitrator_fee_total = amounts.1;
  per_arbitrator_share = amounts.2;
}

-- `disputes` is the map as it was loaded; the dispute is written back closed.
unfoldable pub settle_dispute :
    Symbol
    → DisputeRecord
    → Address
    → String
    → Bool
    → Bool
    → Effect Court DisputeError SettlementPayout
unfolding settlement_amounts credit_all insert
settle_dispute id dispute resolved_by resolution upheld slash = do
  now ← clock
  let amounts =
      settlement_amounts dispute.bond_amount (length dispute.arbitrator_votes) upheld slash
  let closed = record dispute {
    status = resolved;
    resolution = some resolution;
    resolved_by = some resolved_by;
    resolved_at = some now;
  }
  let payout = payout_of id upheld amounts
  writes (λ s. record s {
    arbitrator_fees =
        (if ltb_ℤ (pos 0) amounts.2
          then credit_all dispute.arbitrator_votes amounts.2 s.arbitrator_fees
          else s.arbitrator_fees);
    arbitration_pool =
        (if ltb_ℤ (pos 0) amounts.3
          then wrap_i128 (s.arbitration_pool +ℤ amounts.3)
          else s.arbitration_pool);
    payouts = insert id payout s.payouts;
    disputes = insert id closed s.disputes;
  })
  publish (dispute_resolved resolved_by id)
  publish (settlement_payout payout)
  return_ok payout
