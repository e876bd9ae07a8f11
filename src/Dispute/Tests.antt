-- ===== src/Dispute/Tests.antt =====
-- Runs of dispute resolution (sla_calculator/src/dispute.rs), and its theorems at concrete inputs.
use noc_iq_contracts.Base.{◌≤◌, ◌<◌, ◌≡◌, refl, true, false, some, [], ◌∷◌, arith}
use noc_iq_contracts.Base.Int.{pos, ◌+ℤ◌, ◌*ℤ◌, neg_ℤ, div_trunc, wrap_i128}
use noc_iq_contracts.Types.{lookup}
use noc_iq_contracts.Effect.{ok, err}
use noc_iq_contracts.Effect.Reach.{Reach, here, next}
use noc_iq_contracts.Dispute.State.{
  DisputeRecord, SettlementPayout, Court, new_court, uphold_outage, dismiss_outage, resolved,
  count_active_disputes, max_active_disputes, dispute_not_active,
}
use noc_iq_contracts.Dispute.Settle.{try_tally_quorum, settle_dispute}
use noc_iq_contracts.Dispute.Entry.{
  new_dispute, get_dispute, get_settlement_payout, get_arbitration_pool_balance,
  get_arbitrator_fee_balance, open_dispute, auto_resolve_expired_dispute, cast_arbitrator_vote,
  assign_arbitrator_panel, with_vote, after_tally,
}
use noc_iq_contracts.Dispute.Calls.{run_call, open_call, vote_call, panel_call}
use noc_iq_contracts.Dispute.Calls.Pool.{arbitration_pool_empty}
use noc_iq_contracts.Dispute.Calls.Cap.{active_disputes_bounded}
use noc_iq_contracts.Dispute.Deadline.{upheld_payout, auto_resolve_expired_dispute-resolves}

-- Address 1 is the admin, 5 files a dispute with a bond of 1000.
abbrev filed : Court
filed = run_call 100 (open_call 5 "d1" "outage" "late" (pos 1000) []) (new_court 1)

-- Two votes of the panel to dismiss the dispute as frivolous.
abbrev dismissed_twice : Court
dismissed_twice = run_call 103 (vote_call 8 "d1" dismiss_outage true) (
    run_call 102 (vote_call 7 "d1" dismiss_outage true)
      (run_call 101 (panel_call 1 "d1" (7 ∷ 8 ∷ 9 ∷ [])) filed))

dismissed_twice-Reach : Reach run_call (new_court 1) dismissed_twice
dismissed_twice-Reach = next 103 _ (next 102 _ (next 101 _ (next 100 _ here)))

-- The third vote, which would make the dismissal unanimous, comes too late.
third_vote_refused :
    (cast_arbitrator_vote 9 "d1" dismiss_outage true 104 dismissed_twice).0 ≡ err dispute_not_active
unfolding run_call open_dispute assign_arbitrator_panel cast_arbitrator_vote with_vote after_tally
    try_tally_quorum settle_dispute
third_vote_refused = refl

-- Two votes to uphold split the fee of 50 evenly.
upheld_twice :
    get_arbitrator_fee_balance 7 (
      run_call 103
        (vote_call 8 "d1" uphold_outage false)
        (run_call 102 (vote_call 7 "d1" uphold_outage false) filed))
    ≡ pos 25
unfolding get_arbitrator_fee_balance run_call open_dispute cast_arbitrator_vote with_vote
    after_tally try_tally_quorum settle_dispute div_trunc wrap_i128 ◌+ℤ◌ ◌*ℤ◌ neg_ℤ
upheld_twice = refl

arbitration_pool_empty_example : get_arbitration_pool_balance dismissed_twice ≡ pos 0
arbitration_pool_empty_example = arbitration_pool_empty 1 dismissed_twice-Reach

active_disputes_bounded_example :
    count_active_disputes dismissed_twice.disputes ≤ max_active_disputes
active_disputes_bounded_example = active_disputes_bounded 1 dismissed_twice-Reach

abbrev d1 : DisputeRecord
d1 = new_dispute 5 "d1" "outage" "late" (pos 1000) 100

abbrev one_dispute : Court
one_dispute = record (new_court 1) { disputes = ("d1", d1) ∷ [] }

one_dispute-found : lookup "d1" one_dispute.disputes ≡ some d1
unfolding lookup
one_dispute-found = refl

one_active : count_active_disputes one_dispute.disputes < max_active_disputes
unfolding count_active_disputes
one_active = omega arith

abbrev d1_payout : SettlementPayout
d1_payout = upheld_payout "d1" 1000 0

-- Resolved at 2000000, after the deadline; the second call comes a second later.
auto_resolve_expired_dispute-resolves_example :
    let (result, after) = auto_resolve_expired_dispute "d1" 2000000 one_dispute in
    (result ≡ ok d1_payout)
    × (get_settlement_payout "d1" after ≡ some d1_payout)
    × (get_dispute "d1" after
        ≡ some (record d1 {
          status = resolved;
          resolution =
              some "Auto-resolved: arbitration window expired, defaulted in favor of filer";
          resolved_by = some 5;
          resolved_at = some 2000000;
        }))
    × (after.arbitration_pool ≡ pos 0)
    × (auto_resolve_expired_dispute "d1" 2000001 after ≡ (err dispute_not_active, after))
auto_resolve_expired_dispute-resolves_example =
    auto_resolve_expired_dispute-resolves "d1" "d1" d1 1000 2000000 2000001 one_dispute
      one_dispute-found refl (omega arith)
