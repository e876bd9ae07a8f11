-- ===== src/Dispute/Entry.antt =====
-- The entry points of dispute resolution (sla_calculator/src/dispute.rs). A caller that the source
-- authenticates (`require_auth`) is one that the host let through.
use noc_iq_contracts.Base.{
  ℕ, ◌+◌, ◌-◌, ◌%◌, ◌&&◌, not, Bool, true, false, Option, none, some, List, [], ◌∷◌, ◌++◌, String,
  length, leb, ltb, ◌==◌, any, if◌then◌else◌, unwrap_or,
}
use noc_iq_contracts.Base.Int.{ℤ, pos}
use noc_iq_contracts.Types.{Address, Symbol, lookup, insert, u64_mod}
use noc_iq_contracts.AddressMap.{get}
use noc_iq_contracts.Effect.{
  Effect, ◌>>=◌, ◌>>◌, return_ok, clock, reads, writes, found_or, refuse_if,
}
use noc_iq_contracts.Dispute.State.{
  Hash, no_evidence_hash, DisputeError, config_not_found, invalid_transition,
  max_active_disputes_reached, dispute_not_active, not_dispute_filer, invalid_arbitrator_panel,
  arbitration_window_not_expired, DisputeStatus, opened, under_review, escalated, dismissed,
  is_active, EscalationLevel, l1_support, l2_engineering, l3_management, VoteDecision,
  DisputeRecord, DisputeDetails, SettlementPayout, dispute_opened, dispute_escalated,
  evidence_added, arbitrator_voted, quorum_reached, auto_resolved, Court, max_active_disputes,
  default_arbitration_window_secs, arbitrator_panel_size, count_active_disputes,
  require_dispute_admin,
}
use noc_iq_contracts.Dispute.Settle.{Verdict, try_tally_quorum, settle_dispute, publish}

-- The record of a new dispute. The evidence that is passed along is not stored: the source puts it
-- into a local vector and stores the empty hash and an empty history.
abbrev pub new_dispute : Address → Symbol → Symbol → String → ℤ → ℕ → DisputeRecord
new_dispute caller id outage reason bond now = record {
  dispute_id = id;
  outage_id = outage;
  opened_by = caller;
  opened_at = now;
  status = opened;
  escalation_level = l1_support;
  reason = reason;
  resolution = none;
  resolved_by = none;
  resolved_at = none;
  bond_amount = bond;
  evidence_hash = no_evidence_hash;
  evidence_history = [];
  arbitrator_votes = [];
  votes_detail = [];
  designated_arbitrators = [];
  arbitration_window_deadline = (now + default_arbitration_window_secs) % u64_mod;
}

abbrev pub store : Symbol → DisputeRecord → Effect Court DisputeError (Unit {0})
store id dispute = writes (λ s. record s { disputes = insert id dispute s.disputes })

abbrev pub load : Symbol → Effect Court DisputeError DisputeRecord
load id = do found_or (← reads (λ s. lookup id s.disputes)) config_not_found

unfoldable pub open_dispute :
    Address → Symbol → Symbol → String → ℤ → Hash → Effect Court DisputeError (Unit {0})
unfolding insert count_active_disputes
open_dispute caller id outage reason bond evidence = do
  now ← clock
  active ← reads (λ s. count_active_disputes s.disputes)
  refuse_if (leb max_active_disputes active) max_active_disputes_reached
  store id (new_dispute caller id outage reason bond now)
  publish (dispute_opened caller id)

-- Only disputes that are open or under review move on.
abbrev pub is_escalatable : DisputeStatus → Bool
is_escalatable opened = true
is_escalatable under_review = true
is_escalatable _ = false

abbrev pub next_level : EscalationLevel → Option EscalationLevel
next_level l1_support = some l2_engineering
next_level l2_engineering = some l3_management
next_level l3_management = none

unfoldable pub escalate_dispute : Address → Symbol → Effect Court DisputeError (Unit {0})
unfolding require_dispute_admin lookup insert
escalate_dispute caller id = do
  require_dispute_admin caller
  dispute ← load id
  refuse_if (not (is_escalatable dispute.status)) invalid_transition
  level ← found_or (next_level dispute.escalation_level) invalid_transition
  store id (record dispute { escalation_level = level; status = escalated })
  publish (dispute_escalated caller id)

unfoldable pub add_dispute_evidence : Address → Symbol → Hash → Effect Court DisputeError (Unit {0})
unfolding lookup insert
add_dispute_evidence caller id evidence = do
  dispute ← load id
  refuse_if (not (dispute.opened_by == caller)) not_dispute_filer
  refuse_if (not (is_active dispute.status)) dispute_not_active
  let history = dispute.evidence_history ++ (evidence ∷ [])
  store id (record dispute { evidence_history = history; evidence_hash = evidence })
  publish (evidence_added caller id (length history))

unfoldable pub assign_arbitrator_panel :
    Address → Symbol → List Address → Effect Court DisputeError (Unit {0})
unfolding require_dispute_admin lookup insert
assign_arbitrator_panel caller id panel = do
  require_dispute_admin caller
  refuse_if (not (length panel == arbitrator_panel_size)) invalid_arbitrator_panel
  dispute ← load id
  refuse_if (not (is_active dispute.status)) dispute_not_active
  store id (record dispute { designated_arbitrators = panel })

-- `Vec::contains`
unfoldable pub is_among : Address → List Address → Bool
is_among a xs = any (λ x. x == a) xs

-- The dispute with the vote, which a second vote of the same address does not change.
unfoldable pub with_vote : Address → VoteDecision → Bool → DisputeRecord → DisputeRecord
unfolding is_among
with_vote arbitrator decision frivolous dispute =
    if is_among arbitrator dispute.arbitrator_votes then dispute else record dispute {
      arbitrator_votes = dispute.arbitrator_votes ++ (arbitrator ∷ []);
      votes_detail =
          dispute.votes_detail
          ++ (record { arbitrator = arbitrator; decision = decision; frivolous = frivolous } ∷ []);
    }

-- What follows the tally.
unfoldable pub after_tally :
    Address
    → Symbol
    → DisputeRecord
    → Option Verdict
    → Effect Court DisputeError (Option SettlementPayout)
unfolding insert
after_tally arbitrator id dispute none = do store id dispute; return_ok none
after_tally arbitrator id dispute (some v) = do
  publish (quorum_reached id)
  payout ← settle_dispute id dispute arbitrator v.resolution v.upheld v.slash_bond
  return_ok (some payout)

unfoldable pub cast_arbitrator_vote :
    Address → Symbol → VoteDecision → Bool → Effect Court DisputeError (Option SettlementPayout)
unfolding lookup is_among
cast_arbitrator_vote arbitrator id decision frivolous = do
  dispute ← load id
  refuse_if (not (is_active dispute.status)) dispute_not_active
  refuse_if
      (ltb 0 (length dispute.designated_arbitrators)
        && not (is_among arbitrator dispute.designated_arbitrators))
      invalid_arbitrator_panel
  let voted = with_vote arbitrator decision frivolous dispute
  publish (arbitrator_voted arbitrator id)
  after_tally arbitrator id voted (try_tally_quorum voted)

unfoldable pub resolve_dispute :
    Address → Symbol → String → Bool → Effect Court DisputeError SettlementPayout
unfolding require_dispute_admin lookup
resolve_dispute caller id resolution upheld = do
  require_dispute_admin caller
  dispute ← load id
  refuse_if (not (is_active dispute.status)) invalid_transition
  settle_dispute id dispute caller resolution upheld false

unfoldable pub auto_resolve_expired_dispute : Symbol → Effect Court DisputeError SettlementPayout
unfolding lookup
auto_resolve_expired_dispute id = do
  dispute ← load id
  refuse_if (not (is_active dispute.status)) dispute_not_active
  now ← clock
  refuse_if (leb now dispute.arbitration_window_deadline) arbitration_window_not_expired
  publish (auto_resolved id)
  settle_dispute id dispute dispute.opened_by
      "Auto-resolved: arbitration window expired, defaulted in favor of filer" true false

unfoldable pub dismiss_dispute : Address → Symbol → Effect Court DisputeError (Unit {0})
unfolding require_dispute_admin lookup insert
dismiss_dispute caller id = do
  require_dispute_admin caller
  dispute ← load id
  now ← clock
  store id
      (record dispute { status = dismissed; resolved_by = some caller; resolved_at = some now })

unfoldable pub get_dispute_details : Symbol → Effect Court DisputeError DisputeDetails
unfolding lookup
get_dispute_details id = do
  dispute ← load id
  now ← clock
  return_ok (record {
    dispute_id = id;
    status = dispute.status;
    escalation_level = dispute.escalation_level;
    evidence_hash = dispute.evidence_hash;
    arbitrator_votes = dispute.arbitrator_votes;
    bond_amount = dispute.bond_amount;
    time_remaining_secs = dispute.arbitration_window_deadline - now;
  })

unfoldable pub get_dispute : Symbol → Court → Option DisputeRecord
get_dispute id s = lookup id s.disputes

unfoldable pub get_settlement_payout : Symbol → Court → Option SettlementPayout
get_settlement_payout id s = lookup id s.payouts

unfoldable pub get_arbitrator_fee_balance : Address → Court → ℤ
get_arbitrator_fee_balance a s = unwrap_or (get a s.arbitrator_fees) (pos 0)

unfoldable pub get_arbitration_pool_balance : Court → ℤ
get_arbitration_pool_balance s = s.arbitration_pool
