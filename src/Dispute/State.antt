-- ===== src/Dispute/State.antt =====
-- The records of a dispute and the module's storage (sla_calculator/src/dispute.rs).
use noc_iq_contracts.Base.{
  ℕ, zero, suc, ◌+◌, Bool, true, false, not, Option, some, List, [], ◌∷◌, String, ◌==◌,
  if◌then◌else◌,
}
use noc_iq_contracts.Base.Int.{ℤ, pos}
use noc_iq_contracts.Types.{Address, Symbol}
use noc_iq_contracts.Effect.{Effect, ◌>>=◌, reads, found_or, refuse_if}

-- A `BytesN<32>`, of which only the value "not set" is told apart.
abbrev pub Hash : Type 0
Hash = List ℕ

pub data DisputeError : Type 0 where
  not_initialized unauthorized config_not_found invalid_transition : DisputeError
  max_active_disputes_reached dispute_not_active not_dispute_filer : DisputeError
  invalid_arbitrator_panel arbitration_window_not_expired : DisputeError

pub data DisputeStatus : Type 0 where
  opened under_review escalated resolved dismissed : DisputeStatus

abbrev pub is_active : DisputeStatus → Bool
is_active opened = true
is_active under_review = true
is_active escalated = true
is_active resolved = false
is_active dismissed = false

pub data EscalationLevel : Type 0 where
  l1_support l2_engineering l3_management : EscalationLevel

pub data VoteDecision : Type 0 where
  uphold_outage dismiss_outage : VoteDecision

pub record ArbitratorVote : Type 0 where
  pub arbitrator : Address
  pub decision : VoteDecision
  pub frivolous : Bool

pub record DisputeRecord : Type 0 where
  pub dispute_id : Symbol
  pub outage_id : Symbol
  pub opened_by : Address
  pub opened_at : ℕ
  pub status : DisputeStatus
  pub escalation_level : EscalationLevel
  pub reason : String
  pub resolution : Option String
  pub resolved_by : Option Address
  pub resolved_at : Option ℕ
  pub bond_amount : ℤ
  pub evidence_hash : Hash
  pub evidence_history : List Hash
  pub arbitrator_votes : List Address
  pub votes_detail : List ArbitratorVote
  pub designated_arbitrators : List Address
  pub arbitration_window_deadline : ℕ

pub record DisputeDetails : Type 0 where
  pub dispute_id : Symbol
  pub status : DisputeStatus
  pub escalation_level : EscalationLevel
  pub evidence_hash : Hash
  pub arbitrator_votes : List Address
  pub bond_amount : ℤ
  pub time_remaining_secs : ℕ

pub record SettlementPayout : Type 0 where
  pub dispute_id : Symbol
  pub upheld : Bool
  pub customer_payout : ℤ
  pub arbitrator_fee_total : ℤ
  pub per_arbitrator_share : ℤ

pub data DisputeEvent : Type 0 where
  dispute_opened : Address → Symbol → DisputeEvent
  dispute_escalated : Address → Symbol → DisputeEvent
  evidence_added : Address → Symbol → ℕ → DisputeEvent
  arbitrator_voted : Address → Symbol → DisputeEvent
  quorum_reached : Symbol → DisputeEvent
  auto_resolved : Symbol → DisputeEvent
  dispute_resolved : Address → Symbol → DisputeEvent
  settlement_payout : SettlementPayout → DisputeEvent

-- The storage keys; an absent map reads as the empty one, an absent pool as 0.
pub record Court : Type 0 where
  pub admin : Option Address
  pub disputes : List (Symbol × DisputeRecord)
  pub arbitrator_fees : List (Address × ℤ)
  pub payouts : List (Symbol × SettlementPayout)
  pub arbitration_pool : ℤ
  pub events : List DisputeEvent

-- The storage before the first call, with the admin that `initialize` set.
abbrev pub new_court : Address → Court
new_court owner = record {
  admin = some owner;
  disputes = [];
  arbitrator_fees = [];
  payouts = [];
  arbitration_pool = pos 0;
  events = [];
}

abbrev pub max_active_disputes : ℕ
max_active_disputes = 50

abbrev pub arbitrator_fee_bps : ℕ
arbitrator_fee_bps = 500

abbrev pub bps_denominator : ℕ
bps_denominator = 10000

abbrev pub default_arbitration_window_secs : ℕ
default_arbitration_window_secs = 1209600

abbrev pub arbitrator_panel_size : ℕ
arbitrator_panel_size = 3

abbrev pub arbitrator_quorum : ℕ
arbitrator_quorum = 2

abbrev zeros : ℕ → Hash
zeros zero = []
zeros (suc n) = 0 ∷ zeros n

-- 32 zero bytes.
unfoldable pub no_evidence_hash : Hash
no_evidence_hash = zeros 32

unfoldable pub count_active_disputes : List (Symbol × DisputeRecord) → ℕ
count_active_disputes [] = 0
count_active_disputes ((k, d) ∷ m) = (if is_active d.status then 1 else 0) + count_active_disputes m

unfoldable pub require_dispute_admin : Address → Effect Court DisputeError (Unit {0})
require_dispute_admin caller = do
  admin ← found_or (← reads (λ s. s.admin)) not_initialized
  refuse_if (not (caller == admin)) unauthorized
