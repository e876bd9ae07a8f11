-- ===== src/Dispute/Calls.antt =====
-- The calls that change the storage of dispute resolution (sla_calculator/src/dispute.rs), as
-- transactions.
pub mod Pool
pub mod Cap
use noc_iq_contracts.Base.{ℕ, Bool, String, List}
use noc_iq_contracts.Base.Int.{ℤ}
use noc_iq_contracts.Types.{Address, Symbol}
use noc_iq_contracts.Effect.{Effect, ◌>>=◌, ◌>>◌, return_ok, kept}
use noc_iq_contracts.Dispute.State.{Hash, VoteDecision, DisputeError, Court}
use noc_iq_contracts.Dispute.Entry.{
  open_dispute, escalate_dispute, add_dispute_evidence, assign_arbitrator_panel,
  cast_arbitrator_vote, resolve_dispute, auto_resolve_expired_dispute, dismiss_dispute,
}

pub data DisputeCall : Type 0 where
  open_call : Address → Symbol → Symbol → String → ℤ → Hash → DisputeCall
  escalate_call : Address → Symbol → DisputeCall
  evidence_call : Address → Symbol → Hash → DisputeCall
  panel_call : Address → Symbol → List Address → DisputeCall
  vote_call : Address → Symbol → VoteDecision → Bool → DisputeCall
  resolve_call : Address → Symbol → String → Bool → DisputeCall
  auto_resolve_call : Symbol → DisputeCall
  dismiss_call : Address → Symbol → DisputeCall

unfoldable pub run_call : ℕ → DisputeCall → Court → Court
run_call now (open_call c id outage reason bond ev) s =
    kept s (open_dispute c id outage reason bond ev now s)
run_call now (escalate_call c id) s = kept s (escalate_dispute c id now s)
run_call now (evidence_call c id ev) s = kept s (add_dispute_evidence c id ev now s)
run_call now (panel_call c id panel) s = kept s (assign_arbitrator_panel c id panel now s)
run_call now (vote_call a id decision frivolous) s =
    kept s (cast_arbitrator_vote a id decision frivolous now s)
run_call now (resolve_call c id note upheld) s = kept s (resolve_dispute c id note upheld now s)
run_call now (auto_resolve_call id) s = kept s (auto_resolve_expired_dispute id now s)
run_call now (dismiss_call c id) s = kept s (dismiss_dispute c id now s)
