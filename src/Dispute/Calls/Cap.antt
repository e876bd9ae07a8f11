-- ===== src/Dispute/Calls/Cap.antt =====
-- The bound on active disputes (sla_calculator/src/dispute.rs).
use noc_iq_contracts.Base.{
  ℕ, ◌+◌, ◌≤◌, ◌≡◌, Bool, true, false, Option, none, some, List, [], ◌∷◌, ◌++◌, arith, inl, inr,
  Option-cases, Bool-cases, String, if◌then◌else◌, str_eq,
}
use noc_iq_contracts.Base.Int.{ℤ}
use noc_iq_contracts.Types.{Address, Symbol, lookup, insert}
use noc_iq_contracts.Effect.{kept}
use noc_iq_contracts.Effect.Reach.{Reach, Reach-keeps}
use noc_iq_contracts.Dispute.State.{
  Hash, DisputeRecord, is_active, Court, new_court, max_active_disputes, count_active_disputes,
  require_dispute_admin, VoteDecision, quorum_reached, arbitrator_voted, l2_engineering,
  l3_management, resolved, dismissed, escalated,
}
use noc_iq_contracts.Dispute.Settle.{settle_dispute, Verdict, try_tally_quorum}
use noc_iq_contracts.Dispute.Entry.{
  with_vote, new_dispute, open_dispute, escalate_dispute, add_dispute_evidence,
  assign_arbitrator_panel, cast_arbitrator_vote, resolve_dispute, auto_resolve_expired_dispute,
  dismiss_dispute, after_tally,
}
use noc_iq_contracts.Dispute.Calls.{
  DisputeCall, open_call, escalate_call, evidence_call, panel_call, vote_call, resolve_call,
  auto_resolve_call, dismiss_call, run_call,
}

abbrev active_weight : DisputeRecord → ℕ
active_weight d = if is_active d.status then 1 else 0

abbrev stored_weight : Option DisputeRecord → ℕ
stored_weight none = 0
stored_weight (some d) = active_weight d

-- A write moves the count by the weight of what it replaces.
count_active_disputes-insert :
    (id : Symbol) (d : DisputeRecord) (m : List (Symbol × DisputeRecord))
    → count_active_disputes (insert id d m) + stored_weight (lookup id m)
      ≡ count_active_disputes m + active_weight d
unfolding insert lookup count_active_disputes
count_active_disputes-insert id d [] = ground arith
count_active_disputes-insert id d ((k, x) ∷ m) = elim (Bool-cases (str_eq k id)) [
  | inl e ↦ rw e (omega arith)
  | inr e ↦ rw e (omega (arith, count_active_disputes-insert id d m))
]

abbrev Within : Court → Type 0
Within s = count_active_disputes s.disputes ≤ max_active_disputes

-- A write over a dispute that is active, or with one that is not, adds nothing.
insert-le :
    (id : Symbol) (d d' : DisputeRecord) (m : List (Symbol × DisputeRecord))
    → lookup id m ≡ some d
    → active_weight d' ≤ active_weight d
    → count_active_disputes (insert id d' m) ≤ count_active_disputes m
insert-le id d d' m e h =
    let moved = count_active_disputes-insert id d' m in omega (arith, rw e at moved)

open_dispute-Within :
    (now : ℕ) (c : Address) (id outage : Symbol) (reason : String) (bond : ℤ) (ev : Hash)
    (s : Court)
    → Within s
    → Within (kept s (open_dispute c id outage reason bond ev now s))
unfolding open_dispute
open_dispute-Within now c id outage reason bond ev s h =
    ground
      (arith, count_active_disputes-insert id (new_dispute c id outage reason bond now) s.disputes)

escalate_dispute-Within :
    (now : ℕ) (c : Address) (id : Symbol) (s : Court)
    → Within s
    → Within (kept s (escalate_dispute c id now s))
unfolding escalate_dispute require_dispute_admin
escalate_dispute-Within now c id s h = elim (Option-cases (lookup id s.disputes)) [
  | inl e ↦ ground arith
  | inr (d, e) ↦ ground (
    arith,
    insert-le id d (record d { escalation_level = l2_engineering; status = escalated }) s.disputes
        e,
    insert-le id d (record d { escalation_level = l3_management; status = escalated }) s.disputes e,
  )
]

add_dispute_evidence-Within :
    (now : ℕ) (c : Address) (id : Symbol) (ev : Hash) (s : Court)
    → Within s
    → Within (kept s (add_dispute_evidence c id ev now s))
unfolding add_dispute_evidence
add_dispute_evidence-Within now c id ev s h = elim (Option-cases (lookup id s.disputes)) [
  | inl e ↦ ground arith
  | inr (d, e) ↦ ground (
    arith,
    insert-le id d
        (record d { evidence_history = d.evidence_history ++ (ev ∷ []); evidence_hash = ev })
        s.disputes e,
  )
]

assign_arbitrator_panel-Within :
    (now : ℕ) (c : Address) (id : Symbol) (panel : List Address) (s : Court)
    → Within s
    → Within (kept s (assign_arbitrator_panel c id panel now s))
unfolding assign_arbitrator_panel require_dispute_admin
assign_arbitrator_panel-Within now c id panel s h = elim (Option-cases (lookup id s.disputes)) [
  | inl e ↦ ground arith
  | inr (d, e) ↦
      ground (arith, insert-le id d (record d { designated_arbitrators = panel }) s.disputes e)
]

dismiss_dispute-Within :
    (now : ℕ) (c : Address) (id : Symbol) (s : Court)
    → Within s
    → Within (kept s (dismiss_dispute c id now s))
unfolding dismiss_dispute require_dispute_admin
dismiss_dispute-Within now c id s h = elim (Option-cases (lookup id s.disputes)) [
  | inl e ↦ ground arith
  | inr (d, e) ↦ ground (
    arith,
    insert-le id d (record d { status = dismissed; resolved_by = some c; resolved_at = some now })
        s.disputes e,
  )
]

settle_dispute-Within :
    (now : ℕ) (id : Symbol) (d d' : DisputeRecord) (by : Address) (note : String)
    (upheld slash : Bool) (s : Court)
    → lookup id s.disputes ≡ some d
    → Within s
    → Within (settle_dispute id d' by note upheld slash now s).1
unfolding settle_dispute
settle_dispute-Within now id d d' by note upheld slash s e h = omega (
  arith,
  insert-le id d
      (record d' {
        status = resolved;
        resolution = some note;
        resolved_by = some by;
        resolved_at = some now;
      })
      s.disputes e (omega arith),
)

after_tally-Within :
    (now : ℕ) (a : Address) (id : Symbol) (d d' : DisputeRecord) (v : Option Verdict) (s : Court)
    → lookup id s.disputes ≡ some d
    → active_weight d' ≤ active_weight d
    → Within s
    → Within (after_tally a id d' v now s).1
unfolding after_tally settle_dispute
after_tally-Within now a id d d' none s e le h = omega (arith, insert-le id d d' s.disputes e le)
after_tally-Within now a id d d' (some v) s e le h =
    settle_dispute-Within now id d d' a v.resolution v.upheld v.slash_bond
      (record s { events = s.events ++ (quorum_reached id ∷ []) }) e h

with_vote-status :
    (a : Address) (v : VoteDecision) (f : Bool) (d : DisputeRecord)
    → (with_vote a v f d).status ≡ d.status
unfolding with_vote
with_vote-status a v f d = ground arith

cast_arbitrator_vote-Within :
    (now : ℕ) (a : Address) (id : Symbol) (v : VoteDecision) (f : Bool) (s : Court)
    → Within s
    → Within (kept s (cast_arbitrator_vote a id v f now s))
unfolding cast_arbitrator_vote
cast_arbitrator_vote-Within now a id v f s h = elim (Option-cases (lookup id s.disputes)) [
  | inl e ↦ ground arith
  | inr (d, e) ↦
      let voted = with_vote a v f d in
      ground (
        arith,
        with_vote-status a v f d,
        after_tally-Within now a id d voted (try_tally_quorum voted)
            (record s { events = s.events ++ (arbitrator_voted a id ∷ []) }) e
            (rw (with_vote-status a v f d) (omega arith)) h,
      )
]

resolve_dispute-Within :
    (now : ℕ) (c : Address) (id : Symbol) (note : String) (upheld : Bool) (s : Court)
    → Within s
    → Within (kept s (resolve_dispute c id note upheld now s))
unfolding resolve_dispute require_dispute_admin settle_dispute
resolve_dispute-Within now c id note upheld s h = elim (Option-cases (lookup id s.disputes)) [
  | inl e ↦ ground arith
  | inr (d, e) ↦ ground (arith, settle_dispute-Within now id d d c note upheld false s e h)
]

auto_resolve_expired_dispute-Within :
    (now : ℕ) (id : Symbol) (s : Court)
    → Within s
    → Within (kept s (auto_resolve_expired_dispute id now s))
unfolding auto_resolve_expired_dispute settle_dispute
auto_resolve_expired_dispute-Within now id s h = elim (Option-cases (lookup id s.disputes)) [
  | inl e ↦ ground arith
  | inr (d, e) ↦ ground (
    arith,
    settle_dispute-Within now id d d d.opened_by
        "Auto-resolved: arbitration window expired, defaulted in favor of filer" true false s e h,
  )
]

run_call-Within :
    (now : ℕ) (call : DisputeCall) (s : Court) → Within s → Within (run_call now call s)
unfolding run_call
run_call-Within now (open_call c id outage reason bond ev) s =
    open_dispute-Within now c id outage reason bond ev s
run_call-Within now (escalate_call c id) s = escalate_dispute-Within now c id s
run_call-Within now (evidence_call c id ev) s = add_dispute_evidence-Within now c id ev s
run_call-Within now (panel_call c id panel) s = assign_arbitrator_panel-Within now c id panel s
run_call-Within now (vote_call a id v frivolous) s =
    cast_arbitrator_vote-Within now a id v frivolous s
run_call-Within now (resolve_call c id note upheld) s =
    resolve_dispute-Within now c id note upheld s
run_call-Within now (auto_resolve_call id) s = auto_resolve_expired_dispute-Within now id s
run_call-Within now (dismiss_call c id) s = dismiss_dispute-Within now c id s

-- Whatever sequence of calls starts from an empty court with an admin, no more than 50 of the
-- stored disputes are open, under review or escalated.
pub active_disputes_bounded :
    (owner : Address) {t : Court}
    → Reach run_call (new_court owner) t
    → count_active_disputes t.disputes ≤ max_active_disputes
unfolding count_active_disputes
active_disputes_bounded owner r =
    Reach-keeps run_call (λ s. Within s) run_call-Within r (omega arith)
