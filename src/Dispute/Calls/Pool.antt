-- ===== src/Dispute/Calls/Pool.antt =====
-- The arbitration pool (sla_calculator/src/dispute.rs): what the tally and the calls do with it.
use noc_iq_contracts.Base.{
  ℕ, ◌≡◌, refl, Bool, true, false, Option, none, some, List, arith, inl, inr, not, ltb, length,
  ◌&&◌, ◌==◌, Option-cases, String, leb,
}
use noc_iq_contracts.Base.Int.{ℤ, pos}
use noc_iq_contracts.Types.{Address, Symbol, lookup}
use noc_iq_contracts.Dispute.State.{
  Hash, dispute_opened, DisputeError, not_dispute_filer, dispute_not_active,
  invalid_arbitrator_panel, max_active_disputes_reached, invalid_transition,
  arbitration_window_not_expired, arbitrator_panel_size, DisputeEvent, DisputeStatus, opened,
  under_review, escalated, resolved, dismissed, VoteDecision, max_active_disputes, DisputeRecord,
  is_active, Court, new_court, count_active_disputes, require_dispute_admin,
}
use noc_iq_contracts.Dispute.Settle.{
  count_votes, Verdict, settlement_amounts, settle_dispute, publish,
}
use noc_iq_contracts.Dispute.Entry.{
  store, get_arbitration_pool_balance, load, is_escalatable, new_dispute, is_among, open_dispute,
  escalate_dispute, add_dispute_evidence, assign_arbitrator_panel, cast_arbitrator_vote,
  resolve_dispute, auto_resolve_expired_dispute, dismiss_dispute, after_tally,
}
use noc_iq_contracts.MapLaws.{AllValues, AllValues-insert, AllValues-lookup}
use noc_iq_contracts.Effect.{Effect, ◌>>◌, ◌>>=◌}
use noc_iq_contracts.Effect.Keeps.{
  Keeps, Keeps->>, Keeps->>=, Keeps-guard, Keeps-found_or, Keeps-clock, Keeps-reads,
  Keeps-return_ok, kept-after,
}
use noc_iq_contracts.Effect.Reach.{Reach, Reach-keeps}
use noc_iq_contracts.Dispute.Calls.{
  DisputeCall, open_call, escalate_call, evidence_call, panel_call, vote_call, resolve_call,
  auto_resolve_call, dismiss_call, run_call,
}
use noc_iq_contracts.Dispute.Votes.{Calm, tally, slashes, with_vote-slashes, with_vote-Calm, IsCalm}

-- The pool is empty and every stored dispute is calm.
pub record IsQuiet (s : Court) : Type 0 where
  pub pool : s.arbitration_pool ≡ pos 0
  pub calm : AllValues IsCalm s.disputes

settle_dispute-IsQuiet :
    (id : Symbol) (d : DisputeRecord) (by : Address) (note : String) (upheld slash : Bool)
    → slash ≡ false
    → Keeps IsQuiet (settle_dispute id d by note upheld slash)
unfolding settle_dispute settlement_amounts
settle_dispute-IsQuiet id d by note upheld slash e = record {
  after = λ now s h. record {
    pool = rw e (ground (arith, h.pool));
    calm = AllValues-insert IsCalm id _ s.disputes (λ e. absurd (cc e)) h.calm;
  };
}

load-IsQuiet :
    {B : Type 0} (id : Symbol) {f : DisputeRecord → Effect Court DisputeError B}
    → ((d : DisputeRecord) → IsCalm d → Keeps IsQuiet (f d))
    → Keeps IsQuiet (load id >>= f)
load-IsQuiet id k = record {
  after = λ now s h. elim (Option-cases (lookup id s.disputes)) [
    | inl e ↦ rw e h
    | inr (d, e) ↦ rw e ((k d (AllValues-lookup IsCalm id d s.disputes h.calm e)).after now s h)
  ];
}

store-IsQuiet : (id : Symbol) (d : DisputeRecord) → IsCalm d → Keeps IsQuiet (store id d)
store-IsQuiet id d c = record {
  after =
      λ now s h. record { pool = h.pool; calm = AllValues-insert IsCalm id d s.disputes c h.calm };
}

publish-IsQuiet : (ev : DisputeEvent) → Keeps IsQuiet (publish ev)
publish-IsQuiet ev = record { after = λ now s h. record { pool = h.pool; calm = h.calm } }

require_dispute_admin-IsQuiet : (c : Address) → Keeps IsQuiet (require_dispute_admin c)
unfolding require_dispute_admin
require_dispute_admin-IsQuiet c = record { after = λ now s h. ground arith }

still_active : (st : DisputeStatus) → not (is_escalatable st) ≡ false → is_active st ≡ true
still_active opened e = refl
still_active under_review e = refl
still_active escalated e = refl
still_active resolved e = ground arith
still_active dismissed e = ground arith

active_of : (st : DisputeStatus) → not (is_active st) ≡ false → is_active st ≡ true
active_of opened e = refl
active_of under_review e = refl
active_of escalated e = refl
active_of resolved e = ground arith
active_of dismissed e = ground arith

new_dispute-IsCalm :
    (c : Address) (id outage : Symbol) (reason : String) (bond : ℤ) (t : ℕ)
    → IsCalm (new_dispute c id outage reason bond t)
unfolding count_votes
new_dispute-IsCalm c id outage reason bond t e = (omega arith, λ f. refl)

escalate_dispute-IsQuiet : (c : Address) (id : Symbol) → Keeps IsQuiet (escalate_dispute c id)
unfolding escalate_dispute
escalate_dispute-IsQuiet c id = Keeps->> IsQuiet (require_dispute_admin-IsQuiet c) (
    load-IsQuiet id (λ d calm. Keeps-guard IsQuiet _ _ (λ act.
      Keeps->>= IsQuiet (Keeps-found_or IsQuiet _ _) (λ level.
        Keeps->> IsQuiet (store-IsQuiet id _ (λ e. calm (still_active d.status act)))
          (publish-IsQuiet _)))))

add_dispute_evidence-IsQuiet :
    (c : Address) (id : Symbol) (ev : Hash) → Keeps IsQuiet (add_dispute_evidence c id ev)
unfolding add_dispute_evidence
add_dispute_evidence-IsQuiet c id ev = load-IsQuiet id (λ d calm.
    Keeps-guard IsQuiet (not (d.opened_by == c)) not_dispute_filer (λ filer.
      Keeps-guard IsQuiet (not (is_active d.status)) dispute_not_active
        (λ act. Keeps->> IsQuiet (store-IsQuiet id _ calm) (publish-IsQuiet _))))

assign_arbitrator_panel-IsQuiet :
    (c : Address) (id : Symbol) (panel : List Address)
    → Keeps IsQuiet (assign_arbitrator_panel c id panel)
unfolding assign_arbitrator_panel
assign_arbitrator_panel-IsQuiet c id panel = Keeps->> IsQuiet (require_dispute_admin-IsQuiet c) (
    Keeps-guard IsQuiet (not (length panel == arbitrator_panel_size)) invalid_arbitrator_panel
      (λ three. load-IsQuiet id (λ d calm.
        Keeps-guard IsQuiet (not (is_active d.status)) dispute_not_active
          (λ act. store-IsQuiet id _ calm))))

after_tally-IsQuiet :
    (a : Address) (id : Symbol) (d : DisputeRecord) (v : Option Verdict)
    → slashes v ≡ false
    → (v ≡ none → Calm (tally d))
    → Keeps IsQuiet (after_tally a id d v)
unfolding after_tally
after_tally-IsQuiet a id d none e k =
    Keeps->> IsQuiet (store-IsQuiet id d (λ act. k refl)) (Keeps-return_ok IsQuiet)
after_tally-IsQuiet a id d (some v) e k = Keeps->> IsQuiet (publish-IsQuiet _) (
    Keeps->>= IsQuiet (settle_dispute-IsQuiet id d a v.resolution v.upheld v.slash_bond e)
      (λ payout. Keeps-return_ok IsQuiet))

cast_arbitrator_vote-IsQuiet :
    (a : Address) (id : Symbol) (v : VoteDecision) (f : Bool)
    → Keeps IsQuiet (cast_arbitrator_vote a id v f)
unfolding cast_arbitrator_vote
cast_arbitrator_vote-IsQuiet a id v f = load-IsQuiet id (λ d calm.
    Keeps-guard IsQuiet (not (is_active d.status)) dispute_not_active (λ act.
      Keeps-guard IsQuiet
        (ltb 0 (length d.designated_arbitrators) && not (is_among a d.designated_arbitrators))
        invalid_arbitrator_panel
        (λ member.
          let c = calm (active_of d.status act) in
          Keeps->> IsQuiet (publish-IsQuiet _) (
            after_tally-IsQuiet a id _ _ (with_vote-slashes a v f d c)
              (with_vote-Calm a v f d c)))))

run_call-IsQuiet :
    (now : ℕ) (call : DisputeCall) (s : Court) → IsQuiet s → IsQuiet (run_call now call s)
unfolding run_call open_dispute dismiss_dispute resolve_dispute auto_resolve_expired_dispute
run_call-IsQuiet now (open_call c id outage reason bond ev) s = kept-after IsQuiet now s (
    Keeps->>= IsQuiet (Keeps-clock IsQuiet) (λ t.
      Keeps->>= IsQuiet (Keeps-reads IsQuiet (λ s. count_active_disputes s.disputes)) (λ n.
        Keeps-guard IsQuiet (leb max_active_disputes n) max_active_disputes_reached
          {f = store id (new_dispute c id outage reason bond t) >> publish (dispute_opened c id)}
          (λ room.
            Keeps->> IsQuiet (store-IsQuiet id _ (new_dispute-IsCalm c id outage reason bond t))
              (publish-IsQuiet _)))))
run_call-IsQuiet now (escalate_call c id) s =
    kept-after IsQuiet now s (escalate_dispute-IsQuiet c id)
run_call-IsQuiet now (evidence_call c id ev) s =
    kept-after IsQuiet now s (add_dispute_evidence-IsQuiet c id ev)
run_call-IsQuiet now (panel_call c id panel) s =
    kept-after IsQuiet now s (assign_arbitrator_panel-IsQuiet c id panel)
run_call-IsQuiet now (vote_call a id decision frivolous) s =
    kept-after IsQuiet now s (cast_arbitrator_vote-IsQuiet a id decision frivolous)
run_call-IsQuiet now (resolve_call c id note upheld) s = kept-after IsQuiet now s (
    Keeps->> IsQuiet (require_dispute_admin-IsQuiet c) (
      load-IsQuiet id (λ d calm.
        Keeps-guard IsQuiet (not (is_active d.status)) invalid_transition
          (λ act. settle_dispute-IsQuiet id d c note upheld false refl))))
run_call-IsQuiet now (auto_resolve_call id) s = kept-after IsQuiet now s (
    load-IsQuiet id (λ d calm.
      Keeps-guard IsQuiet (not (is_active d.status)) dispute_not_active (λ act.
        Keeps->>= IsQuiet (Keeps-clock IsQuiet) (λ t.
          Keeps-guard IsQuiet (leb t d.arbitration_window_deadline) arbitration_window_not_expired
            (λ late.
              Keeps->> IsQuiet (publish-IsQuiet _)
                (settle_dispute-IsQuiet id d d.opened_by _ true false refl))))))
run_call-IsQuiet now (dismiss_call c id) s = kept-after IsQuiet now s (
    Keeps->> IsQuiet (require_dispute_admin-IsQuiet c) (
      load-IsQuiet id (λ d calm.
        Keeps->>= IsQuiet (Keeps-clock IsQuiet) (λ t. store-IsQuiet id _ (λ e. absurd (cc e))))))

-- Whatever sequence of calls starts from an empty court with an admin, the arbitration pool stays
-- empty: the second vote to dismiss closes a dispute, so the third, which a slashed bond needs, is
-- never cast.
pub arbitration_pool_empty :
    (owner : Address) {t : Court}
    → Reach run_call (new_court owner) t
    → get_arbitration_pool_balance t ≡ pos 0
unfolding get_arbitration_pool_balance
arbitration_pool_empty owner r =
    (Reach-keeps run_call IsQuiet run_call-IsQuiet r (record { pool = refl; calm = tt })).pool
