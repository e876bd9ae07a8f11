-- ===== src/Claims/Windows.antt =====
-- The bounds of the stored windows (sla_calculator/src/claim_deadline.rs).
use noc_iq_contracts.Base.{ℕ, ◌+◌, ◌*◌, ◌%◌, ◌≤◌, ◌≡◌, some, [], Option-cases, inl, inr, arith}
use noc_iq_contracts.Base.Int.{ℤ}
use noc_iq_contracts.Types.{Symbol, lookup, u64_mod, saturating_u64, saturating_u32}
use noc_iq_contracts.MapLaws.{AllValues, AllValues-insert, AllValues-lookup}
use noc_iq_contracts.Effect.Reach.{Reach, Reach-keeps}
use noc_iq_contracts.Claims.{
  ClaimWindow, ClaimStore, ClaimOrder, open_order, claim_order, extend_order, expire_order,
  run_order, claimed, expired, claim_window, new_window, open_claim_window, claim,
  extend_claim_deadline, expire_claim, max_window_s, max_extensions, max_claim_bps_limit,
}

-- A window is extended at most twice, its deadline is at most 30 days after its opening for each
-- of the opening and the extensions, and its share lies between 1 and 20000 basis points.
pub record IsBounded (w : ClaimWindow) : Type 0 where
  pub extended : w.extensions ≤ max_extensions
  pub late : w.deadline ≤ w.opened_at + (1 + w.extensions) * max_window_s
  pub some_bps : 1 ≤ w.max_claim_bps
  pub few_bps : w.max_claim_bps ≤ max_claim_bps_limit

abbrev AreBounded : ClaimStore → Type 0
AreBounded s = AllValues IsBounded s.windows

module _ (now : ℕ) (id : Symbol) (s : ClaimStore) (h : AreBounded s) where
  open-AreBounded :
      (opened_at window bps : ℕ) → AreBounded (run_order now (open_order id opened_at window bps) s)
  unfolding open_claim_window claim_window
  open-AreBounded opened_at window bps =
      let w = new_window id opened_at ((opened_at + window) % u64_mod) bps in
      elim (Option-cases (lookup id s.windows)) [
        | inl e ↦ ground (arith, AllValues-insert IsBounded id w s.windows, h)
        | inr (old, e) ↦ ground (arith, AllValues-insert IsBounded id w s.windows, h)
      ]

  claim-AreBounded : (gross : ℤ) → AreBounded (run_order now (claim_order id gross) s)
  unfolding claim
  claim-AreBounded gross = elim (Option-cases (lookup id s.windows)) [
    | inl e ↦ ground (arith, h)
    | inr (w, e) ↦
        let b = AllValues-lookup IsBounded id w s.windows h e in
        ground (arith, h, AllValues-insert IsBounded id (record w { state = claimed }) s.windows, b)
  ]

  extend-AreBounded : (extra : ℕ) → AreBounded (run_order now (extend_order id extra) s)
  unfolding extend_claim_deadline
  extend-AreBounded extra = elim (Option-cases (lookup id s.windows)) [
    | inl e ↦ ground (arith, h)
    | inr (w, e) ↦
        let b = AllValues-lookup IsBounded id w s.windows h e in
        let w' : ClaimWindow = record w {
          deadline = saturating_u64 (w.deadline + extra);
          extensions = saturating_u32 (w.extensions + 1);
        } in
        ground (arith, h, AllValues-insert IsBounded id w' s.windows, b)
  ]

  expire-AreBounded : AreBounded (run_order now (expire_order id) s)
  unfolding expire_claim
  expire-AreBounded = elim (Option-cases (lookup id s.windows)) [
    | inl e ↦ ground (arith, h)
    | inr (w, e) ↦
        let b = AllValues-lookup IsBounded id w s.windows h e in
        ground (arith, h, AllValues-insert IsBounded id (record w { state = expired }) s.windows, b)
  ]

run_order-AreBounded :
    (now : ℕ) (order : ClaimOrder) (s : ClaimStore)
    → AreBounded s
    → AreBounded (run_order now order s)
run_order-AreBounded now (open_order id opened_at window bps) s h =
    open-AreBounded now id s h opened_at window bps
run_order-AreBounded now (claim_order id gross) s h = claim-AreBounded now id s h gross
run_order-AreBounded now (extend_order id extra) s h = extend-AreBounded now id s h extra
run_order-AreBounded now (expire_order id) s h = expire-AreBounded now id s h

-- Whatever calls follow one another on a storage without windows, every stored window has at most
-- two extensions, a deadline at most 30 days after its opening for the opening and for each
-- extension, and a share of 1 to 20000 basis points.
claim_window-IsBounded :
    (start : ClaimStore) {t : ClaimStore} (id : Symbol) (w : ClaimWindow)
    → start.windows ≡ []
    → Reach run_order start t
    → claim_window id t ≡ some w
    → IsBounded w
unfolding claim_window
claim_window-IsBounded start {t} id w none_yet r e =
    AllValues-lookup IsBounded id w t.windows
      (Reach-keeps run_order (λ s. AreBounded s) run_order-AreBounded r (rw none_yet tt)) e
