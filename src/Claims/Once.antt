-- ===== src/Claims/Once.antt =====
-- A claim is paid at most once (sla_calculator/src/claim_deadline.rs).
use noc_iq_contracts.Base.{
  ℕ, ◌+◌, ◌*◌, ◌/◌, ◌%◌, ◌≤◌, ◌<◌, ◌≡◌, some, Option-cases, inl, inr, arith, eq_iff, str_eq,
  if◌then◌else◌, ltb,
}
use noc_iq_contracts.Base.Int.{ℤ, pos, i128_max, div_trunc, wrap_i128-pos, pos-mul}
use noc_iq_contracts.Types.{Symbol, lookup, u64_mod, saturating_u64, saturating_u32}
use noc_iq_contracts.MapLaws.{lookup-insert}
use noc_iq_contracts.Effect.{ok, err}
use noc_iq_contracts.Effect.Reach.{Reach, Reach-keeps}
use noc_iq_contracts.Claims.{
  ClaimWindow, ClaimStore, ClaimOrder, open_order, claim_order, extend_order, expire_order,
  run_order, opened, claimed, expired, claim_window, new_payout, capped_amount, new_window,
  open_claim_window, claim, extend_claim_deadline, expire_claim, already_claimed,
}

-- The window of the id is claimed.
abbrev IsClaimed : Symbol → ClaimWindow → ClaimStore → Type 0
IsClaimed id w s = (lookup id s.windows ≡ some w) × (w.state ≡ claimed)

module _ (id : Symbol) (w : ClaimWindow) (now : ℕ) (j : Symbol) (s : ClaimStore)
    (h : IsClaimed id w s) where
  open-IsClaimed :
      (at window bps : ℕ) → IsClaimed id w (run_order now (open_order j at window bps) s)
  unfolding open_claim_window claim_window
  open-IsClaimed at window bps = elim (Option-cases (lookup j s.windows)) [
    | inl e ↦ ground (
      arith,
      h,
      eq_iff j id,
      lookup-insert j id (new_window j at ((at + window) % u64_mod) bps) s.windows,
    )
    | inr (v, e) ↦ ground (
      arith,
      h,
      eq_iff j id,
      lookup-insert j id (new_window j at ((at + window) % u64_mod) bps) s.windows,
    )
  ]

  claim-IsClaimed : (gross : ℤ) → IsClaimed id w (run_order now (claim_order j gross) s)
  unfolding claim
  claim-IsClaimed gross = elim (Option-cases (lookup j s.windows)) [
    | inl e ↦ ground (arith, h)
    | inr (v, e) ↦
        ground (arith, h, eq_iff j id, lookup-insert j id (record v { state = claimed }) s.windows)
  ]

  extend-IsClaimed : (extra : ℕ) → IsClaimed id w (run_order now (extend_order j extra) s)
  unfolding extend_claim_deadline
  extend-IsClaimed extra = elim (Option-cases (lookup j s.windows)) [
    | inl e ↦ ground (arith, h)
    | inr (v, e) ↦
        let v' : ClaimWindow = record v {
          deadline = saturating_u64 (v.deadline + extra);
          extensions = saturating_u32 (v.extensions + 1);
        } in
        ground (arith, h, eq_iff j id, lookup-insert j id v' s.windows)
  ]

  expire-IsClaimed : IsClaimed id w (run_order now (expire_order j) s)
  unfolding expire_claim
  expire-IsClaimed = elim (Option-cases (lookup j s.windows)) [
    | inl e ↦ ground (arith, h)
    | inr (v, e) ↦
        ground (arith, h, eq_iff j id, lookup-insert j id (record v { state = expired }) s.windows)
  ]

run_order-IsClaimed :
    (id : Symbol) (w : ClaimWindow) (now : ℕ) (order : ClaimOrder) (s : ClaimStore)
    → IsClaimed id w s
    → IsClaimed id w (run_order now order s)
run_order-IsClaimed id w now (open_order j at window bps) s h =
    open-IsClaimed id w now j s h at window bps
run_order-IsClaimed id w now (claim_order j gross) s h = claim-IsClaimed id w now j s h gross
run_order-IsClaimed id w now (extend_order j extra) s h = extend-IsClaimed id w now j s h extra
run_order-IsClaimed id w now (expire_order j) s h = expire-IsClaimed id w now j s h

-- Once a window is claimed, no sequence of calls changes it, and every later claim of a positive
-- amount for it is refused as already claimed, at whatever time.
pub claim_once :
    (id : Symbol) (w : ClaimWindow) (start : ClaimStore) {t : ClaimStore} (gross now : ℕ)
    → claim_window id start ≡ some w
    → w.state ≡ claimed
    → Reach run_order start t
    → 0 < gross
    → (claim_window id t ≡ some w) × (claim id (pos gross) now now t ≡ (err already_claimed, t))
unfolding claim claim_window
claim_once id w start {t} gross now stored done r positive =
    let h = Reach-keeps run_order (IsClaimed id w) (run_order-IsClaimed id w) r (stored, done) in
    ground (arith, h.0, h.1)

capped_amount-pos :
    (gross bps : ℕ)
    → gross * bps ≤ i128_max
    → capped_amount (pos gross) bps
      ≡ pos (if ltb (gross * bps / 10000) 1 then 1 else gross * bps / 10000)
unfolding capped_amount div_trunc
capped_amount-pos gross bps fits =
    rw (pos-mul gross bps, wrap_i128-pos (gross * bps) fits) (ground arith)

-- A claim of a positive amount on an open window at or before its deadline succeeds where the
-- product with the share fits in 128 bits: it pays the share of the amount in basis points, rounded
-- down, and at least 1; the window is then claimed, and every other window is as before.
claim_pays :
    (id asked : Symbol) (w : ClaimWindow) (gross now : ℕ) (s : ClaimStore)
    → claim_window id s ≡ some w
    → w.state ≡ opened
    → now ≤ w.deadline
    → 0 < gross
    → gross * w.max_claim_bps ≤ i128_max
    → let share = gross * w.max_claim_bps / 10000 in
      ((claim id (pos gross) now now s).0
        ≡ ok (new_payout id (pos gross) (pos (if ltb share 1 then 1 else share)) now))
      × (claim_window asked (claim id (pos gross) now now s).1
          ≡ (if str_eq id asked then some (record w { state = claimed }) else claim_window asked s))
unfolding claim claim_window
claim_pays id asked w gross now s stored state early positive fits = ground (
  arith,
  capped_amount-pos gross w.max_claim_bps fits,
  lookup-insert id asked (record w { state = claimed }) s.windows,
)
