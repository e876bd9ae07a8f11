-- ===== src/Resolution/Once.antt =====
-- What is stored of an outage, and that it is resolved once
-- (sla_calculator/src/resolution_delay.rs).
use noc_iq_contracts.Base.{
  ℕ, ◌+◌, ◌≤◌, ◌≡◌, refl, inl, inr, none, some, [], Option, Option-cases, arith, eq_iff,
}
use noc_iq_contracts.Types.{Symbol, lookup}
use noc_iq_contracts.MapLaws.{lookup-insert}
use noc_iq_contracts.Effect.{ok, err}
use noc_iq_contracts.Effect.Reach.{Reach, Reach-keeps}
use noc_iq_contracts.Resolution.{
  ResolutionState, unknown, pending, resolved, ResolutionRecord, ResolutionStore, ResolutionOrder,
  detect_order, resolve_order, run_order, mark_detected, mark_resolved, resolution_state,
  resolution_record, detected_record, resolved_record, max_delay_s, already_resolved,
}

-- An unknown outage has no record; a pending one has no resolution yet; a resolved one was resolved
-- at most a day after its detection, and its delay is the time between.
abbrev pub Fits : ResolutionState → Option ResolutionRecord → Type 0
Fits unknown r = r ≡ none
Fits pending none = ⊥
Fits pending (some r) = (r.resolved_at ≡ 0) × (r.delay_seconds ≡ 0)
Fits resolved none = ⊥
Fits resolved (some r) =
    (r.detected_at + r.delay_seconds ≡ r.resolved_at) × (r.delay_seconds ≤ max_delay_s)

abbrev pub IsConsistent : Symbol → ResolutionStore → Type 0
IsConsistent id s = Fits (resolution_state id s) (resolution_record id s)

module _ (id : Symbol) (now : ℕ) (j : Symbol) (at : ℕ) (s : ResolutionStore) where
  detect-IsConsistent : IsConsistent id s → IsConsistent id (run_order now (detect_order j at) s)
  unfolding mark_detected
  detect-IsConsistent h = ground (
    arith,
    lookup-insert j id pending s.state_map,
    lookup-insert j id (detected_record j at) s.record_map,
  )

  resolve-IsConsistent : IsConsistent id s → IsConsistent id (run_order now (resolve_order j at) s)
  unfolding mark_resolved
  resolve-IsConsistent h = elim (Option-cases (resolution_record j s)) [
    | inl missing ↦ ground arith
    | inr (r, stored) ↦ ground (
      arith,
      lookup-insert j id resolved s.state_map,
      lookup-insert j id (resolved_record j r.detected_at at) s.record_map,
    )
  ]

run_order-IsConsistent :
    (id : Symbol) (now : ℕ) (order : ResolutionOrder) (s : ResolutionStore)
    → IsConsistent id s
    → IsConsistent id (run_order now order s)
run_order-IsConsistent id now (detect_order j at) s h = detect-IsConsistent id now j at s h
run_order-IsConsistent id now (resolve_order j at) s h = resolve-IsConsistent id now j at s h

-- From an empty storage, whatever detections and resolutions follow, an outage without a state has
-- no record, a pending one has a record without resolution time and delay, and a resolved one has a
-- record whose delay is the time from its detection to its resolution, at most a day.
pub resolution_record-IsConsistent :
    (id : Symbol) (s : ResolutionStore) {t : ResolutionStore}
    → s.state_map ≡ []
    → s.record_map ≡ []
    → Reach run_order s t
    → IsConsistent id t
unfolding lookup
resolution_record-IsConsistent id s fresh empty path =
    Reach-keeps run_order (IsConsistent id) (run_order-IsConsistent id) path
      (rw (fresh, empty) refl)

abbrev IsSettled : Symbol → Option ResolutionRecord → ResolutionStore → Type 0
IsSettled id r s = (resolution_state id s ≡ resolved) × (resolution_record id s ≡ r)

module _ (id : Symbol) (r : Option ResolutionRecord) (now : ℕ) (j : Symbol) (at : ℕ)
    (s : ResolutionStore) where
  detect-IsSettled : IsSettled id r s → IsSettled id r (run_order now (detect_order j at) s)
  unfolding mark_detected
  detect-IsSettled h = ground (
    arith,
    eq_iff j id,
    lookup-insert j id pending s.state_map,
    lookup-insert j id (detected_record j at) s.record_map,
  )

  resolve-IsSettled : IsSettled id r s → IsSettled id r (run_order now (resolve_order j at) s)
  unfolding mark_resolved
  resolve-IsSettled h = elim (Option-cases (resolution_record j s)) [
    | inl missing ↦ ground arith
    | inr (q, stored) ↦ ground (
      arith,
      eq_iff j id,
      lookup-insert j id resolved s.state_map,
      lookup-insert j id (resolved_record j q.detected_at at) s.record_map,
    )
  ]

run_order-IsSettled :
    (id : Symbol) (r : Option ResolutionRecord) (now : ℕ) (order : ResolutionOrder)
    (s : ResolutionStore)
    → IsSettled id r s
    → IsSettled id r (run_order now order s)
run_order-IsSettled id r now (detect_order j at) s h = detect-IsSettled id r now j at s h
run_order-IsSettled id r now (resolve_order j at) s h = resolve-IsSettled id r now j at s h

-- After a resolution that succeeded, whatever calls follow, the record of the outage stays as the
-- resolution left it, and each later call that detects or resolves it is refused as already resolved.
resolved_for_good :
    (id : Symbol) (at now later ledger : ℕ) (s : ResolutionStore) {t : ResolutionStore} (delay : ℕ)
    → (mark_resolved id at now s).0 ≡ ok delay
    → Reach run_order (mark_resolved id at now s).1 t
    → (resolution_record id t ≡ resolution_record id (mark_resolved id at now s).1)
      × (mark_detected id later ledger t ≡ (err already_resolved, t))
      × (mark_resolved id later ledger t ≡ (err already_resolved, t))
unfolding mark_detected mark_resolved
resolved_for_good id at now later ledger s {t} delay done path =
    let start : resolution_state id (mark_resolved id at now s).1 ≡ resolved =
      elim (Option-cases (resolution_record id s)) [
        | inl missing ↦ ground (arith, missing)
        | inr (r, stored) ↦
            ground (arith, stored, lookup-insert id id resolved s.state_map, eq_iff id id)
      ] in
    let r = resolution_record id (mark_resolved id at now s).1 in
    let h = Reach-keeps run_order (IsSettled id r) (run_order-IsSettled id r) path (start, refl) in
    (h.1, ground (arith, h.0), ground (arith, h.0))
