-- ===== src/Trend/Rolling.antt =====
-- The rolling window of 30 days (sla_calculator/src/trend.rs).
use noc_iq_contracts.Base.{
  ℕ, ◌+◌, ◌-◌, ◌≤◌, ◌<◌, ◌≡◌, refl, false, List, [], ◌∷◌, ◌++◌, length, length-append, ltb,
  Bool-cases, inl, inr, arith,
}
use noc_iq_contracts.Types.{u32_mod, saturating_u32, saturating_u64}
use noc_iq_contracts.Effect.{ok}
use noc_iq_contracts.Trend.{
  RollingDowntimeEntry, TrendStore, collect_from, record_outage_close, get_rolling_uptime_window,
  rolling_window_secs,
}

-- What is kept is collected again as it is.
collect_from-again :
    (start : ℕ) (es : List RollingDowntimeEntry) (d c : ℕ)
    → collect_from start (collect_from start es d c).0 d c ≡ collect_from start es d c
unfolding collect_from
collect_from-again start [] d c = refl
collect_from-again start (e ∷ es) d c = elim (Bool-cases (ltb e.closed_at start)) [
  | inl out ↦ rw out (collect_from-again start es d c)
  | inr stays ↦
      let ih =
        collect_from-again start es (saturating_u64 (d + e.downtime_seconds))
          (saturating_u32 (c + 1)) in
      rw stays (rw stays (rw ih refl))
]

-- An entry at the end that is not evicted is collected last.
collect_from-append :
    (start : ℕ) (es : List RollingDowntimeEntry) (e : RollingDowntimeEntry) (d c : ℕ)
    → ltb e.closed_at start ≡ false
    → collect_from start (es ++ (e ∷ [])) d c ≡ (
      (collect_from start es d c).0 ++ (e ∷ []),
      saturating_u64 ((collect_from start es d c).1 + e.downtime_seconds),
      saturating_u32 ((collect_from start es d c).2 + 1),
    )
unfolding collect_from
collect_from-append start [] e d c stays = rw stays refl
collect_from-append start (x ∷ es) e d c stays = elim (Bool-cases (ltb x.closed_at start)) [
  | inl out ↦ rw out (collect_from-append start es e d c stays)
  | inr kept ↦ rw kept (
      rw
        (collect_from-append start es e (saturating_u64 (d + x.downtime_seconds))
          (saturating_u32 (c + 1)) stays)
        refl)
]

collect_from-count :
    (start : ℕ) (es : List RollingDowntimeEntry) (d c : ℕ)
    → c + length es < u32_mod
    → ((collect_from start es d c).2 ≡ c + length (collect_from start es d c).0)
      × (length (collect_from start es d c).0 ≤ length es)
unfolding collect_from
collect_from-count start [] d c few = omega arith
collect_from-count start (e ∷ es) d c few = elim (Bool-cases (ltb e.closed_at start)) [
  | inl out ↦ rw out (omega (arith, collect_from-count start es d c))
  | inr stays ↦ rw stays (
      ground (
        arith,
        collect_from-count start es (saturating_u64 (d + e.downtime_seconds))
            (saturating_u32 (c + 1)),
      ))
]

-- For a close that is not before the start of its outage, and fewer than 2 ^ 32 - 1 stored entries,
-- the window that `record_outage_close` returns is the one that `get_rolling_uptime_window` then
-- computes from the storage at the same time.
pub record_outage_close-get_rolling_uptime_window :
    (start end now : ℕ) (s : TrendStore)
    → start ≤ end
    → length s.rolling + 1 < u32_mod
    → let (r, t) = record_outage_close start end now s in r ≡ ok (get_rolling_uptime_window now t)
unfolding record_outage_close get_rolling_uptime_window
record_outage_close-get_rolling_uptime_window start end now s forward few =
    let from = now - rolling_window_secs in
    let kept = (collect_from from s.rolling 0 0).0 in
    let entry : RollingDowntimeEntry = record { closed_at = end; downtime_seconds = end - start } in
    let again = collect_from-again from s.rolling 0 0 in
    let count = collect_from-count from s.rolling 0 0 (omega arith) in
    elim (Bool-cases (ltb end from)) [
      | inl out ↦ ground (arith, again, count.0)
      | inr counts ↦
          let append = collect_from-append from kept entry 0 0 counts in
          ground (arith, again, count.0, count.1, append, length-append {0} kept (entry ∷ []))
    ]
