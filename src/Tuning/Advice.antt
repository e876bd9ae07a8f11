-- ===== src/Tuning/Advice.antt =====
-- Recommendations for the contract's own statistics (sla_calculator/src/adaptive_tuning.rs).
use noc_iq_contracts.Base.{
  ℕ, ◌+◌, ◌-◌, ◌*◌, ◌/◌, ◌%◌, ◌^◌, ◌≤◌, ◌<◌, ◌≡◌, ◌&&◌, refl, ltb, if◌then◌else◌, arith,
  quotient-le, Bool-cases, inl, inr,
}
use noc_iq_contracts.Base.Int.{pos, neg_ℤ, sub_ℕ, ◌+ℤ◌}
use noc_iq_contracts.Types.{SlaStats, u64_mod, cast_i32}
use noc_iq_contracts.Tuning.{TuningConfig, compliance_of, capped, recommend, neg_i32}

-- The share of the met calculations, and its bound.
abbrev pub met_share : SlaStats → ℕ
met_share stats =
    if ltb 0 stats.total_calculations
    then (stats.total_calculations - stats.total_violations) * 10000 / stats.total_calculations
    else 0

compliance_of-share :
    (stats : SlaStats)
    → stats.total_violations ≤ stats.total_calculations
    → stats.total_calculations * 10000 < u64_mod
    → (compliance_of stats ≡ met_share stats) × (met_share stats ≤ 10000)
unfolding compliance_of
compliance_of-share stats counted few =
    let n = stats.total_calculations in
    let met = n - stats.total_violations in
    let difference : (n + u64_mod - stats.total_violations) % u64_mod ≡ met = omega arith in
    let product : met * 10000 % u64_mod ≡ met * 10000 = omega arith in
    elim (Bool-cases (ltb 0 n)) [
      | inl some_calls ↦
          let bounded = quotient-le met n (omega arith) (ground arith) in
          rw (some_calls, difference, product) (omega (arith, bounded), bounded)
      | inr no_calls ↦ rw no_calls (refl, omega arith)
    ]

-- An i32 that is not negative, and its negation.
cast_i32-small : (n : ℕ) → n < 2 ^ 31 → cast_i32 (pos n) ≡ pos n
unfolding cast_i32
cast_i32-small n h = ground arith

neg_i32-small : (n : ℕ) → n < 2 ^ 31 → neg_i32 (pos n) ≡ sub_ℕ 0 n
unfolding cast_i32 neg_ℤ
neg_i32-small n h = ground arith

capped-pos :
    (largest n : ℕ)
    → largest < 2 ^ 31
    → capped largest (pos n) ≡ pos (if ltb largest n then largest else n)
unfolding capped
capped-pos largest n h = rw (cast_i32-small largest h, neg_i32-small largest h) (ground arith)

capped-neg :
    (largest n : ℕ)
    → largest < 2 ^ 31
    → capped largest (sub_ℕ 0 n) ≡ sub_ℕ 0 (if ltb largest n then largest else n)
unfolding capped
capped-neg largest n h = rw (cast_i32-small largest h, neg_i32-small largest h) (ground arith)

gap_exact :
    (t c : ℕ)
    → t ≤ 10000
    → c ≤ 10000
    → cast_i32 (cast_i32 (pos t) +ℤ neg_ℤ (cast_i32 (pos c))) ≡ sub_ℕ t c
unfolding cast_i32 ◌+ℤ◌ neg_ℤ
gap_exact t c h k = ground arith

-- For statistics with no more violations than calculations, few enough that the product by 10000
-- fits in 64 bits, and a configuration with a target of at most 10000 and a step and a bound below
-- 2 ^ 31: the compliance is the share of met calculations in basis points, rounded down, and at most
-- 10000; the gap is the target less the compliance; an adjustment is advised exactly if the tuning is
-- enabled and the gap is further from 0 than the step; the advised threshold then moves by the step,
-- but at most by the bound, up if the compliance is below the target and down if it is above, the
-- penalty by as much the other way; otherwise both stay.
pub recommend-advice :
    (config : TuningConfig) (stats : SlaStats)
    → stats.total_violations ≤ stats.total_calculations
    → stats.total_calculations * 10000 < u64_mod
    → config.target_compliance_bps ≤ 10000
    → config.adjustment_step_bps < 2 ^ 31
    → config.max_adjustment_bps < 2 ^ 31
    → let r = recommend config stats in
      let share = met_share stats in
      let target = config.target_compliance_bps in
      let step = config.adjustment_step_bps in
      let largest = config.max_adjustment_bps in
      let move = if ltb largest step then largest else step in
      (r.current_compliance_bps ≡ share)
      × (share ≤ 10000)
      × (r.gap_bps ≡ sub_ℕ target share)
      × (r.should_adjust ≡ (
          config.enabled && ltb step (if ltb share target then target - share else share - target)))
      × (r.threshold_adjustment ≡ (
          if r.should_adjust then (if ltb share target then pos move else sub_ℕ 0 move) else pos 0))
      × (r.penalty_adjustment ≡ (
          if r.should_adjust then (if ltb share target then sub_ℕ 0 move else pos move) else pos 0))
unfolding recommend
recommend-advice config stats counted few low_target low_step low_bound =
    let (same, bounded) = compliance_of-share stats counted few in
    let target = config.target_compliance_bps in
    let step = config.adjustment_step_bps in
    let largest = config.max_adjustment_bps in
    let share = met_share stats in
    rw
      (
        same,
        gap_exact target share low_target bounded,
        cast_i32-small step low_step,
        neg_i32-small step low_step,
      )
      (elim (Bool-cases (ltb share target)) [
        | inl below ↦ (
          refl,
          bounded,
          refl,
          ground arith,
          ground (arith, capped-pos largest step low_bound),
          ground (arith, capped-neg largest step low_bound),
        )
        | inr above ↦ (
          refl,
          bounded,
          refl,
          ground arith,
          ground (arith, capped-neg largest step low_bound),
          ground (arith, capped-pos largest step low_bound),
        )
      ])
