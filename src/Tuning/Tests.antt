-- ===== src/Tuning/Tests.antt =====
-- A contract below its target, and one without a calculation
-- (sla_calculator/src/adaptive_tuning.rs), with the theorem at the first.
use noc_iq_contracts.Base.{◌≡◌, ◌≤◌, ◌-◌, ◌&&◌, refl, true, ltb, if◌then◌else◌, arith}
use noc_iq_contracts.Base.Int.{pos, negsuc, sub_ℕ, ◌+ℤ◌, neg_ℤ}
use noc_iq_contracts.Types.{SlaStats, cast_i32}
use noc_iq_contracts.Lifecycle.{zero_stats}
use noc_iq_contracts.Tuning.{TuningConfig, default_tuning, recommend, compliance_of, capped}
use noc_iq_contracts.Tuning.Advice.{met_share, recommend-advice}

abbrev enabled_tuning : TuningConfig
enabled_tuning = record default_tuning { enabled = true }

-- 8 of 10 calculations met their threshold.
abbrev eight_of_ten : SlaStats
eight_of_ten = record zero_stats { total_calculations = 10; total_violations = 2 }

-- Before the first calculation the compliance counts as 0, and an adjustment is advised.
advice_without_data :
    ((recommend enabled_tuning zero_stats).should_adjust ≡ true)
    × ((recommend enabled_tuning zero_stats).penalty_adjustment ≡ negsuc 99)
unfolding recommend compliance_of capped cast_i32 ◌+ℤ◌ neg_ℤ
advice_without_data = (refl, refl)

recommend-advice_example :
    let r = recommend enabled_tuning eight_of_ten in
    (r.current_compliance_bps ≡ met_share eight_of_ten)
    × (met_share eight_of_ten ≤ 10000)
    × (r.gap_bps ≡ sub_ℕ 9500 (met_share eight_of_ten))
    × (r.should_adjust ≡ (
        true
        && ltb 100 (
            if ltb (met_share eight_of_ten) 9500
            then 9500 - met_share eight_of_ten
            else met_share eight_of_ten - 9500)))
    × (r.threshold_adjustment ≡ (
        if r.should_adjust
        then (if ltb (met_share eight_of_ten) 9500 then pos 100 else sub_ℕ 0 100)
        else pos 0))
    × (r.penalty_adjustment ≡ (
        if r.should_adjust
        then (if ltb (met_share eight_of_ten) 9500 then sub_ℕ 0 100 else pos 100)
        else pos 0))
recommend-advice_example =
    recommend-advice enabled_tuning eight_of_ten (omega arith) (omega arith) (omega arith)
      (omega arith) (omega arith)
