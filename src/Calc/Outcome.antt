-- ===== src/Calc/Outcome.antt =====
-- The pure computation of an outcome: `compute_result` (sla_calculator/src/lib.rs).
use noc_iq_contracts.Base.{ℕ, ◌-◌, List, ltb, ◌==◌, if◌then◌else◌}
use noc_iq_contracts.Base.Int.{ℤ, pos, ltb_ℤ, leb_ℤ, saturating_mul, wrapping_neg, div_euclid}
use noc_iq_contracts.Types.{Symbol, SlaConfig, SlaResult, invalid_penalty_amount}
use noc_iq_contracts.Storage.{Result, ok, err, panic}

-- The multiplier and the rating of an outage that met its threshold, by its performance ratio.
unfoldable pub reward_tier : SlaConfig → ℤ → ℕ × Symbol
reward_tier cfg ratio =
    if ltb_ℤ ratio (pos 50)
    then (cfg.top_tier_multiplier, "top")
    else if ltb_ℤ ratio (pos 75)
    then (cfg.excel_tier_multiplier, "excel")
    else (cfg.good_tier_multiplier, "good")

-- `mttr * 100 / threshold`
unfoldable pub performance_ratio : ℕ → ℕ → ℤ
performance_ratio mttr threshold = div_euclid (saturating_mul (pos mttr) (pos 100)) threshold

unfoldable pub penalty_of : ℕ → SlaConfig → ℤ
penalty_of mttr cfg = saturating_mul (pos (mttr - cfg.threshold_minutes)) cfg.penalty_per_minute

unfoldable pub reward_of : ℕ → SlaConfig → ℤ
unfolding reward_tier performance_ratio
reward_of mttr cfg =
    div_euclid
      (saturating_mul cfg.reward_base
        (pos (reward_tier cfg (performance_ratio mttr cfg.threshold_minutes)).0))
      100

-- Case 1: the threshold is exceeded.
unfoldable pub violation : Symbol → ℕ → SlaConfig → List ℕ → ℕ → Result SlaResult
violation outage_id mttr cfg hash recorded_at =
    let amount = wrapping_neg (penalty_of mttr cfg) in
    if leb_ℤ (pos 0) amount
    then err invalid_penalty_amount
    else ok (record {
      outage_id = outage_id;
      status = "viol";
      mttr_minutes = mttr;
      threshold_minutes = cfg.threshold_minutes;
      amount = amount;
      payment_type = "pen";
      rating = "poor";
      config_version_hash = hash;
      recorded_at = recorded_at;
    })

-- Case 2: the threshold is met. `div_euclid(0)` panics.
unfoldable pub reward : Symbol → ℕ → SlaConfig → List ℕ → ℕ → Result SlaResult
reward outage_id mttr cfg hash recorded_at =
    if cfg.threshold_minutes == 0
    then panic
    else ok (record {
      outage_id = outage_id;
      status = "met";
      mttr_minutes = mttr;
      threshold_minutes = cfg.threshold_minutes;
      amount = reward_of mttr cfg;
      payment_type = "rew";
      rating = (reward_tier cfg (performance_ratio mttr cfg.threshold_minutes)).1;
      config_version_hash = hash;
      recorded_at = recorded_at;
    })

unfoldable pub compute_result : Symbol → ℕ → SlaConfig → List ℕ → ℕ → Result SlaResult
unfolding violation reward
compute_result outage_id mttr cfg hash recorded_at =
    if mttr == 0
    then ok (record {
      outage_id = outage_id;
      status = "met";
      mttr_minutes = 0;
      threshold_minutes = cfg.threshold_minutes;
      amount = pos 0;
      payment_type = "rew";
      rating = "top";
      config_version_hash = hash;
      recorded_at = recorded_at;
    })
    else if ltb cfg.threshold_minutes mttr
    then violation outage_id mttr cfg hash recorded_at
    else reward outage_id mttr cfg hash recorded_at
