-- ===== src/Tuning.antt =====
-- Recommendations from the compliance so far (sla_calculator/src/adaptive_tuning.rs).
pub mod Advice
pub mod Tests
use noc_iq_contracts.Base.{
  ℕ, ◌+◌, ◌-◌, ◌*◌, ◌/◌, ◌%◌, ◌==◌, ◌&&◌, not, Bool, true, false, Option, none, some, List, [], ◌∷◌,
  ◌++◌, ltb, if◌then◌else◌, unwrap_or,
}
use noc_iq_contracts.Base.Int.{ℤ, pos, negsuc, neg_ℤ, ltb_ℤ, pos_part, neg_part, ◌+ℤ◌}
use noc_iq_contracts.Types.{
  Address, SlaStats, SlaError, not_initialized, unauthorized, invalid_threshold, u32_mod, u64_mod,
  cast_i32,
}
use noc_iq_contracts.Effect.{Effect, ◌>>=◌, ◌>>◌, return_ok, reads, writes, found_or, refuse_if}
use noc_iq_contracts.Lifecycle.{zero_stats}

pub record TuningConfig : Type 0 where
  pub target_compliance_bps : ℕ
  pub adjustment_step_bps : ℕ
  pub max_adjustment_bps : ℕ
  pub evaluation_window : ℕ
  pub enabled : Bool

pub record TuningRecommendation : Type 0 where
  pub current_compliance_bps : ℕ
  pub target_compliance_bps : ℕ
  pub gap_bps : ℤ
  pub threshold_adjustment : ℤ
  pub penalty_adjustment : ℤ
  pub should_adjust : Bool

pub data TuningEvent : Type 0 where
  tune_set : Address → ℕ → ℕ → TuningEvent
  tune_ap : Address → ℤ → ℤ → TuningEvent

-- The keys that the module reads or writes; the statistics are the contract's.
pub record TuningStore : Type 0 where
  pub admin : Option Address
  pub tuning : Option TuningConfig
  pub stats : Option SlaStats
  pub events : List TuningEvent

abbrev pub TuningCall : Type 0 → Type 0
TuningCall A = Effect TuningStore SlaError A

abbrev pub default_tuning : TuningConfig
default_tuning = record {
  target_compliance_bps = 9500;
  adjustment_step_bps = 100;
  max_adjustment_bps = 500;
  evaluation_window = 86400;
  enabled = false;
}

unfoldable pub require_admin : Address → TuningCall (Unit {0})
require_admin caller = do
  admin ← found_or (← reads (λ s. s.admin)) not_initialized
  refuse_if (not (caller == admin)) unauthorized

unfoldable pub init_tuning : TuningCall (Unit {0})
init_tuning = writes (λ s. record s { tuning = some default_tuning })

unfoldable pub set_tuning : Address → ℕ → ℕ → ℕ → ℕ → TuningCall (Unit {0})
unfolding require_admin
set_tuning caller target step largest window = do
  require_admin caller
  refuse_if (ltb 10000 target) invalid_threshold
  writes (λ s. record s {
    tuning = some (record {
      target_compliance_bps = target;
      adjustment_step_bps = step;
      max_adjustment_bps = largest;
      evaluation_window = window;
      enabled = true;
    });
  })
  writes (λ s. record s { events = s.events ++ (tune_set caller target step ∷ []) })

unfoldable pub disable_tuning : Address → TuningCall (Unit {0})
unfolding require_admin
disable_tuning caller = do
  require_admin caller
  writes (λ s. record s {
    tuning = some (record (unwrap_or s.tuning default_tuning) { enabled = false });
  })

-- The share of met calculations; the difference and the product wrap as on u64.
unfoldable pub compliance_of : SlaStats → ℕ
compliance_of stats =
    if ltb 0 stats.total_calculations
    then (let met_count = (stats.total_calculations + u64_mod - stats.total_violations) % u64_mod in
        ((met_count * 10000) % u64_mod / stats.total_calculations) % u32_mod)
    else 0

-- The negation of an i32, which wraps at the least one.
abbrev pub neg_i32 : ℤ → ℤ
neg_i32 a = cast_i32 (neg_ℤ a)

abbrev pub max_ℤ : ℤ → ℤ → ℤ
max_ℤ a b = if ltb_ℤ a b then b else a

abbrev pub min_ℤ : ℤ → ℤ → ℤ
min_ℤ a b = if ltb_ℤ b a then b else a

-- `.max(-largest).min(largest)`
unfoldable pub capped : ℕ → ℤ → ℤ
capped largest a = let bound = cast_i32 (pos largest) in min_ℤ (max_ℤ a (neg_i32 bound)) bound

-- The body of `get_tuning_recommendation` for what is stored.
unfoldable pub recommend : TuningConfig → SlaStats → TuningRecommendation
recommend config stats =
    let current = compliance_of stats in
    let gap =
      cast_i32 (cast_i32 (pos config.target_compliance_bps) +ℤ neg_ℤ (cast_i32 (pos current))) in
    let should_adjust =
      config.enabled && ltb config.adjustment_step_bps (pos_part gap + neg_part gap) in
    let step = cast_i32 (pos config.adjustment_step_bps) in
    let below = ltb_ℤ (pos 0) gap in
    record {
      current_compliance_bps = current;
      target_compliance_bps = config.target_compliance_bps;
      gap_bps = gap;
      threshold_adjustment =
          (if should_adjust
            then capped config.max_adjustment_bps (if below then step else neg_i32 step)
            else pos 0);
      penalty_adjustment =
          (if should_adjust
            then capped config.max_adjustment_bps (if below then neg_i32 step else step)
            else pos 0);
      should_adjust = should_adjust;
    }

unfoldable pub get_tuning_recommendation : TuningCall TuningRecommendation
get_tuning_recommendation =
    reads (λ s. recommend (unwrap_or s.tuning default_tuning) (unwrap_or s.stats zero_stats))

unfoldable pub get_tuning_config : TuningCall TuningConfig
get_tuning_config = reads (λ s. unwrap_or s.tuning default_tuning)

unfoldable pub record_tuning_application : Address → ℤ → ℤ → TuningCall (Unit {0})
record_tuning_application caller threshold penalty =
    writes (λ s. record s { events = s.events ++ (tune_ap caller threshold penalty ∷ []) })
