-- ===== src/Config/Monotone.antt =====
-- `validate_config` (sla_calculator/src/lib.rs) against the order of the severities, one by one.
use noc_iq_contracts.Base.{◌≡◌, ◌∙◌, arith}
use noc_iq_contracts.Types.{Symbol, SlaConfig, ConfigMap, insert, Env}
use noc_iq_contracts.Storage.{Storage, ok}
use noc_iq_contracts.Config.Validate.{validate_config, validate_tier, compare_all}
use noc_iq_contracts.MapLaws.{lookup-insert}
use noc_iq_contracts.Config.Soundness.{IsSound, InLimits, Above}

-- The call passes for the configuration `new` of `severity`.
abbrev pub Passes : Symbol → SlaConfig → ConfigMap → Env → Storage → Type 0
Passes severity new m e s =
    validate_config severity new.threshold_minutes new.penalty_per_minute new.reward_base m e s
    ≡ (ok tt, s)

module _ (new : SlaConfig) (m : ConfigMap) (e : Env) (s : Storage) (v : IsSound m) where
  pub critical-Passes : Passes "critical" new m e s → InLimits 60 50 10000 new × Above new v.high
  unfolding validate_config validate_tier compare_all
  critical-Passes p = ground (arith, v.has_high, v.has_medium, v.has_low)

  pub high-Passes :
      Passes "high" new m e s
      → InLimits 120 25 10000 new × Above v.critical new × Above new v.medium
  unfolding validate_config validate_tier compare_all
  high-Passes p = ground (arith, v.has_critical, v.has_medium, v.has_low)

  pub medium-Passes :
      Passes "medium" new m e s → InLimits 240 10 10000 new × Above v.high new × Above new v.low
  unfolding validate_config validate_tier compare_all
  medium-Passes p = ground (arith, v.has_critical, v.has_high, v.has_low)

  pub low-Passes : Passes "low" new m e s → InLimits 1440 1 100 new × Above v.medium new
  unfolding validate_config validate_tier compare_all
  low-Passes p = ground (arith, v.has_critical, v.has_high, v.has_medium)

  pub critical_accepted : InLimits 60 50 10000 new → Above new v.high → Passes "critical" new m e s
  unfolding validate_config validate_tier compare_all
  critical_accepted h a = ground (arith, v.has_high, v.has_medium, v.has_low)

  pub high_accepted :
      InLimits 120 25 10000 new
      → Above v.critical new
      → Above new v.medium
      → Passes "high" new m e s
  unfolding validate_config validate_tier compare_all
  high_accepted h a b = ground (arith, v.has_critical, v.has_medium, v.has_low)

  pub medium_accepted :
      InLimits 240 10 10000 new → Above v.high new → Above new v.low → Passes "medium" new m e s
  unfolding validate_config validate_tier compare_all
  medium_accepted h a b = ground (arith, v.has_critical, v.has_high, v.has_low)

  pub low_accepted : InLimits 1440 1 100 new → Above v.medium new → Passes "low" new m e s
  unfolding validate_config validate_tier compare_all
  low_accepted h a = ground (arith, v.has_critical, v.has_high, v.has_medium)

  pub insert-critical-IsSound :
      InLimits 60 50 10000 new → Above new v.high → IsSound (insert "critical" new m)
  insert-critical-IsSound h a = record {
    critical = new;
    high = v.high;
    medium = v.medium;
    low = v.low;
    has_critical = lookup-insert "critical" "critical" new m;
    has_high = lookup-insert "critical" "high" new m ∙ v.has_high;
    has_medium = lookup-insert "critical" "medium" new m ∙ v.has_medium;
    has_low = lookup-insert "critical" "low" new m ∙ v.has_low;
    limits = record {
      critical_ok = h;
      high_ok = v.limits.high_ok;
      medium_ok = v.limits.medium_ok;
      low_ok = v.limits.low_ok;
    };
    critical_high = a;
    high_medium = v.high_medium;
    medium_low = v.medium_low;
  }

  pub insert-high-IsSound :
      InLimits 120 25 10000 new
      → Above v.critical new
      → Above new v.medium
      → IsSound (insert "high" new m)
  insert-high-IsSound h a b = record {
    critical = v.critical;
    high = new;
    medium = v.medium;
    low = v.low;
    has_critical = lookup-insert "high" "critical" new m ∙ v.has_critical;
    has_high = lookup-insert "high" "high" new m;
    has_medium = lookup-insert "high" "medium" new m ∙ v.has_medium;
    has_low = lookup-insert "high" "low" new m ∙ v.has_low;
    limits = record {
      critical_ok = v.limits.critical_ok;
      high_ok = h;
      medium_ok = v.limits.medium_ok;
      low_ok = v.limits.low_ok;
    };
    critical_high = a;
    high_medium = b;
    medium_low = v.medium_low;
  }

  pub insert-medium-IsSound :
      InLimits 240 10 10000 new
      → Above v.high new
      → Above new v.low
      → IsSound (insert "medium" new m)
  insert-medium-IsSound h a b = record {
    critical = v.critical;
    high = v.high;
    medium = new;
    low = v.low;
    has_critical = lookup-insert "medium" "critical" new m ∙ v.has_critical;
    has_high = lookup-insert "medium" "high" new m ∙ v.has_high;
    has_medium = lookup-insert "medium" "medium" new m;
    has_low = lookup-insert "medium" "low" new m ∙ v.has_low;
    limits = record {
      critical_ok = v.limits.critical_ok;
      high_ok = v.limits.high_ok;
      medium_ok = h;
      low_ok = v.limits.low_ok;
    };
    critical_high = v.critical_high;
    high_medium = a;
    medium_low = b;
  }

  pub insert-low-IsSound :
      InLimits 1440 1 100 new → Above v.medium new → IsSound (insert "low" new m)
  insert-low-IsSound h a = record {
    critical = v.critical;
    high = v.high;
    medium = v.medium;
    low = new;
    has_critical = lookup-insert "low" "critical" new m ∙ v.has_critical;
    has_high = lookup-insert "low" "high" new m ∙ v.has_high;
    has_medium = lookup-insert "low" "medium" new m ∙ v.has_medium;
    has_low = lookup-insert "low" "low" new m;
    limits = record {
      critical_ok = v.limits.critical_ok;
      high_ok = v.limits.high_ok;
      medium_ok = v.limits.medium_ok;
      low_ok = h;
    };
    critical_high = v.critical_high;
    high_medium = v.high_medium;
    medium_low = a;
  }
