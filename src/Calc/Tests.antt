-- ===== src/Calc/Tests.antt =====
-- Runs of the calculation on concrete outages.
use noc_iq_contracts.Base.{◌≡◌, refl, some, none, [], ◌∷◌, ◌++◌, arith}
use noc_iq_contracts.Base.Int.{
  pos, negsuc, ◌≤ℤ◌, ◌*ℤ◌, saturate, saturating_mul, div_euclid, wrapping_neg, neg_ℤ,
}
use noc_iq_contracts.Types.{SlaResult, lookup}
use noc_iq_contracts.Storage.{Storage, ok}
use noc_iq_contracts.Fixtures.{at_time, critical_config, ready, met_result}
use noc_iq_contracts.Config.Defaults.{initialize_default_configs}
use noc_iq_contracts.Config.Severity.{is_canonical_severity, canonical_severity_index}
use noc_iq_contracts.Calc.Outcome.{penalty_of, reward_of, compute_result}
use noc_iq_contracts.Calc.Submit.{
  max_duration, cap_duration, record_new, authorize, config_and_hash, finish, calculate_sla, latest,
}
use noc_iq_contracts.Calc.View.{effective}
use noc_iq_contracts.Calc.Amounts.{IsBounded}
use noc_iq_contracts.Calc.Correct.{exact_result, compute_result-exact}
use noc_iq_contracts.Calc.Antitone.{IsGraded, compute_result-antitone}
use noc_iq_contracts.Calc.Access.{IsAuthorized, after_cap}
use noc_iq_contracts.Calc.Recorded.{totalled, cut_notice, published}
use noc_iq_contracts.Calc.Succeeds.{calculate_sla_succeeds}
use noc_iq_contracts.Calc.Resubmit.{calculate_sla-idempotent}

critical_config-IsBounded : IsBounded critical_config
critical_config-IsBounded = ground arith

critical_config-IsGraded : IsGraded critical_config
critical_config-IsGraded = ground arith

-- Five minutes over the threshold of 15.
abbrev late_result : SlaResult
late_result = record {
  outage_id = "o1";
  status = "viol";
  mttr_minutes = 20;
  threshold_minutes = 15;
  amount = negsuc 499;
  payment_type = "pen";
  rating = "poor";
  config_version_hash = [];
  recorded_at = 7;
}

compute_result_late : compute_result "o1" 20 critical_config [] 7 ≡ ok late_result
unfolding compute_result penalty_of saturating_mul saturate ◌*ℤ◌ wrapping_neg neg_ℤ
compute_result_late = refl

compute_result_met : compute_result "o1" 10 critical_config [] 7 ≡ ok (met_result 7)
unfolding compute_result reward_of saturating_mul saturate ◌*ℤ◌ div_euclid
compute_result_met = refl

compute_result-exact_example :
    compute_result "o1" 20 critical_config [] 7 ≡ ok (exact_result "o1" 20 critical_config [] 7)
compute_result-exact_example =
    compute_result-exact "o1" 20 critical_config [] 7 critical_config-IsBounded (omega arith)

compute_result-antitone_example : negsuc 499 ≤ℤ pos 1125
compute_result-antitone_example =
    compute_result-antitone "o1" critical_config [] 7 9 19 critical_config-IsBounded
      critical_config-IsGraded (omega arith) (omega arith) compute_result_met compute_result_late

-- The first submission of "o1" by the operator at time 2000.
abbrev submitted : Storage
submitted = (calculate_sla 2 "o1" "critical" 10 (at_time 2000) ready).1

submits :
    calculate_sla 2 "o1" "critical" 10 (at_time 2000) ready ≡ (ok (met_result 2000), submitted)
unfolding calculate_sla authorize config_and_hash cap_duration finish compute_result reward_of
    saturating_mul saturate ◌*ℤ◌ div_euclid latest record_new lookup initialize_default_configs
submits = refl

not_yet : latest "o1" [] none ≡ none
unfolding latest
not_yet = refl

calculate_sla-idempotent_example :
    calculate_sla 2 "o1" "critical" 10 (at_time 9000) submitted
    ≡ (ok (met_result 2000), after_cap 2 "o1" 10 submitted)
calculate_sla-idempotent_example =
    calculate_sla-idempotent 2 "o1" "critical" 10 (at_time 2000) (at_time 9000) ready submitted
      (omega arith) not_yet submits

-- A storage whose history holds "o1" already.
abbrev seen : Storage
seen = record ready { history = some ((met_result 2000) ∷ []) }

seen-IsAuthorized : IsAuthorized 2 "critical" seen
unfolding is_canonical_severity canonical_severity_index
seen-IsAuthorized = record { current = refl; running = refl; is_operator = refl; canonical = refl }

seen_config : config_and_hash "critical" (at_time 3000) seen ≡ (ok (critical_config, []), seen)
unfolding config_and_hash initialize_default_configs
seen_config = refl

seen_result :
    compute_result "o1" (effective (max_duration seen) 10) critical_config [] 3000
    ≡ ok (met_result 3000)
unfolding max_duration compute_result reward_of saturating_mul saturate ◌*ℤ◌ div_euclid
seen_result = refl

seen_latest : latest "o1" ((met_result 2000) ∷ []) none ≡ some (met_result 2000)
unfolding latest
seen_latest = refl

ready-IsAuthorized : IsAuthorized 2 "critical" ready
unfolding is_canonical_severity canonical_severity_index
ready-IsAuthorized = record { current = refl; running = refl; is_operator = refl; canonical = refl }

-- 20000 minutes are capped at 10080.
abbrev capped_result : SlaResult
capped_result = exact_result "o1" 10080 critical_config [] 2000

calculate_sla_succeeds_example : calculate_sla 2 "o1" "critical" 20000 (at_time 2000) ready ≡ (
  ok capped_result,
  record ready {
    history = some (capped_result ∷ []);
    stats = some (totalled 10080 critical_config ready);
    events = ready.events ++ (cut_notice 2 "o1" 20000 ready ++ published "critical" capped_result);
  },
)
unfolding lookup initialize_default_configs
calculate_sla_succeeds_example =
    calculate_sla_succeeds 2 "o1" "critical" 20000 (at_time 2000) ready initialize_default_configs
      critical_config ready-IsAuthorized refl refl critical_config-IsBounded (omega arith)
      (omega arith) refl
