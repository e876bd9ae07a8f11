-- ===== src/Calc/Succeeds.antt =====
-- First submissions to `calculate_sla` (sla_calculator/src/lib.rs) that meet their conditions.
use noc_iq_contracts.Base.{
  ℕ, ◌<◌, ◌≡◌, ◌∙◌, ap, false, some, none, [], ◌++◌, arith, any, str_eq, unwrap_or,
}
use noc_iq_contracts.Types.{Address, Symbol, SlaConfig, SlaResult, ConfigMap, Env, lookup, u32_mod}
use noc_iq_contracts.Storage.{Storage, ok}
use noc_iq_contracts.Calc.Submit.{
  max_duration, stored_history, latest, config_and_hash, finish, calculate_sla,
}
use noc_iq_contracts.Calc.Amounts.{IsBounded}
use noc_iq_contracts.Calc.Correct.{exact_result, compute_result-exact}
use noc_iq_contracts.Calc.Access.{
  IsAuthorized, IsAuthorized-authorize, cap_duration-eq, after_cap, after_cap-history, after_record,
  record_new-eq,
}
use noc_iq_contracts.Calc.Recorded.{
  counted, extended, totalled, cut_notice, published, latest-none, after_cap-record,
}

calculate_sla-stores :
    (caller : Address) (i k : Symbol) (mttr : ℕ) (e : Env) (s : Storage) (m : ConfigMap)
    (cfg : SlaConfig)
    → IsAuthorized caller k s
    → s.config ≡ some m
    → lookup k m ≡ some cfg
    → IsBounded cfg
    → mttr < u32_mod
    → latest i (stored_history s) none ≡ none
    → let r = exact_result i (counted s mttr) cfg (e.config_digest (λ j. lookup j m)) e.timestamp in
      calculate_sla caller i k mttr e s ≡ (ok r, after_record k r (after_cap caller i mttr s))
unfolding calculate_sla config_and_hash finish max_duration
calculate_sla-stores caller i k mttr e s m cfg a stored found b small fresh =
    let d = counted s mttr in
    let hash = e.config_digest (λ j. lookup j m) in
    let r = exact_result i d cfg hash e.timestamp in
    let u = after_cap caller i mttr s in
    ground (
      arith,
      IsAuthorized-authorize caller i k e s a,
      cap_duration-eq caller i mttr e s,
      compute_result-exact i d cfg hash e.timestamp b,
      after_cap-history caller i k mttr e s,
      record_new-eq k r e u,
    )

-- Authorised, under an outage id that no entry of the history has, with a stored configuration
-- within its bounds, a u32 duration and a retention limit above 0, a submission succeeds: it returns
-- the exact result for the duration, cut at the stored limit or at a week. The history then ends in
-- this result, without its oldest entry if it had reached the limit; one calculation more is counted,
-- and either a violation with its penalty or the reward, where counters stop at the largest u64 and
-- sums at the bounds of i128; the events are those of the cut, if there was one, of the violation or
-- not, of the result and of the settlement; and all else is stored as before.
pub calculate_sla_succeeds :
    (caller : Address) (i k : Symbol) (mttr : ℕ) (e : Env) (s : Storage) (m : ConfigMap)
    (cfg : SlaConfig)
    → IsAuthorized caller k s
    → s.config ≡ some m
    → lookup k m ≡ some cfg
    → IsBounded cfg
    → mttr < u32_mod
    → 0 < unwrap_or s.retention_limit 1000
    → any (λ (r : SlaResult). str_eq r.outage_id i) (unwrap_or s.history []) ≡ false
    → let d = counted s mttr in
      let r = exact_result i d cfg (e.config_digest (λ j. lookup j m)) e.timestamp in
      calculate_sla caller i k mttr e s ≡ (
        ok r,
        record s {
          history = some (extended r s);
          stats = some (totalled d cfg s);
          events = s.events ++ (cut_notice caller i mttr s ++ published k r);
        },
      )
calculate_sla_succeeds caller i k mttr e s m cfg a stored found b small kept fresh =
    let hash = e.config_digest (λ j. lookup j m) in
    calculate_sla-stores caller i k mttr e s m cfg a stored found b small
      (latest-none i (unwrap_or s.history []) fresh)
    ∙ ap (λ t. (ok (exact_result i (counted s mttr) cfg hash e.timestamp), t))
        (after_cap-record caller i k mttr (counted s mttr) cfg hash e.timestamp s b (ground arith)
          kept)
