-- ===== src/Breach.antt =====
-- The strikes of a provider and the penalty they escalate (sla_calculator/src/breach_escalation.rs).
pub mod Strikes
pub mod Tests
use noc_iq_contracts.Base.{
  ℕ, ◌+◌, ◌-◌, ◌*◌, ◌/◌, ◌==◌, Option, none, some, List, [], ◌∷◌, ◌++◌, ltb, if◌then◌else◌,
  unwrap_or,
}
use noc_iq_contracts.Types.{Address}
use noc_iq_contracts.AddressMap.{get, set, remove}
use noc_iq_contracts.Effect.{Effect, ◌>>=◌, ◌>>◌, return_ok, reads, writes, refuse_if, kept}

abbrev pub bps_denominator : ℕ
bps_denominator = 10000

abbrev pub first_breach_factor_bps : ℕ
first_breach_factor_bps = 10000

abbrev pub step_factor_bps : ℕ
step_factor_bps = 2000

abbrev pub max_factor_bps : ℕ
max_factor_bps = 28000

abbrev pub max_strikes : ℕ
max_strikes = 10

abbrev pub default_max_escalation_level : ℕ
default_max_escalation_level = max_strikes

abbrev pub max_penalty_bps : ℕ
max_penalty_bps = 20000

pub data EscalationError : Type 0 where
  zero_penalty : EscalationError
  penalty_out_of_range : EscalationError

pub record BreachRecord : Type 0 where
  pub breaches : ℕ
  pub factor_bps : ℕ
  pub last_breach_at : ℕ
  pub escalated_penalty_bps : ℕ

pub record PenaltyTerms : Type 0 where
  pub base_penalty_bps : ℕ
  pub factor_bps : ℕ
  pub effective_penalty_bps : ℕ

pub data BreachEvent : Type 0 where
  strike : Address → ℕ → BreachEvent
  factor : Address → ℕ → BreachEvent
  cleared : Address → ℕ → BreachEvent

pub record BreachStore : Type 0 where
  pub breach_map : List (Address × BreachRecord)
  pub max_level : Option ℕ
  pub events : List BreachEvent

abbrev pub BreachCall : Type 0 → Type 0
BreachCall A = Effect BreachStore EscalationError A

abbrev pub announce : BreachEvent → BreachCall (Unit {0})
announce ev = writes (λ s. record s { events = s.events ++ (ev ∷ []) })

abbrev pub breach_record : Address → BreachStore → Option BreachRecord
breach_record provider s = get provider s.breach_map

-- The strikes of what is stored for a provider.
abbrev pub strikes_of : Option BreachRecord → ℕ
strikes_of none = 0
strikes_of (some r) = r.breaches

abbrev pub breach_count : Address → BreachStore → ℕ
breach_count provider s = strikes_of (breach_record provider s)

unfoldable pub escalation_factor_bps : ℕ → ℕ
escalation_factor_bps breaches =
    if breaches == 0
    then first_breach_factor_bps
    else let capped = if ltb max_strikes breaches then max_strikes else breaches in
      let raised = first_breach_factor_bps + (capped - 1) * step_factor_bps in
      if ltb max_factor_bps raised then max_factor_bps else raised

unfoldable pub effective_penalty_bps : ℕ → ℕ → ℕ
effective_penalty_bps base factor_bps =
    let scaled = base * factor_bps / bps_denominator in
    if ltb max_penalty_bps scaled then max_penalty_bps else scaled

unfoldable pub penalty_terms : Address → ℕ → BreachStore → PenaltyTerms
penalty_terms provider base s =
    let factor_bps = escalation_factor_bps (breach_count provider s) in
    record {
      base_penalty_bps = base;
      factor_bps = factor_bps;
      effective_penalty_bps = effective_penalty_bps base factor_bps;
    }

abbrev pub escalation_level : Address → BreachStore → ℕ
escalation_level site s = breach_count site s

abbrev pub max_escalation_level : BreachStore → ℕ
max_escalation_level s = unwrap_or s.max_level default_max_escalation_level

abbrev pub capped_level : ℕ → ℕ
capped_level level = if level == 0 then 1 else if ltb max_strikes level then max_strikes else level

unfoldable pub set_max_escalation_level : ℕ → BreachCall (Unit {0})
set_max_escalation_level level = writes (λ s. record s { max_level = some (capped_level level) })

-- The strikes after one more breach.
abbrev pub next_strikes : ℕ → Option BreachRecord → ℕ
next_strikes cap none = 1
next_strikes cap (some r) = if ltb r.breaches cap then r.breaches + 1 else cap

abbrev pub updated_record : Address → ℕ → ℕ → BreachStore → BreachRecord
updated_record provider base at s =
    let breaches = next_strikes (max_escalation_level s) (breach_record provider s) in
    let factor_bps = escalation_factor_bps breaches in
    record {
      breaches = breaches;
      factor_bps = factor_bps;
      last_breach_at = at;
      escalated_penalty_bps = effective_penalty_bps base factor_bps;
    }

unfoldable pub record_breach : Address → ℕ → ℕ → BreachCall BreachRecord
record_breach provider base at = do
  refuse_if (base == 0) zero_penalty
  refuse_if (ltb max_penalty_bps base) penalty_out_of_range
  updated ← reads (updated_record provider base at)
  writes (λ s. record s { breach_map = set provider updated s.breach_map })
  announce (strike provider updated.breaches)
  announce (factor provider updated.factor_bps)
  return_ok updated

unfoldable pub clear_strikes : Address → BreachCall ℕ
clear_strikes provider = do
  count ← reads (breach_count provider)
  writes (λ s. record s { breach_map = remove provider s.breach_map })
  announce (cleared provider count)
  return_ok count

-- The calls that change the storage.
pub data BreachOrder : Type 0 where
  breach_order : Address → ℕ → ℕ → BreachOrder
  clear_order : Address → BreachOrder
  level_order : ℕ → BreachOrder

abbrev pub run_order : ℕ → BreachOrder → BreachStore → BreachStore
run_order now (breach_order provider base at) s = kept s (record_breach provider base at now s)
run_order now (clear_order provider) s = kept s (clear_strikes provider now s)
run_order now (level_order level) s = kept s (set_max_escalation_level level now s)
