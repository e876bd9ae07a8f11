-- ===== src/Resolution.antt =====
-- From the detection of an outage to its resolution (sla_calculator/src/resolution_delay.rs).
pub mod Once
pub mod Tests
use noc_iq_contracts.Base.{
  ℕ, ◌-◌, not, Bool, true, false, Option, none, some, List, [], ◌∷◌, ◌++◌, leb, ltb, if◌then◌else◌,
  unwrap_or,
}
use noc_iq_contracts.Types.{Symbol, lookup, insert}
use noc_iq_contracts.Effect.{
  Effect, ◌>>=◌, ◌>>◌, return_ok, return_err, reads, writes, found_or, refuse_if, kept,
}

abbrev pub max_delay_s : ℕ
max_delay_s = 86400

pub data ResolutionState : Type 0 where
  unknown pending resolved : ResolutionState

pub record ResolutionRecord : Type 0 where
  pub outage_id : Symbol
  pub detected_at : ℕ
  pub resolved_at : ℕ
  pub delay_seconds : ℕ

pub data DelayError : Type 0 where
  not_detected already_resolved sequence_regressed delay_too_large : DelayError

pub data ResolutionEvent : Type 0 where
  detected resolved_after : Symbol → ℕ → ResolutionEvent
  delay_s : Symbol → ResolutionRecord → ResolutionEvent

-- The storage keys; absent maps read as empty ones.
pub record ResolutionStore : Type 0 where
  pub state_map : List (Symbol × ResolutionState)
  pub record_map : List (Symbol × ResolutionRecord)
  pub events : List ResolutionEvent

abbrev pub ResolutionCall : Type 0 → Type 0
ResolutionCall A = Effect ResolutionStore DelayError A

abbrev pub announce : ResolutionEvent → ResolutionCall (Unit {0})
announce ev = writes (λ s. record s { events = s.events ++ (ev ∷ []) })

abbrev pub resolution_state : Symbol → ResolutionStore → ResolutionState
resolution_state outage_id s = unwrap_or (lookup outage_id s.state_map) unknown

abbrev pub resolution_record : Symbol → ResolutionStore → Option ResolutionRecord
resolution_record outage_id s = lookup outage_id s.record_map

abbrev pub detected_record : Symbol → ℕ → ResolutionRecord
detected_record id at = record {
  outage_id = id;
  detected_at = at;
  resolved_at = 0;
  delay_seconds = 0;
}

abbrev pub detect : Symbol → ℕ → ResolutionState → ResolutionCall (Unit {0})
detect id at resolved = return_err already_resolved
detect id at pending = return_ok tt
detect id at unknown = do
  writes (λ s. record s {
    state_map = insert id pending s.state_map;
    record_map = insert id (detected_record id at) s.record_map;
  })
  announce (detected id at)

unfoldable pub mark_detected : Symbol → ℕ → ResolutionCall (Unit {0})
mark_detected outage_id detected_at = do
  state ← reads (resolution_state outage_id)
  detect outage_id detected_at state

abbrev pub resolved_record : Symbol → ℕ → ℕ → ResolutionRecord
resolved_record id detected_at resolved_at = record {
  outage_id = id;
  detected_at = detected_at;
  resolved_at = resolved_at;
  delay_seconds = resolved_at - detected_at;
}

abbrev pub require_pending : ResolutionState → ResolutionCall (Unit {0})
require_pending pending = return_ok tt
require_pending resolved = return_err already_resolved
require_pending unknown = return_err not_detected

unfoldable pub mark_resolved : Symbol → ℕ → ResolutionCall ℕ
mark_resolved outage_id resolved_at = do
  state ← reads (resolution_state outage_id)
  require_pending state
  found ← found_or (← reads (resolution_record outage_id)) not_detected
  refuse_if (ltb resolved_at found.detected_at) sequence_regressed
  let delay_seconds = resolved_at - found.detected_at
  refuse_if (ltb max_delay_s delay_seconds) delay_too_large
  let stored = resolved_record outage_id found.detected_at resolved_at
  writes (λ s. record s {
    record_map = insert outage_id stored s.record_map;
    state_map = insert outage_id resolved s.state_map;
  })
  announce (resolved_after outage_id delay_seconds)
  announce (delay_s outage_id stored)
  return_ok delay_seconds

abbrev pub delay_of : Option ResolutionRecord → Option ℕ
delay_of none = none
delay_of (some r) = some r.delay_seconds

unfoldable pub resolution_delay_seconds : Symbol → ResolutionStore → Option ℕ
resolution_delay_seconds outage_id s = delay_of (resolution_record outage_id s)

-- The time since the detection, at most a day.
abbrev pub elapsed_since : ℕ → Option ResolutionRecord → Option ℕ
elapsed_since now none = none
elapsed_since now (some r) =
    if leb now r.detected_at
    then some 0
    else if ltb max_delay_s (now - r.detected_at)
    then some max_delay_s
    else some (now - r.detected_at)

abbrev pub delay_while : Symbol → ℕ → ResolutionStore → ResolutionState → Option ℕ
delay_while id now s pending = elapsed_since now (resolution_record id s)
delay_while id now s resolved = none
delay_while id now s unknown = none

unfoldable pub pending_delay : Symbol → ℕ → ResolutionStore → Option ℕ
pending_delay outage_id now s = delay_while outage_id now s (resolution_state outage_id s)

unfoldable pub has_resolved : Symbol → ResolutionStore → Bool
has_resolved outage_id s = elim (resolution_state outage_id s) [
  | resolved ↦ true
  | pending ↦ false
  | unknown ↦ false
]

unfoldable pub is_pending : Symbol → ResolutionStore → Bool
is_pending outage_id s = elim (resolution_state outage_id s) [
  | pending ↦ true
  | resolved ↦ false
  | unknown ↦ false
]

-- The calls that change the storage.
pub data ResolutionOrder : Type 0 where
  detect_order resolve_order : Symbol → ℕ → ResolutionOrder

abbrev pub run_order : ℕ → ResolutionOrder → ResolutionStore → ResolutionStore
run_order now (detect_order id at) s = kept s (mark_detected id at now s)
run_order now (resolve_order id at) s = kept s (mark_resolved id at now s)
