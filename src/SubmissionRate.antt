-- ===== src/SubmissionRate.antt =====
-- The limits on submissions per operator and in all (sla_calculator/src/submission_rate.rs).
pub mod Window
pub mod Tests
use noc_iq_contracts.Base.{
  ℕ, ◌+◌, ◌-◌, ◌||◌, ◌==◌, not, Bool, true, false, Option, none, some, List, [], ◌∷◌, ◌++◌, leb,
  ltb, if◌then◌else◌, unwrap_or,
}
use noc_iq_contracts.Types.{
  Address, SlaError, not_initialized, unauthorized, invalid_threshold, contract_paused,
  saturating_u32, saturating_u64,
}
use noc_iq_contracts.AddressMap.{get, set}
use noc_iq_contracts.Effect.{
  Effect, ◌>>=◌, ◌>>◌, return_ok, clock, reads, writes, found_or, refuse_if, kept,
}

pub record SubmissionRateConfig : Type 0 where
  pub max_per_operator : ℕ
  pub max_total : ℕ
  pub window_seconds : ℕ
  pub enabled : Bool

pub record OperatorSubmissionTrack : Type 0 where
  pub operator : Address
  pub count : ℕ
  pub window_start : ℕ

pub record GlobalSubmissionTrack : Type 0 where
  pub total_count : ℕ
  pub window_start : ℕ

pub data RateEvent : Type 0 where
  rate_set : Address → ℕ → ℕ → ℕ → RateEvent
  rate_cleared : Address → RateEvent

pub record RateStore : Type 0 where
  pub admin : Option Address
  pub config : Option SubmissionRateConfig
  pub operators : List (Address × OperatorSubmissionTrack)
  pub global : Option GlobalSubmissionTrack
  pub events : List RateEvent

abbrev pub RateCall : Type 0 → Type 0
RateCall A = Effect RateStore SlaError A

abbrev pub default_rate : SubmissionRateConfig
default_rate = record {
  max_per_operator = 50;
  max_total = 200;
  window_seconds = 3600;
  enabled = false;
}

unfoldable pub init_submission_rate : RateCall (Unit {0})
init_submission_rate = writes (λ s. record s { config = some default_rate })

unfoldable pub require_admin : Address → RateCall (Unit {0})
require_admin caller = do
  admin ← found_or (← reads (λ s. s.admin)) not_initialized
  refuse_if (not (caller == admin)) unauthorized

abbrev pub announce : RateEvent → RateCall (Unit {0})
announce ev = writes (λ s. record s { events = s.events ++ (ev ∷ []) })

unfoldable pub set_submission_rate : Address → ℕ → ℕ → ℕ → RateCall (Unit {0})
unfolding require_admin
set_submission_rate caller per_operator total window = do
  require_admin caller
  refuse_if (per_operator == 0 || total == 0 || window == 0) invalid_threshold
  refuse_if (ltb total per_operator) invalid_threshold
  writes (λ s. record s {
    config = some (record {
      max_per_operator = per_operator;
      max_total = total;
      window_seconds = window;
      enabled = true;
    });
  })
  announce (rate_set caller per_operator total window)

unfoldable pub disable_submission_rate : Address → RateCall (Unit {0})
unfolding require_admin
disable_submission_rate caller = do
  require_admin caller
  writes (λ s. record s {
    config = some (record (unwrap_or s.config default_rate) { enabled = false });
  })
  announce (rate_cleared caller)

-- The count in the window that is current at `now`: 0 once the window has passed.
abbrev pub live_count : ℕ → ℕ → ℕ → ℕ → ℕ
live_count now start window count = if leb window (now - start) then 0 else count

abbrev pub operator_track : Address → ℕ → RateStore → OperatorSubmissionTrack
operator_track operator now s =
    unwrap_or (get operator s.operators)
      (record { operator = operator; count = 0; window_start = now })

abbrev pub global_track : ℕ → RateStore → GlobalSubmissionTrack
global_track now s = unwrap_or s.global (record { total_count = 0; window_start = now })

-- The limits of an enabled configuration.
abbrev pub check_limits : Address → SubmissionRateConfig → RateCall (Unit {0})
check_limits operator c = do
  now ← clock
  track ← reads (operator_track operator now)
  refuse_if
      (leb c.max_per_operator (live_count now track.window_start c.window_seconds track.count))
      contract_paused
  total ← reads (global_track now)
  refuse_if (leb c.max_total (live_count now total.window_start c.window_seconds total.total_count))
      contract_paused

abbrev pub check_under : Address → Option SubmissionRateConfig → RateCall (Unit {0})
check_under operator none = return_ok tt
check_under operator (some c) = if not c.enabled then return_ok tt else check_limits operator c

unfoldable pub check_submission_rate : Address → RateCall (Unit {0})
check_submission_rate operator = do config ← reads (λ s. s.config); check_under operator config

abbrev pub counted : ℕ → ℕ → OperatorSubmissionTrack → OperatorSubmissionTrack
counted now window t =
    if leb window (now - t.window_start)
    then record t { count = 1; window_start = now }
    else record t { count = saturating_u32 (t.count + 1) }

abbrev pub counted_globally : ℕ → ℕ → GlobalSubmissionTrack → GlobalSubmissionTrack
counted_globally now window t =
    if leb window (now - t.window_start)
    then record t { total_count = 1; window_start = now }
    else record t { total_count = saturating_u32 (t.total_count + 1) }

-- What `record_submission` makes of the storage under a configuration.
abbrev pub record_under : Address → ℕ → Option SubmissionRateConfig → RateStore → RateStore
record_under operator now none s = s
record_under operator now (some c) s = if not c.enabled then s else record s {
  operators =
      set operator (counted now c.window_seconds (operator_track operator now s)) s.operators;
  global = some (counted_globally now c.window_seconds (global_track now s));
}

unfoldable pub record_submission : Address → RateCall (Unit {0})
record_submission operator = do now ← clock; writes (λ s. record_under operator now s.config s)

unfoldable pub get_submission_rate_config : RateCall SubmissionRateConfig
get_submission_rate_config = reads (λ s. unwrap_or s.config default_rate)

abbrev pub operator_count : ℕ → Option SubmissionRateConfig → Option OperatorSubmissionTrack → ℕ
operator_count now (some c) (some t) = live_count now t.window_start c.window_seconds t.count
operator_count now _ _ = 0

unfoldable pub get_operator_submission_count : Address → RateCall ℕ
get_operator_submission_count operator = do
  now ← clock
  reads (λ s. operator_count now s.config (get operator s.operators))

abbrev pub global_count : ℕ → Option SubmissionRateConfig → Option GlobalSubmissionTrack → ℕ
global_count now (some c) (some t) = live_count now t.window_start c.window_seconds t.total_count
global_count now _ _ = 0

unfoldable pub get_global_submission_count : RateCall ℕ
get_global_submission_count = do now ← clock; reads (λ s. global_count now s.config s.global)

-- Where the current window starts.
abbrev pub start_of : ℕ → ℕ → Option GlobalSubmissionTrack → ℕ
start_of now window none = now
start_of now window (some t) = if ltb (now - t.window_start) window then t.window_start else now

unfoldable pub get_rate_window : RateCall (ℕ × ℕ)
unfolding get_submission_rate_config
get_rate_window = do
  config ← get_submission_rate_config
  now ← clock
  start ← reads (λ s. start_of now config.window_seconds s.global)
  return_ok (start, saturating_u64 (start + config.window_seconds))
