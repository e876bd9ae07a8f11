-- ===== src/History.antt =====
-- The retained history of results: queries, pruning, and the limits that govern it
-- (sla_calculator/src/lib.rs).
pub mod Newest
pub mod Queries
mod Tests
use noc_iq_contracts.Base.{
  ℕ, ◌+◌, ◌-◌, ◌%◌, Bool, ◌||◌, Option, none, some, List, [], ◌∷◌, length, take, drop, length-take,
  length-drop, ◌≤◌, arith, select, is_some, unwrap_or, not, str_eq, ltb, leb, ◌==◌, if◌then◌else◌,
}
use noc_iq_contracts.Types.{
  Address, Symbol, SlaResult, u32_mod, retention_limit_out_of_range, invalid_mttr,
}
use noc_iq_contracts.Storage.{
  history_pruned, history_pruned_by_age, history_pruned_queue, Storage, Action, ◌>>=◌, ◌>>◌, pure,
  gets, asks, modify, reject_if, publish,
}
use noc_iq_contracts.Guards.{check_version, require_admin}
use noc_iq_contracts.Calc.Submit.{retention, stored_history, latest, max_duration}

-- The entries at the indices `from..to`.
abbrev pub slice : ℕ → ℕ → List SlaResult → List SlaResult
slice from to xs = take (to - from) (drop from xs)

pub length-slice-le : (from to : ℕ) (xs : List SlaResult) → length (slice from to xs) ≤ length xs
length-slice-le from to xs =
    omega (arith, length-take (to - from) (drop from xs), length-drop from xs)

pub record HistorySummary : Type 0 where
  pub total : ℕ
  pub met : ℕ
  pub violated : ℕ

-- One round of the counting loop.
unfoldable pub count_entry : SlaResult → HistorySummary → HistorySummary
count_entry r h = record h {
  total = h.total + 1;
  met = (if str_eq r.status "met" then h.met + 1 else h.met);
  violated =
      (if str_eq r.status "met"
        then h.violated
        else if str_eq r.status "viol"
        then h.violated + 1
        else h.violated);
}

unfoldable pub summarize : List SlaResult → HistorySummary → HistorySummary
unfolding count_entry
summarize [] h = h
summarize (r ∷ rs) h = summarize rs (count_entry r h)

unfoldable pub get_history_summary : Action HistorySummary
unfolding check_version summarize
get_history_summary = do
  check_version
  history ← gets stored_history
  pure (summarize history (record { total = 0; met = 0; violated = 0 }))

unfoldable pub get_history : Action (List SlaResult)
unfolding check_version
get_history = do check_version; gets stored_history

unfoldable pub prune_history : Address → ℕ → Action (Unit {0})
unfolding check_version require_admin
prune_history caller keep_latest = do
  check_version
  require_admin caller
  history ← gets stored_history
  let len = length history
  if ltb keep_latest len
      then (modify (λ s. record s { history = some (slice (len - keep_latest) len history) })
          >> publish (history_pruned caller (len - keep_latest) keep_latest))
      else pure tt

abbrev pub is_recent : ℕ → SlaResult → Bool
is_recent cutoff r = leb cutoff r.recorded_at

unfoldable pub prune_history_by_age : Address → ℕ → Action (Unit {0})
unfolding check_version require_admin
prune_history_by_age caller min_age_seconds = do
  check_version
  require_admin caller
  now ← asks (λ e. e.timestamp)
  history ← gets stored_history
  let kept = select (is_recent (now - min_age_seconds)) history
  let removed = length (select (λ r. not (is_recent (now - min_age_seconds) r)) history)
  if ltb 0 removed
      then (modify (λ s. record s { history = some kept })
          >> publish (history_pruned_by_age caller removed (length kept)))
      else pure tt

-- `offset + limit` on u32 wraps.
unfoldable pub page_of : ℕ → ℕ → List SlaResult → List SlaResult
page_of offset limit history =
    let len = length history in
    let end = (offset + limit) % u32_mod in
    if leb len offset || limit == 0
    then []
    else slice offset (if ltb end len then end else len) history

unfoldable pub get_history_page : ℕ → ℕ → Action (List SlaResult)
unfolding check_version page_of
get_history_page offset limit = do
  check_version
  history ← gets stored_history
  pure (page_of offset limit history)

unfoldable pub get_history_by_outage : Symbol → Action (List SlaResult)
unfolding check_version
get_history_by_outage outage_id = do
  check_version
  history ← gets stored_history
  pure (select (λ r. str_eq r.outage_id outage_id) history)

unfoldable pub get_latest_by_outage : Symbol → Action (Option SlaResult)
unfolding check_version latest
get_latest_by_outage outage_id = do
  check_version
  history ← gets stored_history
  pure (latest outage_id history none)

unfoldable pub set_retention_limit : Address → ℕ → Action (Unit {0})
unfolding check_version require_admin
set_retention_limit caller limit = do
  check_version
  require_admin caller
  reject_if (ltb limit 50 || ltb 5000 limit) retention_limit_out_of_range
  modify (λ s. record s { retention_limit = some limit })

unfoldable pub get_retention_limit : Action ℕ
unfolding check_version
get_retention_limit = do check_version; gets retention

unfoldable pub set_max_outage_duration : Address → ℕ → Action (Unit {0})
unfolding check_version require_admin
set_max_outage_duration caller limit_minutes = do
  check_version
  require_admin caller
  reject_if (limit_minutes == 0) invalid_mttr
  modify (λ s. record s { max_outage_duration = some limit_minutes })

unfoldable pub get_max_outage_duration : Action ℕ
unfolding check_version max_duration
get_max_outage_duration = do check_version; gets max_duration

unfoldable pub prune_history_queue : Address → Action ℕ
unfolding check_version require_admin
prune_history_queue caller = do
  check_version
  require_admin caller
  limit ← gets retention
  history ← gets stored_history
  let len = length history
  if leb len limit
      then pure 0
      else (modify (λ s. record s { history = some (slice (len - limit) len history) })
          >> (publish (history_pruned_queue caller (len - limit) limit) >> pure (len - limit)))

pub record InitializationStatus : Type 0 where
  pub is_initialized : Bool
  pub initialized_at : ℕ

unfoldable pub get_initialization_status : Storage → InitializationStatus
get_initialization_status s = record {
  is_initialized = is_some s.admin;
  initialized_at = unwrap_or s.init_time 0;
}
