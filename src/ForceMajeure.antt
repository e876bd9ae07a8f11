-- ===== src/ForceMajeure.antt =====
-- Outages that are excused as force majeure (sla_calculator/src/force_majeure.rs). The times are
-- arguments of the source's functions.
pub mod Excuse
pub mod Tests
use noc_iq_contracts.Base.{
  ℕ, ◌-◌, ◌&&◌, ◌||◌, ◌==◌, not, Bool, true, false, Option, none, some, List, [], ◌∷◌, ◌++◌, leb,
  ltb, if◌then◌else◌, str_eq,
}
use noc_iq_contracts.Types.{Address, Symbol, lookup, insert}
use noc_iq_contracts.Effect.{
  Effect, ◌>>=◌, ◌>>◌, return_ok, reads, writes, found_or, refuse_if, kept,
}

pub data EventKind : Type 0 where
  outage degraded maintenance : EventKind

pub data ForceMajeureError : Type 0 where
  not_governance no_governance window_too_long window_too_short event_too_large : ForceMajeureError
  already_recorded not_recorded already_closed still_running reason_too_short : ForceMajeureError

pub record ForceMajeureRecord : Type 0 where
  pub outage_id : Symbol
  pub kind : EventKind
  pub started_at : ℕ
  pub excused_until : ℕ
  pub reason : Symbol
  pub approved_by : Address
  pub residual_penalty_bps : ℕ
  pub closed_at : ℕ

pub data ExcuseEvent : Type 0 where
  forced excused closed : Symbol → ℕ → ExcuseEvent

-- The storage; an absent map reads as the empty one.
pub record ExcuseStore : Type 0 where
  pub admin : Option Address
  pub records : List (Symbol × ForceMajeureRecord)
  pub events : List ExcuseEvent

abbrev pub ExcuseCall : Type 0 → Type 0
ExcuseCall A = Effect ExcuseStore ForceMajeureError A

abbrev pub max_excuse_s : ℕ
max_excuse_s = 86400

abbrev pub max_residual_bps : ℕ
max_residual_bps = 10000

unfoldable pub set_governance : Address → ExcuseCall (Unit {0})
set_governance admin = writes (λ s. record s { admin = some admin })

unfoldable pub governance : ExcuseStore → Option Address
governance s = s.admin

abbrev pub is_holder : Address → Option Address → Bool
is_holder caller none = false
is_holder caller (some admin) = admin == caller

unfoldable pub is_governance : Address → ExcuseStore → Bool
unfolding governance
is_governance caller s = is_holder caller (governance s)

-- The source's `record`.
unfoldable pub find_record : Symbol → ExcuseStore → Option ForceMajeureRecord
find_record id s = lookup id s.records

abbrev pub excused_at : ℕ → Option ForceMajeureRecord → Bool
excused_at at none = false
excused_at at (some r) = leb r.started_at at && leb at r.excused_until

unfoldable pub is_excused : Symbol → ℕ → ExcuseStore → Bool
unfolding find_record
is_excused id at s = excused_at at (find_record id s)

abbrev pub open_record : Option ForceMajeureRecord → Bool
open_record none = false
open_record (some r) = r.closed_at == 0

unfoldable pub is_open : Symbol → ExcuseStore → Bool
unfolding find_record
is_open id s = open_record (find_record id s)

unfoldable pub apply_penalty_bps : Symbol → ℕ → ℕ → ExcuseStore → ℕ
unfolding is_excused
apply_penalty_bps id base at s = if is_excused id at s then 0 else base

abbrev pub is_outage : EventKind → Bool
is_outage outage = true
is_outage degraded = false
is_outage maintenance = false

abbrev pub new_record : Address → Symbol → EventKind → ℕ → ℕ → Symbol → ℕ → ForceMajeureRecord
new_record caller id kind started until reason residual = record {
  outage_id = id;
  kind = kind;
  started_at = started;
  excused_until = until;
  reason = reason;
  approved_by = caller;
  residual_penalty_bps = residual;
  closed_at = 0;
}

abbrev pub save : Symbol → ForceMajeureRecord → ExcuseCall (Unit {0})
save id r = writes (λ s. record s { records = insert id r s.records })

abbrev pub announce : ExcuseEvent → ExcuseCall (Unit {0})
announce ev = writes (λ s. record s { events = s.events ++ (ev ∷ []) })

unfoldable pub record_force_majeure :
    Address → Symbol → EventKind → ℕ → ℕ → Symbol → ℕ → ExcuseCall ForceMajeureRecord
unfolding is_governance is_open
record_force_majeure caller id kind started until reason residual = do
  refuse_if (← reads (λ s. not (is_governance caller s))) not_governance
  refuse_if (← reads (is_open id)) already_recorded
  refuse_if (leb until started) window_too_short
  refuse_if (ltb max_excuse_s (until - started)) window_too_long
  refuse_if (ltb max_residual_bps residual) event_too_large
  refuse_if (not (is_outage kind) && ltb 0 residual && str_eq reason "") reason_too_short
  save id (new_record caller id kind started until reason residual)
  announce (forced id until)
  return_ok (new_record caller id kind started until reason residual)

unfoldable pub close_force_majeure : Address → Symbol → ℕ → ExcuseCall ℕ
unfolding is_governance find_record
close_force_majeure caller id at = do
  refuse_if (← reads (λ s. not (is_governance caller s))) not_governance
  entry ← found_or (← reads (find_record id)) not_recorded
  refuse_if (not (entry.closed_at == 0)) already_closed
  refuse_if (ltb at entry.excused_until) still_running
  let closure = if ltb at entry.excused_until then at else entry.excused_until
  save id (record entry { closed_at = at })
  announce (excused id closure)
  announce (closed id at)
  return_ok closure

-- Where the excused time of a record ends.
abbrev pub end_of : ForceMajeureRecord → ℕ
end_of r =
    if not (r.closed_at == 0) && ltb r.closed_at r.excused_until
    then r.closed_at
    else r.excused_until

abbrev pub seconds_of : ℕ → Option ForceMajeureRecord → ℕ
seconds_of at none = 0
seconds_of at (some r) =
    if leb at r.started_at
    then 0
    else if leb at (end_of r)
    then at - r.started_at
    else end_of r - r.started_at

unfoldable pub excused_seconds : Symbol → ℕ → ExcuseStore → ℕ
unfolding find_record
excused_seconds id at s = seconds_of at (find_record id s)

pub data ExcuseOrder : Type 0 where
  record_order : Address → Symbol → EventKind → ℕ → ℕ → Symbol → ℕ → ExcuseOrder
  close_order : Address → Symbol → ℕ → ExcuseOrder

abbrev pub run_order : ℕ → ExcuseOrder → ExcuseStore → ExcuseStore
run_order now (record_order c id kind started until reason residual) s =
    kept s (record_force_majeure c id kind started until reason residual now s)
run_order now (close_order c id at) s = kept s (close_force_majeure c id at now s)
