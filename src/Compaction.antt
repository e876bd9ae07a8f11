-- ===== src/Compaction.antt =====
-- Outage records that are cut down to summaries (sla_calculator/src/event_log_compaction.rs).
pub mod Evict
pub mod Tests
use noc_iq_contracts.Base.{
  ℕ, ◌+◌, ◌-◌, ◌%◌, Bool, true, false, Option, none, some, List, [], ◌∷◌, ◌++◌, length, is_some,
  if◌then◌else◌,
}
use noc_iq_contracts.Types.{Symbol, lookup, insert, saturating_u32, u32_mod}
use noc_iq_contracts.MapLaws.{erase}
use noc_iq_contracts.Payload.{Text}

abbrev pub summary_bytes : ℕ
summary_bytes = 32

pub record DetailedOutageRecord : Type 0 where
  pub outage_id : Symbol
  pub start_timestamp : ℕ
  pub end_timestamp : ℕ
  pub severity : ℕ
  pub description : Text
  pub metadata : Text

pub record OutageSummary : Type 0 where
  pub outage_id : Symbol
  pub start_timestamp : ℕ
  pub end_timestamp : ℕ
  pub severity : ℕ

unfoldable pub compact : DetailedOutageRecord → OutageSummary
compact r = record {
  outage_id = r.outage_id;
  start_timestamp = r.start_timestamp;
  end_timestamp = r.end_timestamp;
  severity = r.severity;
}

-- The lengths are u32, and their sum wraps before the sum with the fixed part saturates.
unfoldable pub verbose_bytes : DetailedOutageRecord → ℕ
verbose_bytes r = saturating_u32 (24 + (8 + length r.description + length r.metadata) % u32_mod)

unfoldable pub byte_reduction : DetailedOutageRecord → ℕ
byte_reduction r = verbose_bytes r - summary_bytes

pub data CompactionEvent : Type 0 where
  compacted : Symbol → ℕ → CompactionEvent

-- The persistent maps; absent ones read as empty.
pub record OutageLog : Type 0 where
  pub summary_map : List (Symbol × OutageSummary)
  pub detail_map : List (Symbol × DetailedOutageRecord)
  pub events : List CompactionEvent

unfoldable pub store_summary : OutageSummary → OutageLog → OutageLog
store_summary summary s = record s {
  summary_map = insert summary.outage_id summary s.summary_map;
  events = s.events ++ (compacted summary.outage_id summary_bytes ∷ []);
}

abbrev pub load_summary : Symbol → OutageLog → Option OutageSummary
load_summary outage_id s = lookup outage_id s.summary_map

unfoldable pub store_detailed : DetailedOutageRecord → OutageLog → OutageLog
store_detailed r s = record s { detail_map = insert r.outage_id r s.detail_map }

abbrev pub load_detailed : Symbol → OutageLog → Option DetailedOutageRecord
load_detailed outage_id s = lookup outage_id s.detail_map

unfoldable pub evict_details : Symbol → OutageLog → Bool × OutageLog
evict_details outage_id s =
    if is_some (lookup outage_id s.detail_map)
    then (true, record s { detail_map = erase outage_id s.detail_map })
    else (false, s)

unfoldable pub compact_outage : DetailedOutageRecord → OutageLog → OutageSummary × OutageLog
unfolding compact store_summary evict_details
compact_outage r s =
    let summary = compact r in
    let stored = store_summary summary s in (summary, (evict_details r.outage_id stored).1)
