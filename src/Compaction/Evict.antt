-- ===== src/Compaction/Evict.antt =====
-- What a compaction keeps and what it drops (sla_calculator/src/event_log_compaction.rs).
use noc_iq_contracts.Base.{
  ◌≡◌, none, some, if◌then◌else◌, str_eq, eq_iff, arith, inl, inr, Option-cases,
}
use noc_iq_contracts.Types.{Symbol, lookup}
use noc_iq_contracts.MapLaws.{lookup-insert, lookup-erase}
use noc_iq_contracts.Compaction.{
  DetailedOutageRecord, OutageLog, compact, load_summary, load_detailed, compact_outage,
}

-- After the compaction of a record the summary of its outage is the record's identifier, times and
-- severity, its details are gone, and of every other outage both are as before.
compact_outage-replaces :
    (r : DetailedOutageRecord) (asked : Symbol) (s : OutageLog)
    → let after = (compact_outage r s).1 in
      (load_summary asked after
        ≡ (if str_eq r.outage_id asked then some (compact r) else load_summary asked s))
      × (load_detailed asked after
          ≡ (if str_eq r.outage_id asked then none else load_detailed asked s))
unfolding compact_outage
compact_outage-replaces r asked s =
    let summaries = lookup-insert r.outage_id asked (compact r) s.summary_map in
    let details = lookup-erase r.outage_id asked s.detail_map in
    elim (Option-cases (lookup r.outage_id s.detail_map)) [
      | inl missing ↦ (ground (arith, summaries), ground (arith, eq_iff r.outage_id asked))
      | inr (d, stored) ↦ (ground (arith, summaries), ground (arith, details))
    ]
