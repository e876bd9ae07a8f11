-- ===== src/Compaction/Tests.antt =====
-- An outage that is compacted twice (sla_calculator/src/event_log_compaction.rs).
use noc_iq_contracts.Base.{◌≡◌, refl, true, false, [], ◌∷◌}
use noc_iq_contracts.Types.{lookup, insert}
use noc_iq_contracts.MapLaws.{erase}
use noc_iq_contracts.Compaction.{
  DetailedOutageRecord, OutageLog, store_detailed, compact_outage, evict_details, verbose_bytes,
  byte_reduction,
}

abbrev fibre_cut : DetailedOutageRecord
fibre_cut = record {
  outage_id = "o1";
  start_timestamp = 100;
  end_timestamp = 400;
  severity = 2;
  description = 102 ∷ 105 ∷ 98 ∷ [];
  metadata = [];
}

abbrev logged : OutageLog
logged = store_detailed fibre_cut (record { summary_map = []; detail_map = []; events = [] })

-- The summary is 3 bytes shorter, and a second eviction finds nothing.
evicted_once :
    (byte_reduction fibre_cut ≡ 3)
    × ((evict_details "o1" logged).0 ≡ true)
    × ((evict_details "o1" (compact_outage fibre_cut logged).1).0 ≡ false)
unfolding byte_reduction verbose_bytes evict_details store_detailed compact_outage lookup insert
    erase
evicted_once = (refl, refl, refl)
