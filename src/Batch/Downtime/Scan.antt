-- ===== src/Batch/Downtime/Scan.antt =====
-- `get_batch_downtime` (sla_calculator/src/batch.rs) beside a scan of the history for each site.
use noc_iq_contracts.Base.{
  ℕ, ◌+◌, ◌-◌, ◌<◌, ◌≤◌, ◌≡◌, ◌&&◌, refl, Bool, true, false, Option, none, some, List, [], ◌∷◌,
  length, map, select, unwrap_or, str_eq, ltb, if◌then◌else◌, arith, eq_iff,
}
use noc_iq_contracts.Types.{Symbol, SlaResult, Env, lookup, u64_mod}
use noc_iq_contracts.MapLaws.{lookup-insert}
use noc_iq_contracts.Storage.{Storage, ok}
use noc_iq_contracts.Calc.Submit.{stored_history}
use noc_iq_contracts.Batch.Downtime.{
  BatchDowntimeResult, Sites, add_u64, add_entry, aggregate, site_result, get_batch_downtime,
}

-- The entries of one site.
abbrev pub of_site : Symbol → List SlaResult → List SlaResult
of_site site history = select (λ r. str_eq r.outage_id site) history

unfoldable pub total_minutes : List SlaResult → ℕ
total_minutes [] = 0
total_minutes (r ∷ rs) = r.mttr_minutes + total_minutes rs

-- Whether every entry met its threshold.
unfoldable pub all_met : List SlaResult → Bool
all_met [] = true
all_met (r ∷ rs) = if str_eq r.status "met" then all_met rs else false

-- A sum on u64 that stops at the greatest value.
abbrev pub capped : ℕ → ℕ
capped n = if ltb n u64_mod then n else u64_mod - 1

-- The answer for a site, from its entries alone.
unfoldable pub scan : Symbol → List SlaResult → BatchDowntimeResult
unfolding total_minutes all_met
scan site entries = record {
  site_id = site;
  total_downtime = capped (total_minutes entries);
  compliance_status =
      (if ltb 0 (length entries)
        then (if all_met entries then "compliant" else "noncomp")
        else "unknown");
}

-- What the two maps hold for a site.
abbrev minutes : Symbol → Sites → ℕ
minutes site s = unwrap_or (lookup site s.downtime_by_site) 0

abbrev compliance : Symbol → Sites → Option Bool
compliance site s = lookup site s.compliant_by_site

-- The compliance entry after more entries of its site.
unfoldable complied : List SlaResult → Option Bool → Option Bool
complied [] o = o
complied (r ∷ rs) o = complied rs (some (unwrap_or o true && str_eq r.status "met"))

add_entry-minutes :
    (site : Symbol) (r : SlaResult) (s : Sites)
    → minutes site (add_entry r s) ≡ (
        if str_eq r.outage_id site then add_u64 (minutes site s) r.mttr_minutes else minutes site s)
unfolding add_entry
add_entry-minutes site r s = ground (
  arith,
  eq_iff r.outage_id site,
  lookup-insert r.outage_id site
      (add_u64 (unwrap_or (lookup r.outage_id s.downtime_by_site) 0) r.mttr_minutes)
      s.downtime_by_site,
)

add_entry-compliance :
    (site : Symbol) (r : SlaResult) (s : Sites)
    → compliance site (add_entry r s) ≡ (
        if str_eq r.outage_id site
        then some (unwrap_or (compliance site s) true && str_eq r.status "met")
        else compliance site s)
unfolding add_entry
add_entry-compliance site r s = ground (
  arith,
  eq_iff r.outage_id site,
  lookup-insert r.outage_id site
      (unwrap_or (lookup r.outage_id s.compliant_by_site) true && str_eq r.status "met")
      s.compliant_by_site,
)

aggregate-minutes :
    (site : Symbol) (history : List SlaResult) (s : Sites)
    → minutes site s < u64_mod
    → minutes site (aggregate history s)
      ≡ capped (minutes site s + total_minutes (of_site site history))
unfolding aggregate total_minutes
aggregate-minutes site [] s h = ground arith
aggregate-minutes site (r ∷ rs) s h =
    ground (arith, aggregate-minutes site rs (add_entry r s), add_entry-minutes site r s)

aggregate-compliance :
    (site : Symbol) (history : List SlaResult) (s : Sites)
    → compliance site (aggregate history s) ≡ complied (of_site site history) (compliance site s)
unfolding aggregate complied
aggregate-compliance site [] s = refl
aggregate-compliance site (r ∷ rs) s =
    ground (arith, aggregate-compliance site rs (add_entry r s), add_entry-compliance site r s)

complied-some : (rs : List SlaResult) (b : Bool) → complied rs (some b) ≡ some (b && all_met rs)
unfolding complied all_met
complied-some [] true = refl
complied-some [] false = refl
complied-some (r ∷ rs) b = ground (arith, complied-some rs (b && str_eq r.status "met"))

complied-none :
    (rs : List SlaResult)
    → complied rs none ≡ (if ltb 0 (length rs) then some (all_met rs) else none)
unfolding complied all_met
complied-none [] = refl
complied-none (r ∷ rs) = ground (arith, complied-some rs (str_eq r.status "met"))

-- The two maps together give the scan's answer.
site_result-eq-scan :
    (site : Symbol) (history : List SlaResult)
    → site_result
        (aggregate history (record { downtime_by_site = []; compliant_by_site = [] }))
        site
      ≡ scan site (of_site site history)
unfolding site_result scan lookup
site_result-eq-scan site history =
    let empty : Sites = record { downtime_by_site = []; compliant_by_site = [] } in
    ground (
      arith,
      aggregate-minutes site history empty,
      aggregate-compliance site history empty,
      complied-none (of_site site history),
    )

map_cong :
    {A B : Type 0} (f g : A → B) → ((a : A) → f a ≡ g a) → (xs : List A) → map f xs ≡ map g xs
map_cong f g h [] = refl
map_cong f g h (x ∷ xs) = cc (h x, map_cong f g h xs)

-- Under the current version, for at most 50 sites, the answer is for each site in order the one of
-- a scan of the history: the sum of its minutes, up to the greatest u64, and whether it has an
-- entry and every entry met its threshold.
pub get_batch_downtime-eq-scan :
    (site_ids : List Symbol) (e : Env) (s : Storage)
    → s.version ≡ some 1
    → length site_ids ≤ 50
    → get_batch_downtime site_ids e s
      ≡ (ok (map (λ site. scan site (of_site site (stored_history s))) site_ids), s)
unfolding get_batch_downtime
get_batch_downtime-eq-scan site_ids e s version few = ground (
  arith,
  map_cong
      (site_result
        (aggregate (stored_history s) (record { downtime_by_site = []; compliant_by_site = [] })))
      (λ site. scan site (of_site site (stored_history s)))
      (λ site. site_result-eq-scan site (stored_history s)) site_ids,
)
