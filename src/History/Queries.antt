-- ===== src/History/Queries.antt =====
-- Pages, summaries and the entries of an outage (sla_calculator/src/lib.rs).
use noc_iq_contracts.Base.{
  ℕ, suc, zero, ◌+◌, ◌-◌, ◌%◌, ◌≤◌, ◌<◌, ◌≡◌, refl, Option, none, some, List, [], ◌∷◌, length, take,
  drop, select, str_eq, ltb, if◌then◌else◌, arith, length-drop,
}
use noc_iq_contracts.Types.{Symbol, SlaResult, Env, u32_mod}
use noc_iq_contracts.Storage.{Storage, ok}
use noc_iq_contracts.Calc.Submit.{stored_history, latest}
use noc_iq_contracts.History.Newest.{take_all}
use noc_iq_contracts.History.{
  page_of, get_history_page, HistorySummary, count_entry, summarize, get_history_summary,
  get_history_by_outage, get_latest_by_outage,
}

take_nil : {A : Type 0} (n : ℕ) → take {A = A} n [] ≡ []
take_nil zero = refl
take_nil (suc n) = refl

take_none : {A : Type 0} (n : ℕ) (xs : List A) → n ≡ 0 → take n xs ≡ []
take_none n xs h = rw h refl

drop_all : {A : Type 0} (n : ℕ) (xs : List A) → length xs ≤ n → drop n xs ≡ []
drop_all zero [] h = refl
drop_all zero (x ∷ xs) h = absurd (omega arith)
drop_all (suc n) [] h = refl
drop_all (suc n) (x ∷ xs) h = drop_all n xs (omega arith)

page_of-eq :
    (offset limit : ℕ) (xs : List SlaResult)
    → offset < u32_mod
    → limit < u32_mod
    → page_of offset limit xs
      ≡ (if ltb (offset + limit) u32_mod then take limit (drop offset xs) else [])
unfolding page_of
page_of-eq offset limit xs o l =
    let end = (offset + limit) % u32_mod in
    let stop = if ltb end (length xs) then end else length xs in
    ground (
      arith,
      drop_all offset xs,
      take_nil {A = SlaResult} limit,
      take_none limit (drop offset xs),
      take_none (stop - offset) (drop offset xs),
      take_all limit (drop offset xs),
      take_all (stop - offset) (drop offset xs),
      length-drop offset xs,
    )

-- For u32 arguments a page holds the entries from `offset` on, `limit` at most, unless the sum of
-- the two wraps: then it is empty.
pub get_history_page-eq :
    (offset limit : ℕ) (e : Env) (s : Storage)
    → s.version ≡ some 1
    → offset < u32_mod
    → limit < u32_mod
    → get_history_page offset limit e s ≡ (
      ok (if ltb (offset + limit) u32_mod then take limit (drop offset (stored_history s)) else []),
      s,
    )
unfolding get_history_page
get_history_page-eq offset limit e s version o l =
    ground (arith, page_of-eq offset limit (stored_history s) o l)

summarize-total :
    (h : List SlaResult) (x : HistorySummary)
    → ((summarize h x).total ≡ x.total + length h)
      × ((summarize h x).met + (summarize h x).violated + x.total
          ≤ (summarize h x).total + x.met + x.violated)
unfolding summarize
summarize-total [] x = ground arith
summarize-total (r ∷ rs) x = ground (arith, summarize-total rs (count_entry r x))

-- The last element.
abbrev pub last : List SlaResult → Option SlaResult → Option SlaResult
last [] found = found
last (r ∷ rs) found = last rs (some r)

latest-eq-last :
    (i : Symbol) (h : List SlaResult) (found : Option SlaResult)
    → latest i h found ≡ last (select (λ r. str_eq r.outage_id i) h) found
unfolding latest
latest-eq-last i [] found = refl
latest-eq-last i (r ∷ rs) found =
    ground (arith, latest-eq-last i rs found, latest-eq-last i rs (some r))

-- Under the current version `get_latest_by_outage` answers the last entry that
-- `get_history_by_outage` lists, and nothing if it lists none.
pub get_latest_by_outage-eq-last :
    (i : Symbol) (e : Env) (s : Storage)
    → s.version ≡ some 1
    → (xs : List SlaResult) × (get_history_by_outage i e s ≡ (ok xs, s))
      × (get_latest_by_outage i e s ≡ (ok (last xs none), s))
unfolding get_history_by_outage get_latest_by_outage
get_latest_by_outage-eq-last i e s version = (
  select (λ r. str_eq r.outage_id i) (stored_history s),
  ground arith,
  ground (arith, latest-eq-last i (stored_history s) none),
)

-- Under the current version the summary counts every entry of the history, and no more entries as
-- met or violated than there are.
pub get_history_summary-total :
    (e : Env) (s : Storage)
    → s.version ≡ some 1
    → (x : HistorySummary) × (get_history_summary e s ≡ (ok x, s))
      × (x.total ≡ length (stored_history s))
      × (x.met + x.violated ≤ x.total)
unfolding get_history_summary
get_history_summary-total e s version =
    let zero_summary : HistorySummary = record { total = 0; met = 0; violated = 0 } in
    let (all, some_of) = summarize-total (stored_history s) zero_summary in
    (
      summarize (stored_history s) zero_summary,
      ground arith,
      omega (arith, all),
      omega (arith, some_of),
    )
