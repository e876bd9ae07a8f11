-- ===== src/Whitelist/Count.antt =====
-- The number of listed contracts (sla_calculator/src/whitelist.rs).
use noc_iq_contracts.Base.{ℕ, ◌<◌, ◌≡◌, sym, true, false, none, length, arith}
use noc_iq_contracts.Types.{u32_mod}
use noc_iq_contracts.AddressMap.{get, set}
use noc_iq_contracts.AddressMap.Flags.{
  count_listed, count_listed-le-length, count_listed-empty, count_listed-set, length-set,
}
use noc_iq_contracts.Effect.{ok}
use noc_iq_contracts.Effect.Reach.{Reach, Reach-keeps}
use noc_iq_contracts.Whitelist.{
  WhitelistState, AccessStore, current, add_to_whitelist, remove_from_whitelist, clear_whitelist,
  enable_whitelist, disable_whitelist, get_whitelist_status,
}
use noc_iq_contracts.Whitelist.Spec.{
  WhitelistCall, add_call, remove_call, clear_call, enable_call, disable_call, run_call,
}

-- With fewer than 2 ^ 32 entries the stored count is that of the listed contracts.
abbrev IsCounted : WhitelistState → Type 0
IsCounted w = length w.contracts < u32_mod → w.count ≡ count_listed w.contracts

run_call-IsCounted :
    (now : ℕ) (call : WhitelistCall) (s : AccessStore)
    → IsCounted (current s)
    → IsCounted (current (run_call now call s))
unfolding add_to_whitelist remove_from_whitelist clear_whitelist enable_whitelist disable_whitelist
    get
run_call-IsCounted now (add_call c a) s h =
    let m = (current s).contracts in
    ground
      (arith, count_listed-set a true m, length-set a true m, count_listed-le-length (set a true m))
run_call-IsCounted now (remove_call c a) s h =
    let m = (current s).contracts in
    ground (arith, count_listed-set a false m, length-set a false m)
run_call-IsCounted now (clear_call c) s h = ground (arith, h, count_listed-empty)
run_call-IsCounted now (enable_call c) s h = ground arith
run_call-IsCounted now (disable_call c) s h = ground arith

-- From a storage without a whitelist, whatever calls follow, the count of `get_whitelist_status`
-- is the number of listed contracts, as long as the map has fewer than 2 ^ 32 entries.
get_whitelist_status-counts :
    (start : AccessStore) {t : AccessStore} (now : ℕ)
    → start.whitelist ≡ none
    → Reach run_call start t
    → length (current t).contracts < u32_mod
    → (get_whitelist_status now t).0
      ≡ ok ((current t).enforcement_enabled, count_listed (current t).contracts)
unfolding get_whitelist_status
get_whitelist_status-counts start {t} now none_yet r few =
    let h =
      Reach-keeps run_call (λ s. IsCounted (current s)) run_call-IsCounted r
        (rw none_yet (λ few. sym count_listed-empty)) in
    ground (arith, h few)
