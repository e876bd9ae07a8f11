-- ===== src/Dependency/Spread.antt =====
-- What an outage of a parent and its end do to the children
-- (sla_calculator/src/dependency_propagation.rs).
use noc_iq_contracts.Base.{
  ℕ, ◌+◌, ◌%◌, ◌<◌, ◌≡◌, ◌==◌, ◌&&◌, not, refl, Bool, true, false, List, [], ◌∷◌, length, any,
  select, str_eq, eq_iff, if◌then◌else◌, arith,
}
use noc_iq_contracts.Types.{Symbol, u32_mod}
use noc_iq_contracts.MapLaws.{lookup-insert}
use noc_iq_contracts.Dependency.{
  SiteStore, propagate_outage, clear_outage, flag_all, clear_all, set_auto_flag, manual_status,
  status_down, status_degraded, site_status, is_auto_degraded, children_of,
}

abbrev pub among : Symbol → List Symbol → Bool
among site sites = any (λ e. str_eq e site) sites

-- The sites that `propagate_outage` passes over.
abbrev pub spared : SiteStore → Symbol → Bool
spared s site = manual_status site s == status_down

-- The storages differ in their flags at most.
abbrev pub SameButFlags : SiteStore → SiteStore → Type 0
SameButFlags s t =
    (t.parent_index ≡ s.parent_index)
    × (t.child_index ≡ s.child_index)
    × (t.manual_status_map ≡ s.manual_status_map)

pub flag_all-SameButFlags :
    (sites : List Symbol) (n : ℕ) (s : SiteStore) → SameButFlags s (flag_all sites n s).1
unfolding flag_all
flag_all-SameButFlags [] n s = (refl, refl, refl)
flag_all-SameButFlags (c ∷ rest) n s = ground (
  arith,
  flag_all-SameButFlags rest n s,
  flag_all-SameButFlags rest ((n + 1) % u32_mod) (set_auto_flag c true s),
)

pub clear_all-SameButFlags :
    (sites : List Symbol) (n : ℕ) (s : SiteStore) → SameButFlags s (clear_all sites n s).1
unfolding clear_all
clear_all-SameButFlags [] n s = (refl, refl, refl)
clear_all-SameButFlags (c ∷ rest) n s = ground (
  arith,
  clear_all-SameButFlags rest n s,
  clear_all-SameButFlags rest ((n + 1) % u32_mod) (set_auto_flag c false s),
)

flag_all-flags :
    (site : Symbol) (sites : List Symbol) (n : ℕ) (s : SiteStore)
    → is_auto_degraded site (flag_all sites n s).1
      ≡ (if among site sites && not (spared s site) then true else is_auto_degraded site s)
unfolding flag_all
flag_all-flags site [] n s = refl
flag_all-flags site (c ∷ rest) n s = ground (
  arith,
  flag_all-flags site rest n s,
  flag_all-flags site rest ((n + 1) % u32_mod) (set_auto_flag c true s),
  lookup-insert c site true s.auto_flag_map,
  eq_iff c site,
)

flag_all-count :
    (sites : List Symbol) (n : ℕ) (s : SiteStore)
    → n + length sites < u32_mod
    → (flag_all sites n s).0 ≡ n + length (select (λ c. not (spared s c)) sites)
unfolding flag_all
flag_all-count [] n s few = omega arith
flag_all-count (c ∷ rest) n s few = ground (
  arith,
  flag_all-count rest n s,
  flag_all-count rest ((n + 1) % u32_mod) (set_auto_flag c true s),
)

clear_all-flags :
    (site : Symbol) (sites : List Symbol) (n : ℕ) (s : SiteStore)
    → is_auto_degraded site (clear_all sites n s).1
      ≡ (if among site sites then false else is_auto_degraded site s)
unfolding clear_all
clear_all-flags site [] n s = refl
clear_all-flags site (c ∷ rest) n s = ground (
  arith,
  clear_all-flags site rest n s,
  clear_all-flags site rest ((n + 1) % u32_mod) (set_auto_flag c false s),
  lookup-insert c site false s.auto_flag_map,
  eq_iff c site,
)

-- While fewer than 2 ^ 32 children are registered, `propagate_outage` returns the number of the
-- children that are not reported down; a child then is down or degraded, and every other site has
-- its status of before. `clear_outage` of the same parent afterwards gives every child its reported
-- status, and leaves every other site as it was.
pub propagate_outage-clear_outage :
    (parent site : Symbol) (s : SiteStore)
    → length (children_of parent s) < u32_mod
    → let children = children_of parent s in
      let during = propagate_outage parent s in
      let after = clear_outage parent during.1 in
      (during.0 ≡ length (select (λ c. not (spared s c)) children))
      × (site_status site during.1 ≡ (
          if among site children
          then (if spared s site then status_down else status_degraded)
          else site_status site s))
      × (site_status site after.1
          ≡ (if among site children then manual_status site s else site_status site s))
unfolding propagate_outage clear_outage site_status
propagate_outage-clear_outage parent site s few =
    let children = children_of parent s in
    let t = (flag_all children 0 s).1 in
    let same = flag_all-SameButFlags children 0 s in
    let count = flag_all-count children 0 s (omega (arith, few)) in
    let flags = flag_all-flags site children 0 s in
    let again : children_of parent t ≡ children = ground (arith, same.1) in
    let manual : manual_status site t ≡ manual_status site s = ground (arith, same.2) in
    let cleared = clear_all-SameButFlags children 0 t in
    let cleared_flags = clear_all-flags site children 0 t in
    let manual' : manual_status site (clear_all children 0 t).1 ≡ manual_status site s =
      ground (arith, cleared.2, manual) in
    (
      omega (arith, count),
      rw (manual, flags) (ground arith),
      rw (again, manual', cleared_flags, flags) (ground arith),
    )
