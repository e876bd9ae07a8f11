-- ===== src/Dependency/Tests.antt =====
-- Three sites, of which one moves to another parent (sla_calculator/src/dependency_propagation.rs),
-- and the theorems at these inputs.
use noc_iq_contracts.Base.{
  ℕ, ◌≡◌, ◌⊎◌, refl, some, [], ◌∷◌, ◌≤◌, ◌<◌, length, select, not, arith, str_eq, eq_iff,
  if◌then◌else◌,
}
use noc_iq_contracts.Types.{Symbol, lookup, insert, u32_mod}
use noc_iq_contracts.Effect.{ok, err}
use noc_iq_contracts.Effect.Reach.{here, next}
use noc_iq_contracts.Dependency.{
  SiteStore, register_order, status_order, run_order, register_dependency, ancestry_contains,
  ancestry_loop, children_of, parent_of, report_status, propagate_outage, clear_outage, site_status,
  manual_status, status_down, status_degraded, cycle_detected, self_dependency,
}
use noc_iq_contracts.Dependency.Climb.{Climb, Above}
use noc_iq_contracts.Dependency.Acyclic.{parents_acyclic, register_dependency-decides}
use noc_iq_contracts.Dependency.Spread.{among, spared, propagate_outage-clear_outage}

abbrev no_sites : SiteStore
no_sites = record {
  parent_index = [];
  child_index = [];
  manual_status_map = [];
  auto_flag_map = [];
  events = [];
}

-- "hub" is the parent of "north" and "south", and "south" is down.
abbrev two_children : SiteStore
two_children = run_order 3 (status_order "south" 2) (
    run_order 2 (register_order "hub" "south")
      (run_order 1 (register_order "hub" "north") no_sites))

-- "north" moves below "south"; it still is in the list of "hub".
abbrev moved : SiteStore
moved = run_order 4 (register_order "south" "north") two_children

moved_twice_listed :
    (parent_of "north" moved ≡ some "south")
    × (children_of "hub" moved ≡ "north" ∷ "south" ∷ [])
    × (children_of "south" moved ≡ "north" ∷ [])
unfolding register_dependency ancestry_contains ancestry_loop lookup insert report_status
moved_twice_listed = (refl, refl, refl)

refused :
    ((register_dependency "hub" "hub" 5 moved).0 ≡ err self_dependency)
    × ((register_dependency "north" "hub" 5 moved).0 ≡ err cycle_detected)
unfolding register_dependency ancestry_contains ancestry_loop lookup insert report_status
refused = (refl, refl)

north_below_south : parent_of "north" moved ≡ some "south"
unfolding register_dependency ancestry_contains ancestry_loop lookup insert report_status
north_below_south = refl

parents_acyclic_example :
    ¬ Above moved.parent_index "north" "south"
    × ((n : ℕ) × Climb moved.parent_index "north" n × (n ≤ length moved.parent_index))
parents_acyclic_example =
    parents_acyclic no_sites "north" "south" refl
      (next 4 (register_order "south" "north") (
        next 3 (status_order "south" 2)
          (next 2 (register_order "hub" "south") (next 1 (register_order "hub" "north") here))))
      north_below_south

register_dependency-decides_example :
    ((register_dependency "south" "hub" 5 moved ≡ (err cycle_detected, moved))
      × Above moved.parent_index "hub" "south")
    ⊎ (((register_dependency "south" "hub" 5 moved).0 ≡ ok tt)
        × ¬ Above moved.parent_index "hub" "south"
        × ((asked : Symbol)
            → parent_of asked (register_dependency "south" "hub" 5 moved).1
              ≡ (if str_eq "hub" asked then some "south" else parent_of asked moved)))
register_dependency-decides_example =
    register_dependency-decides no_sites "south" "hub" 5 refl
      (next 4 (register_order "south" "north") (
        next 3 (status_order "south" 2)
          (next 2 (register_order "hub" "south") (next 1 (register_order "hub" "north") here))))
      (ground (arith, eq_iff "south" "hub"))

two_children-few : length (children_of "hub" two_children) < u32_mod
unfolding register_dependency ancestry_contains ancestry_loop lookup insert report_status
two_children-few = omega arith

propagate_outage-clear_outage_example :
    let children = children_of "hub" two_children in
    let during = propagate_outage "hub" two_children in
    let after = clear_outage "hub" during.1 in
    (during.0 ≡ length (select (λ c. not (spared two_children c)) children))
    × (site_status "north" during.1 ≡ (
        if among "north" children
        then (if spared two_children "north" then status_down else status_degraded)
        else site_status "north" two_children))
    × (site_status "north" after.1 ≡ (
        if among "north" children
        then manual_status "north" two_children
        else site_status "north" two_children))
propagate_outage-clear_outage_example =
    propagate_outage-clear_outage "hub" "north" two_children two_children-few
