-- ===== src/Dependency/Acyclic.antt =====
-- The parents of sites never form a cycle (sla_calculator/src/dependency_propagation.rs).
use noc_iq_contracts.Base.{
  ℕ, suc, ◌+◌, ◌≤◌, ◌≡◌, ◌≢◌, refl, subst, ◌⊎◌, false, some, List, [], length, str_eq, eq_iff,
  if◌then◌else◌, Bool-cases, inl, inr, arith,
}
use noc_iq_contracts.Types.{Symbol, lookup, insert}
use noc_iq_contracts.MapLaws.{lookup-insert}
use noc_iq_contracts.Effect.{ok, err}
use noc_iq_contracts.Effect.Reach.{Reach, Reach-keeps}
use noc_iq_contracts.Dependency.{
  SiteStore, SiteOrder, register_order, status_order, propagate_order, clear_order, run_order,
  cycle_detected, ancestry_contains, register_dependency, report_status, propagate_outage,
  clear_outage, parent_of, children_of,
}
use noc_iq_contracts.Dependency.Spread.{flag_all-SameButFlags, clear_all-SameButFlags}
use noc_iq_contracts.Dependency.Climb.{
  Climb, top, up, Above, self, above, IsAnswer, Climb-le-length, ancestry_loop-IsAnswer,
  Climb-apart_parent,
}

module _ {m : List (Symbol × Symbol)} (child parent : Symbol) where
  -- A climb that does not meet the child does not see its new parent.
  Climb-apart :
      {site : Symbol} {n : ℕ}
      → Climb m site n
      → ¬ Above m child site
      → Climb (insert child parent m) site n
  Climb-apart (top {site = c} e) apart = top (elim (Bool-cases (str_eq child c)) [
    | inl met ↦ absurd (apart (subst (λ x. Above m child x) ((eq_iff child c).0 met) self))
    | inr other ↦ ground (arith, lookup-insert child c parent m)
  ])
  Climb-apart (up {site = c} e d) apart = elim (Bool-cases (str_eq child c)) [
    | inl met ↦ absurd (apart (subst (λ x. Above m child x) ((eq_iff child c).0 met) self))
    | inr other ↦
        up (ground (arith, lookup-insert child c parent m)) (Climb-apart d (λ a. apart (above e a)))
  ]

  -- Every climb ends after the child has its new parent.
  Climb-insert :
      {top_steps : ℕ} {site : Symbol} {n : ℕ}
      → Climb m parent top_steps
      → ¬ Above m child parent
      → Climb m site n
      → (k : ℕ) × Climb (insert child parent m) site k
  Climb-insert {top_steps} c apart (top {site = s} e) = elim (Bool-cases (str_eq child s)) [
    | inl met ↦
        (suc top_steps, up (ground (arith, lookup-insert child s parent m)) (Climb-apart c apart))
    | inr other ↦ (0, top (ground (arith, lookup-insert child s parent m)))
  ]
  Climb-insert {top_steps} c apart (up {site = s} e d) = elim (Bool-cases (str_eq child s)) [
    | inl met ↦
        (suc top_steps, up (ground (arith, lookup-insert child s parent m)) (Climb-apart c apart))
    | inr other ↦
        let (k, rest) = Climb-insert c apart d in
        (suc k, up (ground (arith, lookup-insert child s parent m)) rest)
  ]

-- Every climb ends.
abbrev pub IsAcyclic : SiteStore → Type 0
IsAcyclic s = (site : Symbol) → (n : ℕ) × Climb s.parent_index site n

pub ancestry_contains-IsAnswer :
    (s : SiteStore) (start target : Symbol)
    → IsAcyclic s
    → IsAnswer s.parent_index target start (ancestry_contains start target s)
unfolding ancestry_contains
ancestry_contains-IsAnswer s start target h =
    let (n, c) = h start in
    ancestry_loop-IsAnswer (length s.parent_index + 2) target c (omega (arith, Climb-le-length c))

register-IsAcyclic :
    (now : ℕ) (parent child : Symbol) (s : SiteStore)
    → IsAcyclic s
    → IsAcyclic (run_order now (register_order parent child) s)
unfolding register_dependency
register-IsAcyclic now parent child s h = elim (Bool-cases (str_eq parent child)) [
  | inl same ↦ rw same h
  | inr other ↦ elim (ancestry_contains-IsAnswer s parent child h) [
    | inl (cyclic, a) ↦ rw (other, cyclic) h
    | inr (free, apart) ↦
        rw (other, free) (λ site. Climb-insert child parent (h parent).1 apart (h site).1)
  ]
]

run_order-IsAcyclic :
    (now : ℕ) (order : SiteOrder) (s : SiteStore) → IsAcyclic s → IsAcyclic (run_order now order s)
unfolding propagate_outage clear_outage report_status
run_order-IsAcyclic now (register_order parent child) s h = register-IsAcyclic now parent child s h
run_order-IsAcyclic now (status_order site status) s h = h
run_order-IsAcyclic now (propagate_order parent) s h =
    rw (flag_all-SameButFlags (children_of parent s) 0 s).0 h
run_order-IsAcyclic now (clear_order parent) s h =
    rw (clear_all-SameButFlags (children_of parent s) 0 s).0 h

reached-IsAcyclic : {s t : SiteStore} → s.parent_index ≡ [] → Reach run_order s t → IsAcyclic t
unfolding lookup
reached-IsAcyclic fresh r =
    Reach-keeps run_order IsAcyclic run_order-IsAcyclic r (λ site. (0, top (rw fresh refl)))

-- From a storage without parents, whatever sites are registered, reported, flagged and cleared, a
-- site with a parent does not stand above it, and the way up from the site ends after at most as many
-- steps as there are entries.
pub parents_acyclic :
    (s : SiteStore) {t : SiteStore} (site parent : Symbol)
    → s.parent_index ≡ []
    → Reach run_order s t
    → parent_of site t ≡ some parent
    → ¬ Above t.parent_index site parent
      × ((n : ℕ) × Climb t.parent_index site n × (n ≤ length t.parent_index))
parents_acyclic s {t} site parent fresh r e =
    let h = reached-IsAcyclic fresh r in
    let (n, c) = h site in (Climb-apart_parent e (h parent).1, (n, c, Climb-le-length c))

-- In a storage that such calls lead to, a call that makes one site the parent of another ends: it is refused as a cycle,
-- with the storage as it was, where the child stands above the parent, and otherwise it succeeds,
-- sets the parent of the child and leaves every other parent as it was.
pub register_dependency-decides :
    (s : SiteStore) {t : SiteStore} (parent child : Symbol) (now : ℕ)
    → s.parent_index ≡ []
    → Reach run_order s t
    → parent ≢ child
    → ((register_dependency parent child now t ≡ (err cycle_detected, t))
        × Above t.parent_index child parent)
      ⊎ (((register_dependency parent child now t).0 ≡ ok tt)
          × ¬ Above t.parent_index child parent
          × ((asked : Symbol)
              → parent_of asked (register_dependency parent child now t).1
                ≡ (if str_eq child asked then some parent else parent_of asked t)))
unfolding register_dependency
register_dependency-decides s {t} parent child now fresh r differ =
    let other : str_eq parent child ≡ false = ground (arith, eq_iff parent child) in
    elim (ancestry_contains-IsAnswer t parent child (reached-IsAcyclic fresh r)) [
      | inl (cyclic, a) ↦ inl (rw (other, cyclic), a)
      | inr (free, apart) ↦ inr (
        rw (other, free),
        apart,
        λ asked. rw (other, free) (lookup-insert child asked parent t.parent_index),
      )
    ]
