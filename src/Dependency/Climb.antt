-- ===== src/Dependency/Climb.antt =====
-- Climbs from a site to one without a parent, and the loop that follows them
-- (sla_calculator/src/dependency_propagation.rs).
use noc_iq_contracts.Base.{
  ℕ, zero, suc, ◌+◌, ◌≤◌, ◌<◌, ◌≡◌, refl, ap, subst, ◌⊎◌, Bool, true, false, Option, none, some,
  List, length, str_eq, eq_iff, Bool-cases, inl, inr, arith,
}
use noc_iq_contracts.Types.{Symbol, lookup}
use noc_iq_contracts.MapLaws.{erase, lookup-erase, length-erase}
use noc_iq_contracts.Dependency.{ancestry_loop}

-- From `site` it takes `n` steps to a site without a parent.
pub data Climb (m : List (Symbol × Symbol)) : Symbol → ℕ → Type 0 where
  top : {site : Symbol} → lookup site m ≡ none → Climb m site 0
  up :
      {site parent : Symbol} {n : ℕ}
      → lookup site m ≡ some parent
      → Climb m parent n
      → Climb m site (suc n)

-- `target` is `site` or stands above it.
pub data Above (m : List (Symbol × Symbol)) (target : Symbol) : Symbol → Type 0 where
  self : Above m target target
  above :
      {site parent : Symbol}
      → lookup site m ≡ some parent
      → Above m target parent
      → Above m target site

module _ {m : List (Symbol × Symbol)} where
  Climb-unique : {site : Symbol} {k n : ℕ} → Climb m site k → Climb m site n → k ≡ n
  Climb-unique (top e) (top f) = refl
  Climb-unique (top e) (up f c) = absurd (ground (arith, e, f))
  Climb-unique (up e c) (top f) = absurd (ground (arith, e, f))
  Climb-unique (up {parent = p} {n = k} e c) (up {parent = q} f d) =
      let same : p ≡ q = ground (arith, e, f) in
      ap suc (Climb-unique (subst (λ x. Climb m x k) same c) d)

  -- A site on its own climb would have a shorter one.
  Climb-erase :
      {site other : Symbol} {k n : ℕ}
      → Climb m site n
      → Climb m other k
      → k < n
      → Climb (erase site m) other k
  Climb-erase {site} c (top {site = other} e) shorter =
      top (ground (arith, lookup-erase site other m))
  Climb-erase {site} {n = n} c (up {site = other} {n = k} e d) shorter =
      elim (Bool-cases (str_eq site other)) [
        | inl met ↦
            let same : other ≡ site = ground (arith, eq_iff site other) in
            let long = Climb-unique c (subst (λ x. Climb m x (suc k)) same (up e d)) in
            absurd (omega arith)
        | inr apart ↦ up (ground (arith, lookup-erase site other m)) (Climb-erase c d (omega arith))
      ]

climb_bound : (n : ℕ) {m : List (Symbol × Symbol)} {site : Symbol} → Climb m site n → n ≤ length m
climb_bound zero c = omega arith
climb_bound (suc n) {m} {site} (up {parent = p} e d) =
    omega (arith, climb_bound n (Climb-erase (up e d) d (omega arith)), length-erase site m p e)

-- What stands above a site climbs no longer than the site.
Above-Climb :
    {m : List (Symbol × Symbol)} {target site : Symbol} {n : ℕ}
    → Above m target site
    → Climb m site n
    → (k : ℕ) × Climb m target k × (k ≤ n)
Above-Climb {n = n} self c = (n, c, omega arith)
Above-Climb (above e a) (top f) = absurd (ground (arith, e, f))
Above-Climb {m} (above {parent = p} e a) (up {parent = q} {n = n} f c) =
    let same : q ≡ p = ground (arith, e, f) in
    let (k, d, le) = Above-Climb a (subst (λ x. Climb m x n) same c) in (k, d, omega arith)

-- No site stands above its parent.
pub Climb-apart_parent :
    {m : List (Symbol × Symbol)} {site parent : Symbol} {n : ℕ}
    → lookup site m ≡ some parent
    → Climb m parent n
    → ¬ Above m site parent
Climb-apart_parent e c a =
    let (k, d, le) = Above-Climb a c in absurd (omega (arith, Climb-unique d (up e c)))

-- No climb has more steps than the map has entries.
pub Climb-le-length :
    {m : List (Symbol × Symbol)} {site : Symbol} {n : ℕ} → Climb m site n → n ≤ length m
Climb-le-length {n = n} c = climb_bound n c

module _ {m : List (Symbol × Symbol)} {target : Symbol} where
  Above-top : {site : Symbol} → lookup site m ≡ none → Above m target site → site ≡ target
  Above-top e self = refl
  Above-top e (above f a) = absurd (ground (arith, e, f))

  Above-up :
      {site parent : Symbol}
      → lookup site m ≡ some parent
      → Above m target site
      → (site ≡ target) ⊎ Above m target parent
  Above-up e self = inl refl
  Above-up {parent = p} e (above {parent = q} f a) =
      let same : q ≡ p = ground (arith, e, f) in inr (subst (λ x. Above m target x) same a)

  Above-eq : {site : Symbol} → str_eq site target ≡ true → Above m target site
  Above-eq {site} met =
      let same : target ≡ site = ground (arith, eq_iff site target) in
      subst (λ x. Above m target x) same self

-- Whether the target is the site or stands above it.
abbrev pub IsAnswer : List (Symbol × Symbol) → Symbol → Symbol → Option Bool → Type 0
IsAnswer m target site answer =
    ((answer ≡ some true) × Above m target site) ⊎ ((answer ≡ some false) × ¬ Above m target site)

pub ancestry_loop-IsAnswer :
    {m : List (Symbol × Symbol)} {site : Symbol} {n : ℕ} (fuel : ℕ) (target : Symbol)
    → Climb m site n
    → n + 1 < fuel
    → IsAnswer m target site (ancestry_loop fuel m target (some site))
unfolding ancestry_loop
ancestry_loop-IsAnswer zero target c enough = absurd (omega arith)
ancestry_loop-IsAnswer {site = site} (suc fuel) target (top e) enough =
    elim (Bool-cases (str_eq site target)) [
      | inl met ↦ inl (rw met, Above-eq met)
      | inr apart ↦
          inr (rw (apart, e), λ a. absurd (ground (arith, Above-top e a, eq_iff site target)))
    ]
ancestry_loop-IsAnswer {site = site} (suc fuel) target (up {parent = p} e c) enough =
    elim (Bool-cases (str_eq site target)) [
      | inl met ↦ inl (rw met, Above-eq met)
      | inr apart ↦ elim (ancestry_loop-IsAnswer fuel target c (omega arith)) [
        | inl (yes_p, a) ↦ inl (rw (apart, e) yes_p, above e a)
        | inr (no_p, na) ↦ inr (
          rw (apart, e) no_p,
          λ a. elim (Above-up e a) [
            | inl same ↦ absurd (ground (arith, same, eq_iff site target))
            | inr b ↦ na b
          ],
        )
      ]
    ]
