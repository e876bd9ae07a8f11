-- ===== src/Breach/Strikes.antt =====
-- How many strikes breaches leave, and what a stored record says
-- (sla_calculator/src/breach_escalation.rs).
use noc_iq_contracts.Base.{
  ℕ, ◌+◌, ◌-◌, ◌*◌, ◌==◌, ◌&&◌, ◌≤◌, ◌≡◌, refl, none, some, List, [], ◌∷◌, arith, leb, ltb,
  if◌then◌else◌, Option-cases, Bool-cases, inl, inr, subst,
}
use noc_iq_contracts.Types.{Address}
use noc_iq_contracts.AddressMap.{get, set, remove, get-set, get-remove}
use noc_iq_contracts.Effect.Reach.{Reach, Reach-keeps}
use noc_iq_contracts.Breach.{
  BreachRecord, BreachStore, BreachOrder, breach_order, clear_order, level_order, run_order,
  breach_record, breach_count, max_escalation_level, max_strikes, max_penalty_bps, updated_record,
  record_breach, clear_strikes, set_max_escalation_level, escalation_factor_bps,
  effective_penalty_bps, next_strikes,
}

-- A record has from 1 to 10 strikes, the factor of 10000 and 2000 more for each strike after the
-- first, and a penalty of at most 20000 basis points.
abbrev IsEscalated : BreachRecord → Type 0
IsEscalated r =
    (1 ≤ r.breaches)
    × (r.breaches ≤ max_strikes)
    × (r.factor_bps ≡ 10000 + (r.breaches - 1) * 2000)
    × (r.escalated_penalty_bps ≤ max_penalty_bps)

escalation_factor_bps-eq :
    (n : ℕ) → 1 ≤ n → n ≤ max_strikes → escalation_factor_bps n ≡ 10000 + (n - 1) * 2000
unfolding escalation_factor_bps
escalation_factor_bps-eq n low high = ground arith

effective_penalty_bps-le : (base mult : ℕ) → effective_penalty_bps base mult ≤ max_penalty_bps
unfolding effective_penalty_bps
effective_penalty_bps-le base mult = ground arith

-- A breach that is counted: its penalty is above 0 and at most 20000 basis points.
abbrev pub counts : Address → Address → ℕ → ℕ
counts asked provider base =
    if (provider == asked) && ltb 0 base && leb base max_penalty_bps then 1 else 0

-- How many of the breaches are counted for the provider.
unfoldable pub accepted : Address → List (Address × (ℕ × ℕ)) → ℕ
accepted asked [] = 0
accepted asked ((provider, (base, at)) ∷ breaches) =
    counts asked provider base + accepted asked breaches

-- Breaches that are recorded one after another.
unfoldable pub record_all : List (Address × (ℕ × ℕ)) → BreachStore → BreachStore
record_all [] s = s
record_all ((provider, (base, at)) ∷ breaches) s =
    record_all breaches (run_order 0 (breach_order provider base at) s)

abbrev at_most : ℕ → ℕ → ℕ
at_most cap n = if ltb cap n then cap else n

-- One accepted breach moves the strikes of its provider and of no other.
breach_order-strikes :
    (now : ℕ) (asked provider : Address) (base at : ℕ) (s : BreachStore)
    → breach_count asked s ≤ max_escalation_level s
    → 1 ≤ max_escalation_level s
    → breach_count asked (run_order now (breach_order provider base at) s)
      ≡ at_most (max_escalation_level s) (breach_count asked s + counts asked provider base)
unfolding record_breach
breach_order-strikes now asked provider base at s below cap =
    let law = get-set provider asked (updated_record provider base at s) s.breach_map in
    elim (Option-cases (get provider s.breach_map)) [
      | inl e ↦ ground (arith, law)
      | inr (r, e) ↦ ground (arith, law)
    ]

order-level :
    (provider : Address) (base at : ℕ) (s : BreachStore) (cap : ℕ)
    → max_escalation_level s ≡ cap
    → max_escalation_level (run_order 0 (breach_order provider base at) s) ≡ cap
unfolding record_breach
order-level provider base at s cap level = ground arith

record_all-strikes :
    (asked : Address) (breaches : List (Address × (ℕ × ℕ))) (s : BreachStore) (cap : ℕ)
    → max_escalation_level s ≡ cap
    → 1 ≤ cap
    → breach_count asked s ≤ cap
    → breach_count asked (record_all breaches s)
      ≡ at_most cap (breach_count asked s + accepted asked breaches)
unfolding record_all accepted
record_all-strikes asked [] s cap level low below = ground arith
record_all-strikes asked ((provider, (base, at)) ∷ breaches) s cap level low below =
    let s' = run_order 0 (breach_order provider base at) s in
    let first =
      breach_order-strikes 0 asked provider base at s (omega (arith, level))
        (omega (arith, level)) in
    let level' : max_escalation_level s' ≡ cap = order-level provider base at s cap level in
    let rest = record_all-strikes asked breaches s' cap level' low (ground (arith, first)) in
    ground (arith, first, rest)

-- The level is from 1 to 10, and every stored record is escalated as its strikes say.
abbrev IsSound : BreachStore → Type 0
IsSound s =
    (1 ≤ max_escalation_level s)
    × (max_escalation_level s ≤ max_strikes)
    × ((asked : Address) (r : BreachRecord) → breach_record asked s ≡ some r → IsEscalated r)

updated_record-IsEscalated :
    (provider : Address) (base at : ℕ) (s : BreachStore)
    → IsSound s
    → IsEscalated (updated_record provider base at s)
updated_record-IsEscalated provider base at s h =
    let n = next_strikes (max_escalation_level s) (breach_record provider s) in
    let exact = escalation_factor_bps-eq n in
    let bounded = effective_penalty_bps-le base (escalation_factor_bps n) in
    elim (Option-cases (breach_record provider s)) [
      | inl e ↦ ground (arith, e, exact, bounded)
      | inr (r, e) ↦ ground (arith, e, h.2 provider r e, exact, bounded)
    ]

set-IsEscalated :
    (provider : Address) (new : BreachRecord) (m : List (Address × BreachRecord))
    → ((asked : Address) (r : BreachRecord) → get asked m ≡ some r → IsEscalated r)
    → IsEscalated new
    → (asked : Address) (r : BreachRecord) → get asked (set provider new m) ≡ some r
    → IsEscalated r
set-IsEscalated provider new m h fresh asked r e = elim (Bool-cases (provider == asked)) [
  | inl same ↦
      (let eq : new ≡ r = ground (arith, get-set provider asked new m) in
        subst IsEscalated eq fresh)
  | inr other ↦ h asked r (ground (arith, get-set provider asked new m))
]

remove-IsEscalated :
    (provider : Address) (m : List (Address × BreachRecord))
    → ((asked : Address) (r : BreachRecord) → get asked m ≡ some r → IsEscalated r)
    → (asked : Address) (r : BreachRecord) → get asked (remove provider m) ≡ some r
    → IsEscalated r
remove-IsEscalated provider m h asked r e = h asked r (ground (arith, get-remove provider asked m))

run_order-IsSound :
    (now : ℕ) (order : BreachOrder) (s : BreachStore) → IsSound s → IsSound (run_order now order s)
unfolding record_breach clear_strikes set_max_escalation_level
run_order-IsSound now (breach_order provider base at) s h = elim (Bool-cases (base == 0)) [
  | inl e ↦ rw e h
  | inr e ↦ elim (Bool-cases (ltb max_penalty_bps base)) [
    | inl f ↦ rw (e, f) h
    | inr f ↦
        rw (e, f)
          (
            h.0,
            h.1,
            set-IsEscalated provider (updated_record provider base at s) s.breach_map h.2
                (updated_record-IsEscalated provider base at s h),
          )
  ]
]
run_order-IsSound now (clear_order provider) s h =
    (h.0, h.1, remove-IsEscalated provider s.breach_map h.2)
run_order-IsSound now (level_order level) s h = (ground arith, ground arith, h.2)

-- Whatever breaches, clearings and changes of the highest level follow one another on a storage
-- without records and level, a stored record has from 1 to 10 strikes, the factor of 10000 and 2000
-- more for each strike after the first, and a penalty of at most 20000 basis points.
breach_record-IsEscalated :
    (asked : Address) (r : BreachRecord) {s t : BreachStore}
    → s.breach_map ≡ []
    → s.max_level ≡ none
    → Reach run_order s t
    → breach_record asked t ≡ some r
    → IsEscalated r
unfolding get
breach_record-IsEscalated asked r {s} fresh unset path e =
    let start : IsSound s =
      (ground (arith, unset), ground (arith, unset), λ a r e. ground (arith, fresh, e)) in
    (Reach-keeps run_order IsSound run_order-IsSound path start).2 asked r e

-- From any storage whose highest level is at least 1 and not below the strikes of the asked
-- provider, any breaches recorded one after another add one strike each for those of this provider
-- whose penalty is above 0 and at most 20000 basis points, up to the level; a breach of another
-- provider or with another penalty adds none.
pub strikes_saturate :
    (asked : Address) (breaches : List (Address × (ℕ × ℕ))) (s : BreachStore)
    → 1 ≤ max_escalation_level s
    → breach_count asked s ≤ max_escalation_level s
    → breach_count asked (record_all breaches s) ≡ (
        let total = breach_count asked s + accepted asked breaches in
        if ltb (max_escalation_level s) total then max_escalation_level s else total)
strikes_saturate asked breaches s low below =
    record_all-strikes asked breaches s (max_escalation_level s) refl low below
