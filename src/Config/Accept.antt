-- ===== src/Config/Accept.antt =====
-- `validate_config` (sla_calculator/src/lib.rs) beside the soundness of the map with the new entry.
use noc_iq_contracts.Base.{◌≡◌, ◌↔◌, ◌⊎◌, inl, inr, none, true, arith, eq_iff}
use noc_iq_contracts.Types.{Symbol, SlaConfig, ConfigMap, insert, Env}
use noc_iq_contracts.Storage.{Storage}
use noc_iq_contracts.Config.Severity.{canonical_severity_index, is_canonical_severity}
use noc_iq_contracts.Config.Validate.{validate_config, validate_tier, compare_all}
use noc_iq_contracts.MapLaws.{lookup-insert}
use noc_iq_contracts.Config.Soundness.{IsSound}
use noc_iq_contracts.Config.Monotone

-- The four severities, for a proof about each.
pub canonical_cases :
    (k : Symbol)
    → (k ≡ "critical")
      ⊎ (k ≡ "high")
      ⊎ (k ≡ "medium")
      ⊎ (k ≡ "low")
      ⊎ (canonical_severity_index k ≡ none)
unfolding canonical_severity_index
canonical_cases k =
    ground (arith, eq_iff k "critical", eq_iff k "high", eq_iff k "medium", eq_iff k "low")

pub not_canonical :
    (k : Symbol) (new : SlaConfig) (m : ConfigMap) (e : Env) (s : Storage)
    → canonical_severity_index k ≡ none
    → ¬ Monotone.Passes k new m e s
unfolding validate_config validate_tier compare_all
not_canonical k new m e s c p = ground arith

-- What passes keeps the map sound.
pub insert-IsSound :
    (k : Symbol) (new : SlaConfig) (m : ConfigMap) (e : Env) (s : Storage)
    → IsSound m
    → Monotone.Passes k new m e s
    → IsSound (insert k new m)
insert-IsSound k new m e s v p = elim (canonical_cases k) [
  | inl c ↦ rw c (
      let (h, a) = Monotone.critical-Passes new m e s v (rw c at p) in
      Monotone.insert-critical-IsSound new m e s v h a)
  | inr (inl c) ↦ rw c (
      let (h, a, b) = Monotone.high-Passes new m e s v (rw c at p) in
      Monotone.insert-high-IsSound new m e s v h a b)
  | inr (inr (inl c)) ↦ rw c (
      let (h, a, b) = Monotone.medium-Passes new m e s v (rw c at p) in
      Monotone.insert-medium-IsSound new m e s v h a b)
  | inr (inr (inr (inl c))) ↦ rw c (
      let (h, a) = Monotone.low-Passes new m e s v (rw c at p) in
      Monotone.insert-low-IsSound new m e s v h a)
  | inr (inr (inr (inr c))) ↦ absurd (not_canonical k new m e s c p)
]

module _ (new : SlaConfig) (m : ConfigMap) (e : Env) (s : Storage) (v : IsSound m) where
  accepts_critical : IsSound (insert "critical" new m) → Monotone.Passes "critical" new m e s
  accepts_critical w = ground (
    arith,
    lookup-insert "critical" "critical" new m,
    w.has_critical,
    lookup-insert "critical" "high" new m,
    w.has_high,
    v.has_high,
    Monotone.critical_accepted new m e s v,
  )

  accepts_high : IsSound (insert "high" new m) → Monotone.Passes "high" new m e s
  accepts_high w = ground (
    arith,
    lookup-insert "high" "high" new m,
    w.has_high,
    lookup-insert "high" "critical" new m,
    w.has_critical,
    lookup-insert "high" "medium" new m,
    w.has_medium,
    v.has_critical,
    v.has_medium,
    Monotone.high_accepted new m e s v,
  )

  accepts_medium : IsSound (insert "medium" new m) → Monotone.Passes "medium" new m e s
  accepts_medium w = ground (
    arith,
    lookup-insert "medium" "medium" new m,
    w.has_medium,
    lookup-insert "medium" "high" new m,
    w.has_high,
    lookup-insert "medium" "low" new m,
    w.has_low,
    v.has_high,
    v.has_low,
    Monotone.medium_accepted new m e s v,
  )

  accepts_low : IsSound (insert "low" new m) → Monotone.Passes "low" new m e s
  accepts_low w = ground (
    arith,
    lookup-insert "low" "low" new m,
    w.has_low,
    lookup-insert "low" "medium" new m,
    w.has_medium,
    v.has_medium,
    Monotone.low_accepted new m e s v,
  )

-- For a canonical severity and a sound map, `validate_config` returns `Ok`, with the storage as it
-- was, exactly when the map with the new entry is sound.
pub validate_config-iff-IsSound :
    (k : Symbol) (new : SlaConfig) (m : ConfigMap) (e : Env) (s : Storage)
    → IsSound m
    → is_canonical_severity k ≡ true
    → Monotone.Passes k new m e s ↔ IsSound (insert k new m)
unfolding is_canonical_severity
validate_config-iff-IsSound k new m e s v c = (insert-IsSound k new m e s v, accepted)
  where
    accepted : IsSound (insert k new m) → Monotone.Passes k new m e s
    accepted w = elim (canonical_cases k) [
      | inl q ↦ rw q (accepts_critical new m e s v (rw q at w))
      | inr (inl q) ↦ rw q (accepts_high new m e s v (rw q at w))
      | inr (inr (inl q)) ↦ rw q (accepts_medium new m e s v (rw q at w))
      | inr (inr (inr (inl q))) ↦ rw q (accepts_low new m e s v (rw q at w))
      | inr (inr (inr (inr q))) ↦ cc
    ]
