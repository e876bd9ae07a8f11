-- ===== src/Config/Incomplete.antt =====
-- Maps that lack a severity, as `import_config_map` (sla_calculator/src/lib.rs) accepts them.
use noc_iq_contracts.Base.Int.{ℤ}
use noc_iq_contracts.Base.{
  ℕ, suc, ap, ltb, ◌⊎◌, str_eq, Option, List, is_some, Bool-cases, ◌≡◌, ◌≢◌, inl, inr, some, none,
  [], ◌∷◌, arith, eq_iff, Bool, true,
}
use noc_iq_contracts.Types.{Address, Symbol, SlaConfig, ConfigMap, Env, lookup}
use noc_iq_contracts.Storage.{Storage, ok, >>=-eq-ok}
use noc_iq_contracts.Config.Frame.{validate_tier-same}
use noc_iq_contracts.Config.Severity.{canonical_severities, is_canonical_severity}
use noc_iq_contracts.Config.Validate.{validate_config, compare_all, compare_with}
use noc_iq_contracts.Config.Update.{import_config_map, set_config}
use noc_iq_contracts.Config.Transitions.{set_config-ok}
use noc_iq_contracts.Config.Monotone.{Passes}
use noc_iq_contracts.Config.Accept.{canonical_cases}

-- Every severity of a list but `k` has an entry.
abbrev Covers : Symbol → ConfigMap → List Symbol → Type 0
Covers k m [] = Unit
Covers k m (j ∷ js) = ((str_eq j k ≡ true) ⊎ (is_some (lookup j m) ≡ true)) × Covers k m js

compare_with-some :
    (b : Bool) (t : ℕ) (p : ℤ) (o : Option SlaConfig) (e : Env) (s : Storage)
    → (compare_with b t p o e s).0 ≡ ok tt
    → is_some o ≡ true
unfolding compare_with
compare_with-some b t p o e s h = ground arith

compare_all-Covers :
    (k : Symbol) (index t : ℕ) (p : ℤ) (m : ConfigMap) (i : ℕ) (ks : List Symbol) (e : Env)
    (s : Storage) {u : Storage}
    → compare_all k index t p m i ks e s ≡ (ok tt, u)
    → Covers k m ks
unfolding compare_all
compare_all-Covers k index t p m i [] e s h = tt
compare_all-Covers k index t p m i (j ∷ js) e s h = elim (Bool-cases (str_eq j k)) [
  | inl q ↦ (inl q, compare_all-Covers k index t p m (suc i) js e s (rw q at h))
  | inr q ↦
      let one = compare_with (ltb i index) t p (lookup j m) in
      let others = compare_all k index t p m (suc i) js in
      let (x, w, first, rest) = >>=-eq-ok one (λ _. others) e s (rw q at h) in
      (
        inr (compare_with-some (ltb i index) t p (lookup j m) e s (ap (λ r. r.0) first)),
        compare_all-Covers k index t p m (suc i) js e w rest,
      )
]

-- Validation of `k` passes only against a map that has every other canonical severity.
Passes-Covers :
    (k : Symbol) (new : SlaConfig) (m : ConfigMap) (e : Env) (s : Storage)
    → Passes k new m e s
    → Covers k m canonical_severities
unfolding validate_config
Passes-Covers k new m e s p = ground (
  arith,
  validate_tier-same k new.threshold_minutes new.penalty_per_minute e s,
  at 0,
  at 1,
  at 2,
  at 3,
)
  where
    at :
        (i : ℕ)
        → compare_all k i new.threshold_minutes new.penalty_per_minute m 0 canonical_severities e s
          ≡ (ok tt, s)
        → Covers k m canonical_severities
    at i h = compare_all-Covers k i _ _ m 0 canonical_severities e s h

gap_closed :
    (j k : Symbol) (m : ConfigMap)
    → lookup j m ≡ none
    → k ≢ j
    → ¬ ((str_eq j k ≡ true) ⊎ (is_some (lookup j m) ≡ true))
gap_closed j k m gap ne h = ground (arith, eq_iff j k)

Covers-needs :
    (j k : Symbol) (m : ConfigMap)
    → is_canonical_severity j ≡ true
    → lookup j m ≡ none
    → k ≢ j
    → ¬ Covers k m canonical_severities
unfolding is_canonical_severity
Covers-needs j k m c gap ne v = elim (canonical_cases j) [
  | inl q ↦ gap_closed j k m gap ne (rw q v.0)
  | inr (inl q) ↦ gap_closed j k m gap ne (rw q v.1.0)
  | inr (inr (inl q)) ↦ gap_closed j k m gap ne (rw q v.1.1.0)
  | inr (inr (inr (inl q))) ↦ gap_closed j k m gap ne (rw q v.1.1.1.0)
  | inr (inr (inr (inr q))) ↦ cc
]

import_config_map-ok :
    (c : Address) (m : ConfigMap) (e : Env) (s : Storage) {t : Storage}
    → import_config_map c m e s ≡ (ok tt, t)
    → t.config ≡ some m
unfolding import_config_map
import_config_map-ok c m e s h = ground arith

-- After an accepted import of a map that lacks a canonical severity, no `set_config` of any other
-- severity succeeds, whoever calls it and whatever it submits.
import_config_map_blocks :
    (c c' : Address) (j k : Symbol) (new : SlaConfig) (m : ConfigMap) (e later : Env)
    (s t u : Storage)
    → import_config_map c m e s ≡ (ok tt, t)
    → is_canonical_severity j ≡ true
    → lookup j m ≡ none
    → k ≢ j
    → set_config c' k new later t ≢ (ok tt, u)
import_config_map_blocks c c' j k new m e later s t u h cj gap ne p =
    let stored = import_config_map-ok c m e s h in
    let (version, admin, passes, change) = set_config-ok c' k new m later t p stored in
    Covers-needs j k m cj gap ne (Passes-Covers k new m later t passes)
