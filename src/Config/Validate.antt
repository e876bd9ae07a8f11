-- ===== src/Config/Validate.antt =====
-- `validate_config` (sla_calculator/src/lib.rs): bounds, the limits of each severity, and the
-- order across severities.
use noc_iq_contracts.Base.{
  ℕ, suc, Bool, true, false, ◌||◌, Option, some, none, not, List, [], ◌∷◌, str_eq, ltb, leb, ◌==◌,
  if◌then◌else◌,
}
use noc_iq_contracts.Base.Int.{ℤ, pos, ltb_ℤ, leb_ℤ}
use noc_iq_contracts.Types.{
  Symbol, SlaConfig, ConfigMap, lookup, invalid_severity, invalid_threshold, invalid_penalty,
  threshold_out_of_bounds, penalty_out_of_bounds, reward_out_of_bounds,
}
use noc_iq_contracts.Storage.{Action, ◌>>=◌, ◌>>◌, pure, fail, abort, reject_if}
use noc_iq_contracts.Config.Severity.{
  canonical_severities, canonical_severity_index, is_canonical_severity,
}

-- "Severity-specific validation".
unfoldable pub validate_tier : Symbol → ℕ → ℤ → Action (Unit {0})
validate_tier severity threshold penalty =
    if str_eq severity "critical"
    then (do
      reject_if (ltb 60 threshold) invalid_threshold
      reject_if (ltb_ℤ penalty (pos 50)) invalid_penalty)
    else if str_eq severity "high"
    then (do
      reject_if (ltb 120 threshold) invalid_threshold
      reject_if (ltb_ℤ penalty (pos 25)) invalid_penalty)
    else if str_eq severity "medium"
    then (do
      reject_if (ltb 240 threshold) invalid_threshold
      reject_if (ltb_ℤ penalty (pos 10)) invalid_penalty)
    else if str_eq severity "low"
    then reject_if (ltb_ℤ (pos 100) penalty) invalid_penalty
    else fail invalid_severity

-- The body of the loop against another severity's configuration; `.unwrap()` panics if it has none.
unfoldable pub compare_with : Bool → ℕ → ℤ → Option SlaConfig → Action (Unit {0})
compare_with higher threshold penalty none = abort
compare_with true threshold penalty (some other) = do
  reject_if (leb threshold other.threshold_minutes) invalid_threshold
  reject_if (leb_ℤ other.penalty_per_minute penalty) invalid_penalty
compare_with false threshold penalty (some other) = do
  reject_if (leb other.threshold_minutes threshold) invalid_threshold
  reject_if (leb_ℤ penalty other.penalty_per_minute) invalid_penalty

-- The loop over the other severities, from index `i`.
unfoldable pub compare_all : Symbol → ℕ → ℕ → ℤ → ConfigMap → ℕ → List Symbol → Action (Unit {0})
unfolding compare_with
compare_all severity index threshold penalty configs i [] = pure tt
compare_all severity index threshold penalty configs i (other ∷ others) =
    let rest = compare_all severity index threshold penalty configs (suc i) others in
    if str_eq other severity
    then rest
    else (compare_with (ltb i index) threshold penalty (lookup other configs) >> rest)

-- `canonical_severity_index(severity).unwrap()`
abbrev pub unwrap_index : Option ℕ → Action ℕ
unwrap_index none = abort
unwrap_index (some i) = pure i

unfoldable pub validate_config : Symbol → ℕ → ℤ → ℤ → ConfigMap → Action (Unit {0})
unfolding is_canonical_severity
validate_config severity threshold penalty reward existing = do
  reject_if (not (is_canonical_severity severity)) invalid_severity
  reject_if (threshold == 0 || ltb 1440 threshold) threshold_out_of_bounds
  reject_if (leb_ℤ penalty (pos 0) || ltb_ℤ (pos 10000) penalty) penalty_out_of_bounds
  reject_if (leb_ℤ reward (pos 0) || ltb_ℤ (pos 100000) reward) reward_out_of_bounds
  validate_tier severity threshold penalty
  index ← unwrap_index (canonical_severity_index severity)
  compare_all severity index threshold penalty existing 0 canonical_severities
