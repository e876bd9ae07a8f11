-- ===== src/Config/Severity.antt =====
-- The canonical severities (sla_calculator/src/lib.rs).
use noc_iq_contracts.Base.{
  ℕ, Bool, Option, some, none, is_some, List, [], ◌∷◌, str_eq, if◌then◌else◌,
}
use noc_iq_contracts.Types.{Symbol}

abbrev pub canonical_severities : List Symbol
canonical_severities = "critical" ∷ "high" ∷ "medium" ∷ "low" ∷ []

unfoldable pub canonical_severity_index : Symbol → Option ℕ
canonical_severity_index severity =
    if str_eq severity "critical"
    then some 0
    else if str_eq severity "high"
    then some 1
    else if str_eq severity "medium"
    then some 2
    else if str_eq severity "low"
    then some 3
    else none

unfoldable pub is_canonical_severity : Symbol → Bool
unfolding canonical_severity_index
is_canonical_severity severity = is_some (canonical_severity_index severity)
