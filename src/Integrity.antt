-- ===== src/Integrity.antt =====
-- The check of the contract's state (sla_calculator/src/state_integrity.rs). The history and the
-- counter are those of the contract's instance storage; the presence of the essential keys and the
-- schema version are read from the persistent storage, which is another one.
pub mod Orphans
pub mod Tests
use noc_iq_contracts.Base.{
  ℕ, ◌-◌, ◌==◌, Bool, false, Option, none, some, List, [], ◌∷◌, ◌++◌, length, ltb, not, is_some,
  str_eq, if◌then◌else◌,
}
use noc_iq_contracts.Types.{Symbol, SlaStats, u32_mod}
use noc_iq_contracts.Storage.{Storage}
use noc_iq_contracts.Calc.Submit.{stored_history}

abbrev pub expected_schema_version : ℕ
expected_schema_version = 1

pub data IntegrityIssue : Type 0 where
  missing_key schema_version_mismatch orphaned_history : IntegrityIssue

pub record IntegrityReport : Type 0 where
  pub healthy : Bool
  pub issues : List IntegrityIssue
  pub checked_keys : ℕ

-- Which of the keys CONFIG, STATS and HIST have an entry, and the u32 under VER.
pub record Persistent : Type 0 where
  pub config : Bool
  pub stats : Bool
  pub history : Bool
  pub version : Option ℕ

unfoldable pub has : Symbol → Persistent → Bool
has key p =
    if str_eq key "CONFIG"
    then p.config
    else if str_eq key "STATS"
    then p.stats
    else if str_eq key "HIST"
    then p.history
    else if str_eq key "VER"
    then is_some p.version
    else false

abbrev pub issue_count : IntegrityReport → ℕ
issue_count report = length report.issues

abbrev pub is_healthy : IntegrityReport → Bool
is_healthy report = report.healthy

abbrev pub essential_keys : List Symbol
essential_keys = "CONFIG" ∷ "STATS" ∷ "HIST" ∷ "VER" ∷ []

-- One issue for each key without an entry.
unfoldable pub collect_missing : List Symbol → Persistent → List IntegrityIssue
collect_missing [] p = []
collect_missing (key ∷ keys) p =
    let later = collect_missing keys p in if not (has key p) then missing_key ∷ later else later

unfoldable pub collect_version_issues : Persistent → List IntegrityIssue
collect_version_issues p = elim p.version [
  | none ↦ []
  | some version ↦
      if not (version == expected_schema_version) then schema_version_mismatch ∷ [] else []
]

-- The counter is cut to u32; the subtraction saturates at 0.
unfoldable pub orphaned_history_entries : Storage → ℕ
orphaned_history_entries s =
    let counted : ℕ = elim s.stats [ none ↦ 0 | some stats ↦ stats.total_calculations ] in
    length (stored_history s) - (if ltb (u32_mod - 1) counted then u32_mod - 1 else counted)

unfoldable pub integrity_check : Persistent → Storage → IntegrityReport
integrity_check p s =
    let missing = collect_missing essential_keys p in
    let orphans : List IntegrityIssue =
      if ltb 0 (orphaned_history_entries s) then orphaned_history ∷ [] else [] in
    let issues = (missing ++ orphans) ++ collect_version_issues p in
    record { healthy = length issues == 0; issues = issues; checked_keys = length essential_keys }
