-- ===== src/Negotiation.antt =====
-- Whether contracts of different versions work together
-- (sla_calculator/src/version_negotiation.rs).
pub mod Verdict
pub mod Tests
use noc_iq_contracts.Base.{
  ℕ, ◌==◌, ◌&&◌, not, Bool, true, false, List, [], ◌∷◌, ◌++◌, ltb, if◌then◌else◌,
}
use noc_iq_contracts.Types.{Symbol}

pub record VersionNegotiationInfo : Type 0 where
  pub contract_name : Symbol
  pub protocol_version : ℕ
  pub storage_version : ℕ
  pub min_compatible_protocol : ℕ
  pub is_paused : Bool
  pub needs_migration : Bool

pub data NegotiationOutcome : Type 0 where
  compatible negotiated incompatible : NegotiationOutcome

pub record VersionMismatchDetail : Type 0 where
  pub contract_name : Symbol
  pub reported_protocol : ℕ
  pub required_min : ℕ

pub record VersionNegotiationResult : Type 0 where
  pub outcome : NegotiationOutcome
  pub summary : Symbol
  pub mismatches : List VersionMismatchDetail

abbrev pub contract_sla_calc : Symbol
contract_sla_calc = "sla_calc"

abbrev pub contract_pay_escrow : Symbol
contract_pay_escrow = "pay_escro"

abbrev pub contract_settlement : Symbol
contract_settlement = "settle"

abbrev pub protocol_version : ℕ
protocol_version = 1

abbrev pub min_compatible_protocol : ℕ
min_compatible_protocol = 1

unfoldable pub build_negotiation_info : ℕ → ℕ → Bool → VersionNegotiationInfo
build_negotiation_info storage_version expected_version is_paused = record {
  contract_name = contract_sla_calc;
  protocol_version = protocol_version;
  storage_version = storage_version;
  min_compatible_protocol = min_compatible_protocol;
  is_paused = is_paused;
  needs_migration = not (storage_version == expected_version);
}

abbrev pub is_compatible : NegotiationOutcome → Bool
is_compatible compatible = true
is_compatible negotiated = false
is_compatible incompatible = false

-- `b` requires a later protocol than the one of `a`.
abbrev pub is_too_old : VersionNegotiationInfo → VersionNegotiationInfo → Bool
is_too_old a b = ltb a.protocol_version b.min_compatible_protocol

abbrev pub mismatch : VersionNegotiationInfo → VersionNegotiationInfo → VersionMismatchDetail
mismatch a b = record {
  contract_name = a.contract_name;
  reported_protocol = a.protocol_version;
  required_min = b.min_compatible_protocol;
}

abbrev pub Progress : Type 0
Progress = NegotiationOutcome × List VersionMismatchDetail

-- One direction of the comparison: a contract that is too old makes the group incompatible.
abbrev pub require_recent : VersionNegotiationInfo → VersionNegotiationInfo → Progress → Progress
require_recent a b (outcome, mismatches) =
    if is_too_old a b
    then (incompatible, mismatches ++ (mismatch a b ∷ []))
    else (outcome, mismatches)

abbrev pub note_difference : VersionNegotiationInfo → VersionNegotiationInfo → Progress → Progress
note_difference our peer (outcome, mismatches) =
    if is_compatible outcome && not (peer.protocol_version == our.protocol_version)
    then (negotiated, mismatches)
    else (outcome, mismatches)

-- The body of the loop.
unfoldable pub compare_peer : VersionNegotiationInfo → VersionNegotiationInfo → Progress → Progress
compare_peer our peer p =
    note_difference our peer (require_recent our peer (require_recent peer our p))

unfoldable pub compare_peers :
    VersionNegotiationInfo → List VersionNegotiationInfo → Progress → Progress
compare_peers our [] p = p
compare_peers our (peer ∷ rest) p = compare_peers our rest (compare_peer our peer p)

abbrev pub summary_of : NegotiationOutcome → Symbol
summary_of compatible = "compat"
summary_of negotiated = "negoti"
summary_of incompatible = "incompt"

unfoldable pub negotiate_contract_versions :
    VersionNegotiationInfo → List VersionNegotiationInfo → VersionNegotiationResult
negotiate_contract_versions our peers =
    let (outcome, mismatches) = compare_peers our peers (compatible, []) in
    record { outcome = outcome; summary = summary_of outcome; mismatches = mismatches }

unfoldable pub version_discovery_interfaces : List Symbol
version_discovery_interfaces = "ver_info" ∷ "mig_state" ∷ "is_paused" ∷ []
