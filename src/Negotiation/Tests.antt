-- ===== src/Negotiation/Tests.antt =====
-- Two versions that work together, and one that does not
-- (sla_calculator/src/version_negotiation.rs), with the theorems at these inputs.
use noc_iq_contracts.Base.{◌≡◌, ◌≢◌, ◌↔◌, refl, true, false, [], ◌∷◌, any}
use noc_iq_contracts.Negotiation.{
  VersionNegotiationInfo, build_negotiation_info, negotiate_contract_versions, compare_peers,
  compare_peer, negotiated, incompatible,
}
use noc_iq_contracts.Negotiation.Verdict.{
  clashes, differs, verdict, all_mismatches, negotiate_contract_versions-verdict,
}

abbrev ours : VersionNegotiationInfo
ours = build_negotiation_info 2 2 false

-- A later escrow that still accepts protocol 1, and a settlement that requires protocol 2.
abbrev escrow : VersionNegotiationInfo
escrow = record {
  contract_name = "pay_escro";
  protocol_version = 2;
  storage_version = 1;
  min_compatible_protocol = 1;
  is_paused = true;
  needs_migration = true;
}

abbrev settlement : VersionNegotiationInfo
settlement = record escrow { contract_name = "settle"; min_compatible_protocol = 2 }

-- A paused peer that needs a migration is no obstacle.
outcomes :
    ((negotiate_contract_versions ours (escrow ∷ [])).outcome ≡ negotiated)
    × ((negotiate_contract_versions ours (escrow ∷ settlement ∷ escrow ∷ [])).outcome
        ≡ incompatible)
unfolding build_negotiation_info negotiate_contract_versions compare_peers compare_peer
outcomes = (refl, refl)

negotiate_contract_versions-verdict_example :
    let result = negotiate_contract_versions ours (escrow ∷ settlement ∷ []) in
    (result.outcome
      ≡ verdict
          (any (clashes ours) (escrow ∷ settlement ∷ []))
          (any (differs ours) (escrow ∷ settlement ∷ [])))
    × (result.mismatches ≡ all_mismatches ours (escrow ∷ settlement ∷ []))
    × ((result.mismatches ≡ []) ↔ (result.outcome ≢ incompatible))
negotiate_contract_versions-verdict_example =
    negotiate_contract_versions-verdict ours (escrow ∷ settlement ∷ [])
