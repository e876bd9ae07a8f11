-- ===== src/Negotiation/Verdict.antt =====
-- The outcome by what the versions are, without the order of the loop
-- (sla_calculator/src/version_negotiation.rs).
use mathlib.Core.List.{append_assoc, append-nil}
use noc_iq_contracts.Base.{
  ◌==◌, ◌||◌, ◌≡◌, ◌≢◌, ◌↔◌, refl, not, Bool, false, List, [], ◌∷◌, ◌++◌, any, if◌then◌else◌, arith,
  Bool-cases, inl, inr,
}
use noc_iq_contracts.Negotiation.{
  VersionNegotiationInfo, NegotiationOutcome, compatible, negotiated, incompatible,
  VersionMismatchDetail, is_too_old, mismatch, compare_peer, compare_peers,
  negotiate_contract_versions,
}

-- One of the two requires a later protocol than the other has.
abbrev pub clashes : VersionNegotiationInfo → VersionNegotiationInfo → Bool
clashes our peer = is_too_old peer our || is_too_old our peer

abbrev pub differs : VersionNegotiationInfo → VersionNegotiationInfo → Bool
differs our peer = not (peer.protocol_version == our.protocol_version)

-- Incompatible if some peer clashes, else negotiated if some peer has another version.
abbrev pub verdict : Bool → Bool → NegotiationOutcome
verdict some_clash some_difference =
    if some_clash then incompatible else if some_difference then negotiated else compatible

abbrev one_sided : VersionNegotiationInfo → VersionNegotiationInfo → List VersionMismatchDetail
one_sided a b = if is_too_old a b then mismatch a b ∷ [] else []

-- For each peer in order, its own mismatch before ours.
pub all_mismatches :
    VersionNegotiationInfo → List VersionNegotiationInfo → List VersionMismatchDetail
all_mismatches our [] = []
all_mismatches our (peer ∷ rest) =
    one_sided peer our ++ (one_sided our peer ++ all_mismatches our rest)

compare_peer-lem :
    (our peer : VersionNegotiationInfo) (clash difference : Bool)
    (found : List VersionMismatchDetail)
    → compare_peer our peer (verdict clash difference, found) ≡ (
      verdict (clash || clashes our peer) (difference || differs our peer),
      found ++ (one_sided peer our ++ one_sided our peer),
    )
unfolding compare_peer
compare_peer-lem our peer clash difference found = elim (Bool-cases (is_too_old peer our)) [
  | inl e ↦ elim (Bool-cases (is_too_old our peer)) [
    | inl f ↦ ground (arith, append_assoc found (mismatch peer our ∷ []) (mismatch our peer ∷ []))
    | inr f ↦ ground (arith, append-nil (mismatch peer our ∷ []))
  ]
  | inr e ↦ ground (arith, append-nil found)
]

-- What the loop has seen so far.
compare_peers-lem :
    (our : VersionNegotiationInfo) (peers : List VersionNegotiationInfo) (clash difference : Bool)
    (found : List VersionMismatchDetail)
    → compare_peers our peers (verdict clash difference, found) ≡ (
      verdict (clash || any (clashes our) peers) (difference || any (differs our) peers),
      found ++ all_mismatches our peers,
    )
unfolding compare_peers all_mismatches
compare_peers-lem our [] clash difference found = ground (arith, append-nil found)
compare_peers-lem our (peer ∷ rest) clash difference found =
    let first = one_sided peer our in
    let second = one_sided our peer in
    let others = all_mismatches our rest in
    rw (compare_peer-lem our peer clash difference found) (
      ground (
        arith,
        compare_peers-lem our rest (clash || clashes our peer) (difference || differs our peer)
            (found ++ (first ++ second)),
        append_assoc found (first ++ second) others,
        append_assoc first second others,
      ))

all_mismatches-empty :
    (our : VersionNegotiationInfo) (peers : List VersionNegotiationInfo)
    → (all_mismatches our peers ≡ []) ↔ (any (clashes our) peers ≡ false)
unfolding all_mismatches
all_mismatches-empty our [] = ground arith
all_mismatches-empty our (peer ∷ rest) = elim (Bool-cases (is_too_old peer our)) [
  | inl e ↦ ground arith
  | inr e ↦ elim (Bool-cases (is_too_old our peer)) [
    | inl f ↦ ground arith
    | inr f ↦ ground (arith, all_mismatches-empty our rest)
  ]
]

-- For any peers, the outcome is incompatible exactly if one side of some pair of this contract and a
-- peer requires a later protocol than the other has, otherwise negotiated exactly if some peer has
-- another protocol; the mismatches are those of the peers in order, for each its own before ours,
-- and there are none exactly if the outcome is not incompatible.
pub negotiate_contract_versions-verdict :
    (our : VersionNegotiationInfo) (peers : List VersionNegotiationInfo)
    → let result = negotiate_contract_versions our peers in
      (result.outcome ≡ verdict (any (clashes our) peers) (any (differs our) peers))
      × (result.mismatches ≡ all_mismatches our peers)
      × ((result.mismatches ≡ []) ↔ (result.outcome ≢ incompatible))
unfolding negotiate_contract_versions
negotiate_contract_versions-verdict our peers =
    let e = compare_peers-lem our peers false false [] in
    rw e (refl, refl, ground (arith, all_mismatches-empty our peers))

-- Two contracts come to the same outcome, whichever of them negotiates with the other.
negotiate_contract_versions-agrees :
    (a b : VersionNegotiationInfo)
    → (negotiate_contract_versions a (b ∷ [])).outcome
      ≡ (negotiate_contract_versions b (a ∷ [])).outcome
negotiate_contract_versions-agrees a b = ground (
  arith,
  negotiate_contract_versions-verdict a (b ∷ []),
  negotiate_contract_versions-verdict b (a ∷ []),
)
