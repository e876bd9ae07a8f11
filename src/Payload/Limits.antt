-- ===== src/Payload/Limits.antt =====
-- The two checks of a payload agree (sla_calculator/src/event_payload_guard.rs).
use noc_iq_contracts.Base.{◌+◌, ◌≡◌, ◌↔◌, ◌≤◌, ◌<◌, true, length, arith}
use noc_iq_contracts.Types.{u32_mod}
use noc_iq_contracts.Effect.{ok}
use noc_iq_contracts.Payload.{
  Text, validate_payload, inspect, fits, max_payload_bytes, max_description_bytes,
  max_metadata_bytes,
}

-- For any two texts, `fits` holds exactly if `validate_payload` accepts with the sum of the two
-- lengths, and exactly if the description has 1 to 128 bytes, the metadata at most 96, and both
-- together at most 200.
fits-iff-validate_payload :
    (description metadata : Text)
    → length description < u32_mod
    → length metadata < u32_mod
    → let d = length description in
      let m = length metadata in
      ((fits description metadata ≡ true) ↔ (validate_payload description metadata ≡ ok (d + m)))
      × ((fits description metadata ≡ true) ↔ (
          (1 ≤ d)
          × (d ≤ max_description_bytes)
          × (m ≤ max_metadata_bytes)
          × (d + m ≤ max_payload_bytes)))
unfolding fits validate_payload inspect
fits-iff-validate_payload description metadata short_d short_m =
    ((λ f. ground arith, λ v. ground arith), (λ f. ground arith, λ v. ground arith))
