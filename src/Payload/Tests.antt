-- ===== src/Payload/Tests.antt =====
-- A payload at its limits (sla_calculator/src/event_payload_guard.rs).
use noc_iq_contracts.Base.{◌≡◌, refl, [], ◌∷◌}
use noc_iq_contracts.Effect.{ok, err}
use noc_iq_contracts.Payload.{
  validate_payload, description_empty, validate_field_count, too_many_fields,
}

empty_description : validate_payload [] (7 ∷ []) ≡ err description_empty
unfolding validate_payload
empty_description = refl

nine_fields : (validate_field_count 8 ≡ ok tt) × (validate_field_count 9 ≡ err too_many_fields)
unfolding validate_field_count
nine_fields = (refl, refl)
