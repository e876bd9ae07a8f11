-- ===== src/Payload.antt =====
-- The limits on the texts of an event (sla_calculator/src/event_payload_guard.rs).
pub mod Limits
pub mod Tests
use noc_iq_contracts.Base.{
  ℕ, ◌+◌, ◌-◌, ◌%◌, ◌==◌, ◌&&◌, Bool, List, length, leb, ltb, if◌then◌else◌,
}
use noc_iq_contracts.Types.{Symbol, u32_mod}
use noc_iq_contracts.Effect.{Outcome, ok, err}

abbrev pub max_payload_bytes : ℕ
max_payload_bytes = 200

abbrev pub max_description_bytes : ℕ
max_description_bytes = 128

abbrev pub max_metadata_bytes : ℕ
max_metadata_bytes = 96

abbrev pub max_event_fields : ℕ
max_event_fields = 8

pub data PayloadError : Type 0 where
  description_empty description_too_large metadata_too_large payload_too_large : PayloadError
  too_many_fields : PayloadError

pub record PayloadReport : Type 0 where
  pub description_bytes : ℕ
  pub metadata_bytes : ℕ
  pub total_bytes : ℕ
  pub remaining_bytes : ℕ
  pub within_limits : Bool

-- A text of the host, as its bytes.
abbrev pub Text : Type 0
Text = List ℕ

abbrev pub description_bytes : Text → ℕ
description_bytes description = length description

abbrev pub metadata_bytes : Text → ℕ
metadata_bytes metadata = length metadata

unfoldable pub total_bytes : Text → Text → ℕ
total_bytes description metadata =
    (description_bytes description + metadata_bytes metadata) % u32_mod

unfoldable pub remaining_budget : Text → Text → ℕ
unfolding total_bytes
remaining_budget description metadata = max_payload_bytes - total_bytes description metadata

unfoldable pub validate_description : Text → Outcome PayloadError ℕ
validate_description description =
    let bytes = description_bytes description in
    if bytes == 0
    then err description_empty
    else if ltb max_description_bytes bytes
    then err description_too_large
    else ok bytes

unfoldable pub validate_metadata : Text → Outcome PayloadError ℕ
validate_metadata metadata =
    let bytes = metadata_bytes metadata in
    if ltb max_metadata_bytes bytes then err metadata_too_large else ok bytes

abbrev pub and_then :
    {A B : Type 0} → Outcome PayloadError A → (A → Outcome PayloadError B) → Outcome PayloadError B
and_then (ok a) f = f a
and_then (err x) f = err x
and_then Outcome.panic f = Outcome.panic

unfoldable pub validate_payload : Text → Text → Outcome PayloadError ℕ
unfolding validate_description validate_metadata
validate_payload description metadata =
    and_then (validate_description description) λ description_size.
      and_then (validate_metadata metadata) λ metadata_size.
        let total = (description_size + metadata_size) % u32_mod in
        if ltb max_payload_bytes total then err payload_too_large else ok total

unfoldable pub validate_field_count : ℕ → Outcome PayloadError (Unit {0})
validate_field_count field_count =
    if ltb max_event_fields field_count then err too_many_fields else ok tt

unfoldable pub inspect : Text → Text → PayloadReport
unfolding remaining_budget
inspect description metadata =
    let description_size = description_bytes description in
    let metadata_size = metadata_bytes metadata in
    let total = (description_size + metadata_size) % u32_mod in
    record {
      description_bytes = description_size;
      metadata_bytes = metadata_size;
      total_bytes = total;
      remaining_bytes = remaining_budget description metadata;
      within_limits =
          leb total max_payload_bytes
          && leb description_size max_description_bytes
          && ltb 0 description_size
          && leb metadata_size max_metadata_bytes;
    }

unfoldable pub fits : Text → Text → Bool
fits description metadata = (inspect description metadata).within_limits

pub data PayloadEvent : Type 0 where
  too_big : Symbol → PayloadError → PayloadEvent
  pl_ok : Symbol → ℕ → PayloadEvent

unfoldable pub emit_rejection : Symbol → PayloadError → PayloadEvent
emit_rejection outage_id error = too_big outage_id error

unfoldable pub emit_accepted : Symbol → PayloadReport → PayloadEvent
emit_accepted outage_id report = pl_ok outage_id report.total_bytes
