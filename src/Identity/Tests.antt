-- ===== src/Identity/Tests.antt =====
-- The canonical text of a value, and two deliveries of one event.
use kootha.Prelude.{ℕ, ◌≡◌, ◌↔◌, refl, ◌&&◌, none, some, if◌then◌else◌, leb, length, codes}
use kootha.Prelude.Number.{pos, negsuc, integer, fraction}
use kootha.Prelude.Json.{Text, Value, obj, arr, str, num, null, end, field, Items, no_items, item}
use kootha.Prelude.Print.{units}
use kootha.Prelude.Result.{ok, err}
use kootha.Identity.Canonical.{
  text_le, canonicalize_stable_json, invalid_material, max_canonical_output_length,
}
use kootha.Identity.Limits.{is_within_limits, canonical_text, canonicalize_stable_json_lem}
use kootha.Identity.Order.{object, swapped, canonicalize_stable_json-Reordered}
use kootha.Identity.Decimal.{point_text, number_of, point_text-IsNumberText}
use kootha.Identity.Event.{
  DigestProvider, CanonicalEventIdentityInput, CanonicalEventIdentity, vendor_event_id,
  create_canonical_event_identity,
}
use kootha.Identity.Content.{
  CanonicalTelemetryEvent, CanonicalEventContentIdentity, create_canonical_event_content_identity,
  classify_duplicate_identity,
}
use kootha.Identity.SourceText.{source_of}
use kootha.Identity.Source.{create_canonical_event_identity-source}
use kootha.Identity.Duplicate.{Explains, classify_duplicate_identity-Explains}

abbrev reading : Value
reading = obj (
    field "b" (arr (item (num (integer (negsuc 6))) (item (num (fraction 5)) no_items)))
      (field "a" (str (codes "x\"\n")) end))

abbrev reordered : Value
reordered = obj (
    field "a" (str (codes "x\"\n"))
      (field "b" (arr (item (num (integer (negsuc 6))) (item (num (fraction 5)) no_items))) end))

abbrev reading_text : Text
reading_text = codes "{\"a\":\"x\\\"\\n\",\"b\":[-7,.5]}"

canonical_reading : canonicalize_stable_json point_text reading ≡ ok reading_text
unfolding canonicalize_stable_json
canonical_reading = refl

canonical_reordered : canonicalize_stable_json point_text reordered ≡ ok reading_text
unfolding canonicalize_stable_json
canonical_reordered = refl

abbrev repeated : ℕ → Items
repeated ℕ.zero = no_items
repeated (ℕ.suc n) = item null (repeated n)

too_many_items : canonicalize_stable_json point_text (arr (repeated 65)) ≡ err invalid_material
unfolding canonicalize_stable_json
too_many_items = refl

canonicalize_stable_json_lem_example : canonicalize_stable_json point_text reading ≡ (
    if is_within_limits reading
      && leb (length (canonical_text point_text reading)) max_canonical_output_length
    then ok (canonical_text point_text reading)
    else err invalid_material)
canonicalize_stable_json_lem_example = canonicalize_stable_json_lem point_text reading

canonicalize_stable_json-Reordered_example :
    canonicalize_stable_json point_text reading ≡ canonicalize_stable_json point_text reordered
unfolding text_le units
canonicalize_stable_json-Reordered_example =
    canonicalize_stable_json-Reordered point_text reading reordered
      (object (swapped "b" "a" _ _ end refl))

abbrev input : CanonicalEventIdentityInput
input = record {
  adapter_id = codes "generic";
  adapter_version = codes "1";
  device_external_id = codes "d1";
  vendor_event_id = some (codes "e1");
  client_event_id = none;
  captured_at = codes "2026-01-01T00:00:00.000Z";
  stream_epoch = none;
  sequence = none;
  canonical_payload_hash = codes "h";
}

-- A digest of all the texts at hand.
abbrev provider : DigestProvider
provider = record { algorithm = codes "none"; digest_utf8 = λ t. codes "d" }

abbrev made_event : CanonicalEventIdentity
made_event = record {
  kind = vendor_event_id;
  identity = codes "telemetry:v1:none:d";
  canonical_material =
      codes
        "{\"identityVersion\":\"1\",\"kind\":\"vendor_event_id\",\"namespace\":{\"adapterId\":\"generic\",\"adapterVersion\":\"1\",\"deviceExternalId\":\"d1\"},\"sourceEventId\":\"e1\"}";
}

created_event : create_canonical_event_identity point_text input provider ≡ ok made_event
unfolding create_canonical_event_identity
created_event = refl

-- A second delivery, which is stamped later.
abbrev later : CanonicalEventIdentityInput
later = record input { captured_at = codes "2026-01-01T00:00:01.000Z" }

created_later : create_canonical_event_identity point_text later provider ≡ ok made_event
unfolding create_canonical_event_identity
created_later = refl

create_canonical_event_identity-source_example :
    (made_event.canonical_material ≡ made_event.canonical_material)
    ↔ (source_of input ≡ source_of later)
create_canonical_event_identity-source_example =
    create_canonical_event_identity-source point_text number_of point_text-IsNumberText input later
      provider made_event made_event created_event created_later

abbrev event : Text → CanonicalTelemetryEvent
event received = record {
  contract_version = codes "1";
  canonical_event_id = codes "c1";
  idempotency_identity = codes "telemetry:v1:none:d";
  vendor_event_id = some (codes "e1");
  client_event_id = none;
  device_external_id = codes "d1";
  authenticated_device_external_id = codes "d1";
  adapter = obj end;
  stream = none;
  captured_at = codes "2026-01-01T00:00:00.000Z";
  received_at = received;
  normalized_at = received;
  observed_clock_offset_ms = some (num (integer (pos 3)));
  position = none;
  health = none;
  observations = none;
  quality = codes "valid";
  provenance = obj end;
}

abbrev made_content : CanonicalEventContentIdentity
made_content = record {
  identity = codes "telemetry-content:v1:none:d";
  canonical_material =
      codes
        "{\"adapter\":{},\"authenticatedDeviceExternalId\":\"d1\",\"capturedAt\":\"2026-01-01T00:00:00.000Z\",\"clientEventId\":null,\"contentIdentityVersion\":\"1\",\"contractVersion\":\"1\",\"deviceExternalId\":\"d1\",\"health\":null,\"observations\":[],\"observedClockOffsetMs\":3,\"position\":null,\"provenance\":{},\"quality\":\"valid\",\"stream\":null,\"vendorEventId\":\"e1\"}";
}

created_content :
    (received : Text)
    → create_canonical_event_content_identity point_text (event received) provider ≡ ok made_content
unfolding create_canonical_event_content_identity
created_content received = refl

classify_duplicate_identity-Explains_example :
    Explains input later (event (codes "a")) (event (codes "b")) (
      classify_duplicate_identity made_event.identity made_event.identity made_content.identity
        made_content.identity)
classify_duplicate_identity-Explains_example =
    classify_duplicate_identity-Explains point_text number_of point_text-IsNumberText provider input
      later (event (codes "a")) (event (codes "b")) made_event made_event made_content made_content
      created_event created_later (created_content (codes "a")) (created_content (codes "b"))
      (λ e. refl) (λ e. refl)
