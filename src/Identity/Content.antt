-- ===== src/Identity/Content.antt =====
-- contentIdentity.ts: the identity of what an event says, and whether an event is a duplicate. The parts of an
-- event that the source passes on as they are are values of JSON.
use kootha.Prelude.{ℕ, ◌&&◌, Option, none, some, if◌then◌else◌, leb, codes, length}
use kootha.Prelude.Json.{Text, Value, obj, arr, str, null, end, field, no_items}
use kootha.Prelude.Text.{trim, text_eq}
use kootha.Prelude.Result.{Result, ok, err, ◌>>=◌}
use kootha.Work.Execution.{is_filled}
use kootha.Telemetry.Issue.{ValidationIssue}
use kootha.Identity.Canonical.{canonicalize_stable_json}
use kootha.Identity.Event.{DigestProvider, invalid_digest, identity_text, text_or_null}

pub record CanonicalTelemetryEvent : Type 0 where
  pub contract_version : Text
  pub canonical_event_id : Text
  pub idempotency_identity : Text
  pub vendor_event_id : Option Text
  pub client_event_id : Option Text
  pub device_external_id : Text
  pub authenticated_device_external_id : Text
  pub adapter : Value
  pub stream : Option Value
  pub captured_at : Text
  pub received_at : Text
  pub normalized_at : Text
  pub observed_clock_offset_ms : Option Value
  pub position : Option Value
  pub health : Option Value
  pub observations : Option Value
  pub quality : Text
  pub provenance : Value

pub record CanonicalEventContentIdentity : Type 0 where
  pub identity : Text
  pub canonical_material : Text

abbrev pub value_or : Value → Option Value → Value
value_or default none = default
value_or default (some value) = value

abbrev pub content : CanonicalTelemetryEvent → Value
content event = obj (
    field "contentIdentityVersion" (str (codes "1")) (
      field "contractVersion" (str event.contract_version) (
        field "vendorEventId" (text_or_null event.vendor_event_id) (
          field "clientEventId" (text_or_null event.client_event_id) (
            field "deviceExternalId" (str event.device_external_id) (
              field "authenticatedDeviceExternalId" (str event.authenticated_device_external_id) (
                field "adapter" event.adapter (
                  field "stream" (value_or null event.stream) (
                    field "capturedAt" (str event.captured_at) (
                      field "observedClockOffsetMs" (value_or null event.observed_clock_offset_ms) (
                        field "position" (value_or null event.position) (
                          field "health" (value_or null event.health) (
                            field "observations" (value_or (arr no_items) event.observations) (
                              field "quality" (str event.quality)
                                (field "provenance" event.provenance end)))))))))))))))

abbrev pub content_identity :
    DigestProvider → Text → Result ValidationIssue CanonicalEventContentIdentity
content_identity provider canonical =
    let digest = provider.digest_utf8 canonical in
    if is_filled provider.algorithm
      && (leb (length provider.algorithm) 32 && (is_filled digest && leb (length digest) 256))
    then ok (record {
      identity = identity_text (codes "telemetry-content:v1:") provider digest;
      canonical_material = canonical;
    })
    else err invalid_digest

unfoldable pub create_canonical_event_content_identity :
    (ℕ → Text)
    → CanonicalTelemetryEvent
    → DigestProvider
    → Result ValidationIssue CanonicalEventContentIdentity
unfolding canonicalize_stable_json trim
create_canonical_event_content_identity fraction_text event provider =
    canonicalize_stable_json fraction_text (content event) >>= content_identity provider

pub data DuplicateIdentityClassification : Type 0 where
  not_duplicate duplicate_identical_content duplicate_changed_content :
      DuplicateIdentityClassification

unfoldable pub classify_duplicate_identity :
    Text → Text → Text → Text → DuplicateIdentityClassification
classify_duplicate_identity known_event incoming_event known_content incoming_content =
    if text_eq known_event incoming_event
    then if text_eq known_content incoming_content
      then duplicate_identical_content
      else duplicate_changed_content
    else not_duplicate
