-- ===== src/Telemetry/Validation/Event.antt =====
-- validation.ts: the check of an event.
use kootha.Prelude.{
  ℕ, suc, ◌^◌, Bool, true, false, not, ◌||◌, Option, some, String, List, [], ◌∷◌, ◌++◌, map,
  if◌then◌else◌, ltb, codes, drop,
}
use kootha.Prelude.Number.{ℤ, pos, integer, is_finite}
use kootha.Prelude.Json.{
  Value, Fields, obj, arr, num, Items, no_items, item, get_field, count_items,
}
use kootha.Prelude.Text.{is_text}
use kootha.Prelude.Result.{Result, ok, err}
use kootha.Telemetry.Issue.{
  ValidationIssue, unsupported, invalid_type, invalid_value, too_many_items, issue_if,
}
use kootha.Telemetry.Validation.{
  is_empty, reject_unexpected_fields, validate_text, validate_iso_timestamp,
  validate_source_and_synthetic_marker, validate_canonical_sensor_observation,
}
use kootha.Telemetry.Validation.Parts.{
  if_defined, if_object, validate_position, validate_health, is_same, observation_path,
  validate_observation_bindings,
}

abbrev pub event_fields : List String
event_fields =
    "contractVersion" ∷ "canonicalEventId" ∷ "idempotencyIdentity" ∷ "vendorEventId"
    ∷ "clientEventId" ∷ "deviceExternalId" ∷ "authenticatedDeviceExternalId" ∷ "adapter" ∷ "stream"
    ∷ "capturedAt" ∷ "receivedAt" ∷ "normalizedAt" ∷ "observedClockOffsetMs" ∷ "position" ∷ "health"
    ∷ "observations" ∷ "quality" ∷ "provenance" ∷ []

abbrev pub validate_adapter : Fields → List ValidationIssue
validate_adapter adapter =
    reject_unexpected_fields adapter ("id" ∷ "version" ∷ []) (codes "$.adapter")
    ++ (validate_text (get_field "id" adapter) (codes "$.adapter.id") 64
        ++ validate_text (get_field "version" adapter) (codes "$.adapter.version") 64)

abbrev pub is_safe_natural : Option Value → Bool
is_safe_natural (some (num (integer (pos n)))) = ltb n (2 ^ 53)
is_safe_natural _ = false

abbrev pub validate_stream : Fields → List ValidationIssue
validate_stream stream =
    reject_unexpected_fields stream ("epoch" ∷ "sequence" ∷ []) (codes "$.stream")
    ++ (validate_text (get_field "epoch" stream) (codes "$.stream.epoch") 128
        ++ issue_if (not (is_safe_natural (get_field "sequence" stream)))
            (codes "$.stream.sequence") invalid_value)

abbrev pub is_finite_number : Option Value → Bool
is_finite_number (some (num n)) = is_finite n
is_finite_number _ = false

-- An observation's issue with its path in the event.
abbrev pub in_event : ℕ → ValidationIssue → ValidationIssue
in_event index issue = record issue { path = observation_path index (drop 1 issue.path) }

unfoldable pub validate_observation_items : (ℕ → ℤ) → ℕ → Items → List ValidationIssue
unfolding validate_canonical_sensor_observation observation_path
validate_observation_items floor index no_items = []
validate_observation_items floor index (item observation rest) =
    map (in_event index) (validate_canonical_sensor_observation floor observation)
    ++ validate_observation_items floor (suc index) rest

unfoldable pub validate_observations : (ℕ → ℤ) → Option Value → List ValidationIssue
unfolding validate_observation_items
validate_observations floor (some (arr items)) =
    if ltb 32 (count_items items)
    then issue_if true (codes "$.observations") too_many_items
    else validate_observation_items floor 0 items
validate_observations floor _ = issue_if true (codes "$.observations") invalid_type

abbrev pub is_event_quality : Option Value → Bool
is_event_quality quality =
    is_text "valid" quality || (is_text "degraded" quality || is_text "suspect" quality)

abbrev pub validate_provenance : Fields → List ValidationIssue
validate_provenance provenance =
    reject_unexpected_fields provenance
      ("source" ∷ "normalizationVersion" ∷ "synthetic" ∷ "rawPayloadHash" ∷ "canonicalPayloadHash"
        ∷ [])
      (codes "$.provenance")
    ++ (validate_source_and_synthetic_marker (get_field "source" provenance)
          (get_field "synthetic" provenance) (codes "$.provenance.source")
          (codes "$.provenance.synthetic")
        ++ (validate_text (get_field "normalizationVersion" provenance)
              (codes "$.provenance.normalizationVersion") 64
            ++ (validate_text (get_field "rawPayloadHash" provenance)
                  (codes "$.provenance.rawPayloadHash") 256
                ++ validate_text (get_field "canonicalPayloadHash" provenance)
                    (codes "$.provenance.canonicalPayloadHash") 256)))

abbrev pub concat : {A : Type 0} → List (List A) → List A
concat [] = []
concat (xs ∷ rest) = xs ++ concat rest

abbrev pub optional_text : Fields → String → String → ℕ → List ValidationIssue
optional_text event key path maximum =
    if_defined (get_field key event) (λ value. validate_text value (codes path) maximum)

-- The checks of an event, in the order of the source.
unfoldable pub event_parts : (ℕ → ℤ) → Fields → List (List ValidationIssue)
unfolding get_field is_text reject_unexpected_fields validate_text validate_iso_timestamp
    validate_source_and_synthetic_marker validate_position validate_health validate_observations
    validate_observation_bindings is_same
event_parts floor event =
    reject_unexpected_fields event event_fields (codes "$")
    ∷ issue_if (not (is_text "1" (get_field "contractVersion" event))) (codes "$.contractVersion")
        unsupported
    ∷ validate_text (get_field "canonicalEventId" event) (codes "$.canonicalEventId") 256
    ∷ validate_text (get_field "idempotencyIdentity" event) (codes "$.idempotencyIdentity") 256
    ∷ optional_text event "vendorEventId" "$.vendorEventId" 128
    ∷ optional_text event "clientEventId" "$.clientEventId" 128
    ∷ validate_text (get_field "deviceExternalId" event) (codes "$.deviceExternalId") 128
    ∷ validate_text (get_field "authenticatedDeviceExternalId" event)
        (codes "$.authenticatedDeviceExternalId") 128
    ∷ issue_if
        (not (
          is_same (get_field "authenticatedDeviceExternalId" event)
            (get_field "deviceExternalId" event)))
        (codes "$.authenticatedDeviceExternalId") invalid_value
    ∷ if_object (get_field "adapter" event) (codes "$.adapter") validate_adapter
    ∷ if_defined (get_field "stream" event)
        (λ stream. if_object stream (codes "$.stream") validate_stream)
    ∷ validate_iso_timestamp (get_field "capturedAt" event) (codes "$.capturedAt")
    ∷ validate_iso_timestamp (get_field "receivedAt" event) (codes "$.receivedAt")
    ∷ validate_iso_timestamp (get_field "normalizedAt" event) (codes "$.normalizedAt")
    ∷ if_defined (get_field "observedClockOffsetMs" event) (λ offset.
      issue_if (not (is_finite_number offset)) (codes "$.observedClockOffsetMs") invalid_type)
    ∷ if_defined (get_field "position" event)
        (λ position. if_object position (codes "$.position") (validate_position floor))
    ∷ if_defined (get_field "health" event)
        (λ health. if_object health (codes "$.health") (validate_health floor))
    ∷ if_defined (get_field "observations" event) (validate_observations floor)
    ∷ issue_if (not (is_event_quality (get_field "quality" event))) (codes "$.quality") unsupported
    ∷ if_object (get_field "provenance" event) (codes "$.provenance") validate_provenance
    ∷ validate_observation_bindings event (get_field "observations" event)
        (get_field "provenance" event)
    ∷ []

unfoldable pub validate_event_record : (ℕ → ℤ) → Fields → List ValidationIssue
unfolding event_parts
validate_event_record floor event = concat (event_parts floor event)

-- `validateCanonicalTelemetryEventV1`: the event, or its issues.
unfoldable pub validate_canonical_telemetry_event :
    (ℕ → ℤ) → Value → Result (List ValidationIssue) Fields
unfolding validate_event_record
validate_canonical_telemetry_event floor (obj event) =
    let issues = validate_event_record floor event in
    if is_empty issues then ok event else err issues
validate_canonical_telemetry_event floor _ = err (issue_if true (codes "$") invalid_type)
