-- ===== src/Generic.antt =====
-- netlify/functions/_telemetry/generic-http-adapter.ts: the adapter that the HTTP host reads batches with.
-- `fraction_text` and `floor` are the language's printing and whole part of a number that is no integer,
-- `date_parse` and `to_iso` its Date.parse and toISOString; the digest is a function.
pub mod Build
pub mod Normalize
pub mod EventFields
pub mod Normalized
pub mod Hosted
mod Tests
use kootha.Prelude.{
  count, ◌-◌, ◌==◌, ℕ, ◌^◌, Bool, true, false, not, ◌&&◌, ◌||◌, Option, none, some, String, List,
  [], ◌∷◌, if◌then◌else◌, ltb, leb, includes, every, length,
}
use kootha.Prelude.Number.{pos, Number, integer}
use kootha.Prelude.Json.{
  Text, Value, Fields, obj, arr, str, num, Items, get_field, count_items, items_list,
}
use kootha.Prelude.Text.{trim, text_eq, has_control, is_text}
use kootha.Export.Envelope.{keys}
use kootha.Host.Handler.{Parsed, events, batch_too_large, schema_invalid}

abbrev pub max_http_events : ℕ
max_http_events = 100

abbrev pub max_observations_per_event : ℕ
max_observations_per_event = 32

unfoldable pub has_exact_fields : Fields → List String → Bool
unfolding every includes
has_exact_fields value allowed = every (λ key. includes key allowed) (keys value)

unfoldable pub bounded_text : Option Value → ℕ → Bool
unfolding trim has_control
bounded_text (some (str text)) maximum_length =
    ltb 0 (length text)
    && (leb (length text) maximum_length && (text_eq (trim text) text && not (has_control text)))
bounded_text _ maximum_length = false

-- `value === undefined || test(value)`.
abbrev pub if_given : Option Value → (Option Value → Bool) → Bool
if_given none test = true
if_given (some value) test = test (some value)

abbrev pub is_given : Option Value → Bool
is_given none = false
is_given (some value) = true

abbrev pub is_sequence : Option Value → Bool
is_sequence (some (num (integer (pos n)))) = ltb n (2 ^ 53)
is_sequence _ = false

abbrev pub is_record_of : List String → Option Value → Bool
is_record_of allowed (some (obj fields)) = has_exact_fields fields allowed
is_record_of allowed _ = false

abbrev pub position_fields : List String
position_fields =
    "latitude" ∷ "longitude" ∷ "altitudeMeters" ∷ "accuracyMeters" ∷ "speedMetersPerSecond"
    ∷ "headingDegrees" ∷ "satellites" ∷ []

abbrev pub health_fields : List String
health_fields =
    "heartbeat" ∷ "batteryPercent" ∷ "externalPower" ∷ "firmwareVersion" ∷ "gpsFix" ∷ "gsmSignalDbm"
    ∷ []

abbrev pub observation_fields : List String
observation_fields = "metric" ∷ "value" ∷ "unit" ∷ []

abbrev pub event_fields : List String
event_fields =
    "sourceEventId" ∷ "clientEventId" ∷ "capturedAt" ∷ "streamEpoch" ∷ "sequence" ∷ "position"
    ∷ "health" ∷ "observations" ∷ []

unfoldable pub are_observations : Option Value → Bool
unfolding has_exact_fields every
are_observations (some (arr items)) =
    leb (count_items items) max_observations_per_event
    && every (λ observation. is_record_of observation_fields (some observation)) (items_list items)
are_observations _ = false

abbrev pub both_or_neither : Bool → Bool → Bool
both_or_neither true b = b
both_or_neither false b = not b

unfoldable pub valid_fields : Fields → Bool
unfolding has_exact_fields bounded_text are_observations get_field
valid_fields value =
    has_exact_fields value event_fields
    && (bounded_text (get_field "capturedAt" value) 40
        && (if_given (get_field "clientEventId" value) (λ id. bounded_text id 128)
            && (if_given (get_field "sourceEventId" value) (λ id. bounded_text id 128)
                && (if_given (get_field "streamEpoch" value) (λ epoch. bounded_text epoch 128)
                    && (if_given (get_field "sequence" value) is_sequence
                        && (both_or_neither (is_given (get_field "streamEpoch" value))
                              (is_given (get_field "sequence" value))
                            && (if_given (get_field "position" value) (is_record_of position_fields)
                                && (if_given (get_field "health" value) (is_record_of health_fields)
                                    && if_given (get_field "observations" value)
                                        are_observations))))))))

unfoldable pub valid_input_event : Value → Bool
unfolding valid_fields
valid_input_event (obj fields) = valid_fields fields
valid_input_event _ = false

abbrev pub parse_events : Option Value → Parsed
parse_events (some (arr items)) =
    if ltb max_http_events (count_items items)
    then batch_too_large
    else if ltb 0 (count_items items) && every valid_input_event (items_list items)
    then events (items_list items)
    else schema_invalid
parse_events _ = schema_invalid

-- The size of the message is not looked at.
unfoldable pub parse : Value → ℕ → Parsed
unfolding has_exact_fields valid_input_event get_field is_text every
parse (obj payload) size =
    if has_exact_fields payload ("contractVersion" ∷ "events" ∷ [])
      && is_text "1" (get_field "contractVersion" payload)
    then parse_events (get_field "events" payload)
    else schema_invalid
parse _ size = schema_invalid

-- The dispositions of `TelemetryProcessingResultV1`, and the acknowledgement of a batch.
pub data Disposition : Type 0 where
  canonicalized accepted_live accepted_delayed health_only duplicate duplicate_conflict rejected :
      Disposition

pub record Acknowledgement : Type 0 where
  pub status : String
  pub accepted_count : ℕ
  pub rejected_count : ℕ
  pub retryable : Bool
  pub reason_code : String

abbrev pub is_refused : Disposition → Bool
is_refused rejected = true
is_refused duplicate_conflict = true
is_refused _ = false

abbrev pub by_counts : {A : Type 0} → ℕ → ℕ → A → A → A → A
by_counts accepted refused all none_of_them some_of_them =
    if refused == 0 then all else if accepted == 0 then none_of_them else some_of_them

unfoldable pub acknowledge : List Disposition → Acknowledgement
acknowledge results =
    let refused = count is_refused results in
    let accepted = length results - refused in
    record {
      status = by_counts accepted refused "accepted" "rejected" "partially_accepted";
      accepted_count = accepted;
      rejected_count = refused;
      retryable = false;
      reason_code = by_counts accepted refused "processed" "request_rejected" "partial_rejection";
    }
