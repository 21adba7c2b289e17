-- ===== src/Generic/Build.antt =====
-- generic-http-adapter.ts: the canonical form of observations, and of an event whose parts are known.
use kootha.Prelude.{
  ◌-◌, ◌+◌, Bool, true, false, ◌&&◌, ◌||◌, Option, none, some, String, ◌++◌, if◌then◌else◌, leb,
  codes,
}
use kootha.Prelude.Number.{ℤ, pos, negsuc, integer}
use kootha.Prelude.Json.{
  Text, Value, Fields, obj, arr, str, num, bool, null, end, field, Items, no_items, item, get_field,
}
use kootha.Prelude.Text.{is_text}
use kootha.Telemetry.Validation.{
  Metric, fuel_level, temperature, door_state, vibration, switch, unknown_metric, metric_of,
}
use kootha.Identity.Content.{value_or}

abbrev pub adapter_id : Text
adapter_id = codes "kootha.generic_http"

abbrev pub adapter_version : Text
adapter_version = codes "1"

abbrev pub normalization_version : Text
normalization_version = codes "generic-http-v1"

-- An observation with its metric, value and unit after what all of them have.
abbrev pub observation : Text → Text → Value → Value → Value → Value
observation captured_at device metric value unit = obj (
    field "contractVersion" (str (codes "1")) (
      field "capturedAt" (str captured_at) (
        field "deviceExternalId" (str device) (
          field "source" (str (codes "physical_device")) (
            field "normalizationVersion" (str normalization_version) (
              field "quality" (str (codes "good")) (
                field "synthetic" (bool false)
                  (field "metric" metric (field "value" value (field "unit" unit end))))))))))

abbrev pub is_number : Value → Bool
is_number (num n) = true
is_number _ = false

abbrev pub is_bool : Value → Bool
is_bool (bool b) = true
is_bool _ = false

-- Whether a metric takes a value in a unit.
unfoldable pub takes : Metric → Value → Option Value → Bool
unfolding is_text
takes fuel_level value unit = is_text "percentage" unit && is_number value
takes temperature value unit = is_text "celsius" unit && is_number value
takes door_state value unit =
    is_text "state" unit
    && (is_text "open" (some value)
        || (is_text "closed" (some value) || is_text "unknown" (some value)))
takes vibration value unit = is_text "meters_per_second_squared" unit && is_number value
takes switch value unit = is_text "boolean" unit && is_bool value
takes unknown_metric value unit = false

abbrev pub taken : Bool → Text → Text → Option Value → Option Value → Option Value → Option Value
taken true captured_at device (some metric) (some value) (some unit) =
    some (observation captured_at device metric value unit)
taken _ captured_at device metric value unit = none

unfoldable pub normalize_observation : Value → Text → Text → Option Value
unfolding takes metric_of get_field
normalize_observation (obj raw) captured_at device =
    taken
      (takes (metric_of (get_field "metric" raw)) (value_or null (get_field "value" raw))
        (get_field "unit" raw))
      captured_at device (get_field "metric" raw) (get_field "value" raw) (get_field "unit" raw)
normalize_observation _ captured_at device = none

abbrev pub push_item : Option Value → Option Items → Option Items
push_item (some value) (some rest) = some (item value rest)
push_item _ _ = none

unfoldable pub normalize_observations : Items → Text → Text → Option Items
unfolding normalize_observation
normalize_observations no_items captured_at device = some no_items
normalize_observations (item raw rest) captured_at device =
    push_item (normalize_observation raw captured_at device)
      (normalize_observations rest captured_at device)

abbrev pub raw_observations : Option Value → Items
raw_observations (some (arr items)) = items
raw_observations _ = no_items

-- `...(value === undefined ? {} : { key: value })`.
abbrev pub if_present : String → Option Value → Fields → Fields
if_present key none rest = rest
if_present key (some value) rest = field key value rest

abbrev pub stream_field : Option Value → Option Value → Fields → Fields
stream_field (some epoch) sequence rest =
    field "stream" (obj (field "epoch" epoch (if_present "sequence" sequence end))) rest
stream_field none sequence rest = rest

abbrev pub observations_field : Items → Fields → Fields
observations_field no_items rest = rest
observations_field (item value items) rest = field "observations" (arr (item value items)) rest

-- `a - b`.
abbrev pub minus : ℤ → ℤ → ℤ
minus (pos a) (pos b) = if leb b a then pos (a - b) else negsuc (b - a - 1)
minus (pos a) (negsuc b) = pos (a + b + 1)
minus (negsuc a) (pos b) = negsuc (a + b)
minus (negsuc a) (negsuc b) = if leb a b then pos (b - a) else negsuc (a - b - 1)

-- What an event is built of beside the raw event.
pub record Parts : Type 0 where
  pub device : Text
  pub captured_at : Text
  pub received_at : Text
  pub offset : ℤ
  pub observations : Items
  pub raw_payload_hash : Text
  pub canonical_payload_hash : Text
  pub identity : Text
  pub event_id : Text

unfoldable pub canonical_material : Fields → Text → Text → Items → Value
unfolding get_field
canonical_material raw device captured_at observations = obj (
    field "sourceEventId" (value_or null (get_field "sourceEventId" raw)) (
      field "clientEventId" (value_or null (get_field "clientEventId" raw)) (
        field "deviceExternalId" (str device) (
          field "capturedAt" (str captured_at) (
            field "streamEpoch" (value_or null (get_field "streamEpoch" raw)) (
              field "sequence" (value_or null (get_field "sequence" raw)) (
                field "position" (value_or null (get_field "position" raw)) (
                  field "health" (value_or null (get_field "health" raw))
                    (field "observations" (arr observations) end)))))))))

abbrev pub provenance_of : Parts → Fields
provenance_of p = field "source" (str (codes "physical_device")) (
    field "normalizationVersion" (str normalization_version) (
      field "synthetic" (bool false) (
        field "rawPayloadHash" (str p.raw_payload_hash)
          (field "canonicalPayloadHash" (str p.canonical_payload_hash) end))))

unfoldable pub event_of : Fields → Parts → Fields
unfolding get_field
event_of raw p = field "contractVersion" (str (codes "1")) (
    field "canonicalEventId" (str (codes "canonical:v1:" ++ p.event_id)) (
      field "idempotencyIdentity" (str p.identity) (
        if_present "vendorEventId" (get_field "sourceEventId" raw) (
          if_present "clientEventId" (get_field "clientEventId" raw) (
            field "deviceExternalId" (str p.device) (
              field "authenticatedDeviceExternalId" (str p.device) (
                field "adapter"
                  (obj (field "id" (str adapter_id) (field "version" (str adapter_version) end)))
                  (stream_field (get_field "streamEpoch" raw) (get_field "sequence" raw) (
                    field "capturedAt" (str p.captured_at) (
                      field "receivedAt" (str p.received_at) (
                        field "normalizedAt" (str p.received_at) (
                          field "observedClockOffsetMs" (num (integer p.offset)) (
                            if_present "position" (get_field "position" raw) (
                              if_present "health" (get_field "health" raw) (
                                observations_field p.observations (
                                  field "quality" (str (codes "valid"))
                                    (field "provenance" (obj (provenance_of p)) end)))))))))))))))))
