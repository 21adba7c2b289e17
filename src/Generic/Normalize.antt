-- ===== src/Generic/Normalize.antt =====
-- generic-http-adapter.ts: the steps from a raw event to a canonical one.
use kootha.Prelude.{ℕ, Option, none, some, String, [], if◌then◌else◌, codes}
use kootha.Prelude.Number.{ℤ, Number}
use kootha.Prelude.Json.{Text, Value, Fields, obj, str, num, Items, get_field}
use kootha.Prelude.Text.{text_eq}
use kootha.Prelude.Print.{units}
use kootha.Prelude.Result.{Result, ok, err, ◌>>=◌}
use kootha.Telemetry.Validation.Event.{validate_canonical_telemetry_event}
use kootha.Identity.Canonical.{canonicalize_stable_json}
use kootha.Identity.Event.{
  DigestProvider, CanonicalEventIdentityInput, CanonicalEventIdentity,
  create_canonical_event_identity,
}
use kootha.Host.Calls.{ServerContext}
use kootha.Host.Handler.{Normalized, event, invalid}
use kootha.Generic.{valid_input_event}
use kootha.Generic.Build.{
  adapter_id, adapter_version, normalize_observations, raw_observations, minus, canonical_material,
  event_of,
}

abbrev pub text_or_none : Option Value → Option Text
text_or_none (some (str text)) = some text
text_or_none _ = none

abbrev pub number_or_none : Option Value → Option Number
number_or_none (some (num n)) = some n
number_or_none _ = none

abbrev pub text_or_empty : Option Value → Text
text_or_empty (some (str text)) = text
text_or_empty _ = []

abbrev pub identity_input : Fields → Text → Text → Text → CanonicalEventIdentityInput
identity_input raw device captured_at hash = record {
  adapter_id = adapter_id;
  adapter_version = adapter_version;
  device_external_id = device;
  vendor_event_id = text_or_none (get_field "sourceEventId" raw);
  client_event_id = text_or_none (get_field "clientEventId" raw);
  captured_at = captured_at;
  stream_epoch = text_or_none (get_field "streamEpoch" raw);
  sequence = number_or_none (get_field "sequence" raw);
  canonical_payload_hash = hash;
}

-- A reason to refuse an event, in the place of an error of any kind.
abbrev pub or_reason {ε} : {E : Type ε} → {A : Type 0} → String → Result E A → Result String A
or_reason reason (err e) = err reason
or_reason reason (ok a) = ok a

abbrev pub or_missing : {A : Type 0} → String → Option A → Result String A
or_missing reason none = err reason
or_missing reason (some a) = ok a

-- The surroundings of the adapter: the language's numbers and dates, and the digest.
pub record Platform : Type 0 where
  pub fraction_text : ℕ → Text
  pub floor : ℕ → ℤ
  pub date_parse : Text → Option ℤ
  pub to_iso : ℤ → Text
  pub digest : DigestProvider

-- The two instants, where the first is printed as it was written.
abbrev pub instants : Platform → Text → Text → Result String (ℤ × ℤ)
instants platform captured_at received_at =
    or_missing "captured_time_invalid" (platform.date_parse captured_at) >>= λ captured.
    or_missing "captured_time_invalid" (platform.date_parse received_at) >>= λ received.
    if text_eq (platform.to_iso captured) captured_at
    then ok (captured, received)
    else err "captured_time_invalid"

abbrev pub with_identity :
    Platform
    → Fields
    → Text
    → Text
    → Text
    → ℤ × ℤ
    → Items
    → Text
    → Text
    → CanonicalEventIdentity
    → Result String Fields
with_identity platform raw device captured_at received_at times observations raw_text hash made =
    or_reason "canonical_event_invalid" (
      validate_canonical_telemetry_event platform.floor (
        obj (
          event_of raw (record {
            device = device;
            captured_at = captured_at;
            received_at = received_at;
            offset = minus times.1 times.0;
            observations = observations;
            raw_payload_hash = platform.digest.digest_utf8 raw_text;
            canonical_payload_hash = hash;
            identity = made.identity;
            event_id = platform.digest.digest_utf8 made.identity;
          }))))

abbrev pub with_observations :
    Platform → Fields → Text → Text → Text → ℤ × ℤ → Items → Result String Fields
with_observations platform raw device captured_at received_at times observations =
    or_reason "canonical_event_invalid" (canonicalize_stable_json platform.fraction_text (obj raw))
    >>= λ raw_text.
        or_reason "canonical_event_invalid" (
          canonicalize_stable_json platform.fraction_text
            (canonical_material raw device captured_at observations))
        >>= λ text.
            let hash = platform.digest.digest_utf8 text in
            or_reason "event_identity_invalid" (
              create_canonical_event_identity platform.fraction_text
                (identity_input raw device captured_at hash) platform.digest)
            >>= λ made.
                with_identity platform raw device captured_at received_at times observations
                  raw_text hash made

-- An event whose fields are valid.
unfoldable pub normalize_fields : Platform → Fields → Text → Text → Result String Fields
unfolding get_field normalize_observations canonicalize_stable_json canonical_material
    create_canonical_event_identity event_of validate_canonical_telemetry_event
normalize_fields platform raw device received_at =
    let captured_at = text_or_empty (get_field "capturedAt" raw) in
    instants platform captured_at received_at >>= λ times.
    or_missing "sensor_observation_unsupported"
      (normalize_observations (raw_observations (get_field "observations" raw)) captured_at device)
    >>= with_observations platform raw device captured_at received_at times

abbrev pub to_normalized : Result String Fields → Normalized Fields
to_normalized (err reason) = invalid (codes reason)
to_normalized (ok fields) = event fields

unfoldable pub normalize : Platform → Text → Value → ServerContext → Normalized Fields
unfolding normalize_fields valid_input_event units
normalize platform received_at (obj raw) context =
    if valid_input_event (obj raw)
    then to_normalized
        (normalize_fields platform raw (units context.authenticated_device_external_id) received_at)
    else invalid (codes "canonical_event_invalid")
normalize platform received_at _ context = invalid (codes "canonical_event_invalid")
