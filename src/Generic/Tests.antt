-- ===== src/Generic/Tests.antt =====
-- A batch with one event through the host and the generic adapter.
use kootha.Prelude.{ℕ, ◌≡◌, refl, Bool, true, false, Option, none, some, List, [], ◌∷◌, codes}
use kootha.Prelude.Number.{pos, negsuc, integer}
use kootha.Prelude.Json.{Text, Value, Fields, obj, arr, str, num, field, end, item, no_items}
use kootha.Prelude.Text.{split, to_lower}
use kootha.Host.Reply.{SafeTelemetryEventResult, accepted_live}
use kootha.Host.Calls.{value, ServerContext, authenticated, Call, persist_call, Dependencies}
use kootha.Host.Request.{
  Request, precheck, content_type_is_json, encoding_is_identity, check_length, read_json_body,
  read_chunks, estimated_event_count,
}
use kootha.Host.Handler.{
  Normalized, event, invalid, events, schema_invalid, handle, handle_reservation,
  handle_authentication, handle_body, handle_events, process,
}
use kootha.Telemetry.Timestamp.{
  match_strict_utc_iso, read_field, read_end, check_date_time, is_parsed, same_date_time,
}
use kootha.Telemetry.Calendar.{
  from_ms, find_year, to_ms, days_of_years, is_leap, days_of_months, find_month,
}
use kootha.Identity.Decimal.{point_text}
use kootha.Generic.{parse, acknowledge, Disposition}
use kootha.Generic.Normalize.{Platform, normalize}
use kootha.Generic.Hosted.{generic_adapter}

abbrev time : Text
time = codes "2026-01-01T00:00:00.000Z"

-- The one instant of this test.
abbrev platform : Platform
platform = record {
  fraction_text = point_text;
  floor = λ k. pos k;
  date_parse = λ t. some (pos 1767225600000);
  to_iso = λ z. time;
  digest = record { algorithm = codes "none"; digest_utf8 = λ t. codes "d" };
}

abbrev raw : Fields
raw = field "sourceEventId" (str (codes "e1")) (
    field "capturedAt" (str time) (
      field "observations"
        (arr (
          item
            (obj (
              field "metric" (str (codes "temperature")) (
                field "value" (num (integer (negsuc 4)))
                  (field "unit" (str (codes "celsius")) end))))
            no_items))
        end))

abbrev payload : Value
payload =
    obj (
      field "contractVersion" (str (codes "1"))
        (field "events" (arr (item (obj raw) no_items)) end))

-- An event that names a device is not taken.
abbrev foreign : Value
foreign = obj (
    field "contractVersion" (str (codes "1")) (
      field "events"
        (arr (item (obj (field "deviceExternalId" (str (codes "gps-2")) raw)) no_items)) end))

abbrev context : ServerContext
context = record {
  authenticated_device_id = "device";
  authenticated_device_external_id = "gps-1";
  credential_key_id = "key";
  credential_id = "credential";
}

parsed : parse payload 1 ≡ events (obj raw ∷ [])
unfolding parse
parsed = refl

refused : parse foreign 1 ≡ schema_invalid
unfolding parse
refused = refl

abbrev is_event : Normalized Fields → Bool
is_event (event e) = true
is_event (invalid reason) = false

accepted : is_event (normalize platform time (obj raw) context) ≡ true
unfolding normalize match_strict_utc_iso read_field read_end check_date_time is_parsed
    same_date_time from_ms find_year to_ms days_of_years is_leap days_of_months find_month
accepted = refl

abbrev json : List ℕ → Option Value
json bytes = some payload

abbrev stored : SafeTelemetryEventResult
stored = record {
  client_event_id = none;
  source_event_id = some (codes "e1");
  disposition = accepted_live;
  reason_code = codes "ok";
  retryable = false;
}

abbrev deps : Dependencies Fields
deps = record {
  reserve_unauthenticated = λ calls.
      value (record {
        allowed = true;
        retry_after_seconds = none;
        reservation_id = some "reservation";
      });
  authenticate = λ calls id. value (authenticated context);
  consume_limits = λ calls c n m. value (record { allowed = true; retry_after_seconds = none });
  persist = λ calls e c. value stored;
  record_rejections = none;
  aborted = λ calls n. false;
}

abbrev post : Request
post = record {
  method = "POST";
  content_type = some (codes "application/json");
  content_encoding = none;
  content_length = some (integer (pos 1));
  body = some ((49 ∷ []) ∷ []);
}

abbrev is_persist : {E : Type 0} → List (Call E) → Bool
is_persist (persist_call e c answer ∷ calls) = true
is_persist _ = false

-- The event of the batch is stored.
one_event : is_persist (handle deps (generic_adapter json platform time) post).1 ≡ true
unfolding handle generic_adapter normalize handle_reservation handle_authentication handle_body
    handle_events process precheck content_type_is_json encoding_is_identity check_length
    read_json_body read_chunks estimated_event_count match_strict_utc_iso read_field read_end
    check_date_time is_parsed same_date_time from_ms find_year to_ms days_of_years is_leap
    days_of_months find_month split to_lower
one_event = refl

one_refused :
    acknowledge (Disposition.accepted_live ∷ Disposition.duplicate_conflict ∷ []) ≡ record {
      status = "partially_accepted";
      accepted_count = 1;
      rejected_count = 1;
      retryable = false;
      reason_code = "partial_rejection";
    }
unfolding acknowledge
one_refused = refl
