-- ===== src/Host/Tests.antt =====
-- The handler of http-host-v2.ts on a batch of two events, of which the adapter accepts the first.
use kootha.Prelude.{
  ℕ, ◌*◌, ◌≤◌, ◌<◌, ◌≡◌, refl, true, false, Option, none, some, List, [], ◌∷◌, codes, leb, length,
  filter, if◌then◌else◌, any, every,
}
use kootha.Prelude.Number.{pos, integer}
use kootha.Prelude.Json.{Value, str, obj, arr, item, no_items, field, end, get_field, Text}
use kootha.Prelude.Text.{text_eq, trim, to_lower, split, trim_start, is_space, has_control}
use kootha.Host.Reply.{
  error, report, Summary, SafeTelemetryEventResult, accepted_live, partially_accepted,
  authentication_failed, temporarily_unavailable, summarize, safe_result, safe_reference,
}
use kootha.Host.Calls.{
  Outcome, value, thrown, ServerContext, authenticated, refused, Call, Dependencies,
}
use kootha.Host.Request.{
  Request, precheck, content_type_is_json, encoding_is_identity, check_length, read_json_body,
  read_chunks, estimated_event_count, read_json_body_bounds,
}
use kootha.Host.Handler.{
  Adapter, events, event, invalid, handle, handle_reservation, handle_authentication, handle_body,
  handle_events, process, record_rejections, rejected_result,
}
use kootha.Host.Access.{PersistsGranted, handle-PersistsGranted}
use kootha.Host.Accounting.{IsAccounted, handle-IsAccounted}
use kootha.Host.BestEffort.{handle_reply}

abbrev good : Value
good = obj (field "clientEventId" (str (codes "e1")) end)

abbrev bad : Value
bad = obj (field "clientEventId" (str (codes "e2")) end)

abbrev payload : Value
payload = obj (field "events" (arr (item good (item bad no_items))) end)

abbrev context : ServerContext
context = record {
  authenticated_device_id = "device";
  authenticated_device_external_id = "gps-1";
  credential_key_id = "key";
  credential_id = "credential";
}

-- The adapter reads "1" as the payload above, and accepts an event with the client id "e1".
abbrev adapter : Adapter ℕ
adapter = record {
  json = λ bytes. if leb 1 (length bytes) then some payload else none;
  parse = λ v size. events (good ∷ bad ∷ []);
  normalize = λ v c. elim v [
    | obj fields ↦ elim (get_field "clientEventId" fields) [
      | some (str id) ↦ if text_eq id (codes "e1") then event 1 else invalid (codes "bad")
      | _ ↦ invalid (codes "bad")
    ]
    | _ ↦ invalid (codes "bad")
  ];
}

abbrev stored : SafeTelemetryEventResult
stored = record {
  client_event_id = some (codes "e1");
  source_event_id = none;
  disposition = accepted_live;
  reason_code = codes "ok";
  retryable = false;
}

abbrev deps : Dependencies ℕ
deps = record {
  reserve_unauthenticated = λ calls.
      value (record {
        allowed = true;
        retry_after_seconds = none;
        reservation_id = some "reservation";
      });
  authenticate = λ calls id. value (authenticated context);
  consume_limits = λ calls c n m. value (record { allowed = true; retry_after_seconds = none });
  persist = λ calls e c. value stored;
  record_rejections = none;
  aborted = λ calls n. false;
}

abbrev post : Request
post = record {
  method = "POST";
  content_type = some (codes "application/json; charset=utf-8");
  content_encoding = none;
  content_length = some (integer (pos 1));
  body = some ((49 ∷ []) ∷ []);
}

abbrev summary : Summary
unfolding rejected_result safe_reference has_control any get_field
summary = record {
  status = partially_accepted;
  accepted_count = 1;
  rejected_count = 1;
  retryable = false;
  results = stored ∷ rejected_result bad (codes "bad") ∷ [];
}

-- The one accepted event is stored, and the report has one result for each of the two.
two_events : (handle deps adapter post).0 ≡ report summary
unfolding handle handle_reservation handle_authentication handle_body handle_events process
    record_rejections precheck content_type_is_json encoding_is_identity check_length read_json_body
    read_chunks estimated_event_count summarize safe_result rejected_result safe_reference
    has_control any every get_field trim to_lower split trim_start is_space filter
two_events = refl

-- A recorder that throws.
abbrev failing : Option (List (Call ℕ) → List (Value × Text) → ServerContext → Outcome (Unit {0}))
failing = some λ calls rs c. thrown

-- Without a device there is no report.
no_device :
    (handle (record deps { authenticate = λ calls id. value refused }) adapter post).0
    ≡ error 401 authentication_failed false none
unfolding handle handle_reservation handle_authentication precheck content_type_is_json
    encoding_is_identity check_length every trim to_lower split trim_start is_space
no_device = refl

-- An exception of the store is reported as the service's.
store_fails :
    (handle (record deps { persist = λ calls e c. thrown }) adapter post).0
    ≡ error 503 temporarily_unavailable true none
unfolding handle handle_reservation handle_authentication handle_body handle_events process precheck
    content_type_is_json encoding_is_identity check_length read_json_body read_chunks
    estimated_event_count every trim to_lower split trim_start is_space get_field
store_fails = refl

handle-PersistsGranted_example : PersistsGranted (handle deps adapter post).1
handle-PersistsGranted_example = handle-PersistsGranted deps adapter post

handle-IsAccounted_example : IsAccounted deps adapter post summary (handle deps adapter post).1
handle-IsAccounted_example = handle-IsAccounted deps adapter post summary two_events

handle_reply_example :
    (handle deps adapter post).0
    ≡ (handle (record deps { record_rejections = failing }) adapter post).0
handle_reply_example = handle_reply deps adapter failing post

read_json_body_bounds_example : (3 ≤ 256 * 1024) × (0 < 3)
unfolding read_json_body read_chunks
read_json_body_bounds_example =
    read_json_body_bounds (λ bytes. some payload) (λ n. false)
      (some ((49 ∷ []) ∷ (50 ∷ 51 ∷ []) ∷ [])) payload 3 refl
