-- ===== src/Host/Handler.antt =====
-- `createTelemetryHttpHandlerV1` of http-host-v2.ts. The adapter (`parse`, `normalize`) comes in as
-- functions: here they may be any.
use kootha.Prelude.{
  ℕ, ◌+◌, Bool, true, false, ◌&&◌, Option, none, some, List, [], ◌∷◌, ltb, if◌then◌else◌,
}
use kootha.Prelude.Number.{ℤ}
use kootha.Prelude.Json.{Text, Value}
use kootha.Host.Reply.{
  Response, error, report, SafeTelemetryEventResult, rejected, safe_result, safe_reference,
  summarize, retry_after, rate_limited, authentication_failed, request_too_large, request_malformed,
  event_limit_exceeded, request_schema_invalid, temporarily_unavailable,
}
use kootha.Host.Calls.{
  Outcome, value, thrown, ServerContext, Reservation, Authentication, authenticated, refused, Call,
  Dependencies, M, continue, ◌>>=◌, return, throw, call_reserve, call_authenticate, call_consume,
  call_persist, record_call,
}
use kootha.Host.Request.{
  Request, precheck, Body, ready, too_large, malformed, read_json_body, estimated_event_count,
}

pub data Parsed : Type 0 where
  events : List Value → Parsed
  batch_too_large : Parsed
  schema_invalid : Parsed

pub data Normalized (E : Type 0) : Type 0 where
  event : E → Normalized E
  invalid : Text → Normalized E

-- The adapter of the host, and the language's own reading of JSON from bytes.
pub record Adapter (E : Type 0) : Type 0 where
  pub json : List ℕ → Option Value
  pub parse : Value → ℕ → Parsed
  pub normalize : Value → ServerContext → Normalized E

-- The results of the events and the rejections that are kept for the record.
pub record Processed : Type 0 where
  pub results : List SafeTelemetryEventResult
  pub rejections : List (Value × Text)

abbrev pub with_result : SafeTelemetryEventResult → Processed → Processed
with_result r p = record p { results = r ∷ p.results }

abbrev pub with_rejection : Bool → Value × Text → Processed → Processed
with_rejection true r p = record p { rejections = r ∷ p.rejections }
with_rejection false r p = p

unfoldable pub rejected_result : Value → Text → SafeTelemetryEventResult
rejected_result raw reason = record {
  client_event_id = safe_reference raw "clientEventId";
  source_event_id = safe_reference raw "sourceEventId";
  disposition = rejected;
  reason_code = reason;
  retryable = false;
}

abbrev pub is_some {ℓ} : {A : Type ℓ} → Option A → Bool
is_some none = false
is_some (some a) = true

module _ {E : Type 0} (deps : Dependencies E) (adapter : Adapter E) where
  -- The loop over the events: `n` is the number of the look at the signal, `kept` that of the
  -- rejections kept before.
  unfoldable pub process : ServerContext → ℕ → ℕ → List Value → M E Processed
  process context n kept [] calls = (value (record { results = []; rejections = [] }), calls)
  process context n kept (raw ∷ raws) calls = elim (deps.aborted calls n) [
    | true ↦ throw calls
    | false ↦ elim (adapter.normalize raw context) [
      | invalid reason ↦
          let keep = is_some deps.record_rejections && ltb kept 10 in
          continue
            (λ rest.
              return
                (with_result (rejected_result raw reason) (with_rejection keep (raw, reason) rest)))
            (process context (n + 1) (if keep then kept + 1 else kept) raws calls)
      | event e ↦
          continue
            (λ answer calls'.
              continue (λ rest. return (with_result (safe_result answer) rest))
                (process context (n + 1) kept raws calls'))
            (call_persist deps e context calls)
    ]
  ]

  -- The record of the rejections, whose failure is caught on the spot.
  unfoldable pub record_rejections : ServerContext → List (Value × Text) → M E (Unit {0})
  record_rejections context [] calls = (value tt, calls)
  record_rejections context (r ∷ rs) calls = elim deps.record_rejections [
    | none ↦ (value tt, calls)
    | some recorder ↦
        let answer = recorder calls (r ∷ rs) context in
        (value tt, record_call (r ∷ rs) context answer ∷ calls)
  ]

  abbrev limited : Option ℤ → M E Response
  limited seconds = return (error 429 rate_limited true (some (retry_after seconds)))

  -- From the parsed batch on.
  unfoldable pub handle_events : ServerContext → Parsed → M E Response
  unfolding process record_rejections
  handle_events context batch_too_large = return (error 413 event_limit_exceeded false none)
  handle_events context schema_invalid = return (error 400 request_schema_invalid false none)
  handle_events context (events raws) = do
    processed ← process context 0 0 raws
    recorded ← record_rejections context processed.rejections
    return (report (summarize processed.results))

  -- From the body on.
  unfoldable pub handle_body : ServerContext → Outcome Body → M E Response
  handle_body context thrown = throw
  handle_body context (value too_large) = return (error 413 request_too_large false none)
  handle_body context (value malformed) = return (error 400 request_malformed false none)
  handle_body context (value (ready payload size)) =
      call_consume deps context 0 (estimated_event_count payload) >>= λ limit.
      if limit.allowed
      then handle_events context (adapter.parse payload size)
      else limited limit.retry_after_seconds

  abbrev read_body : Request → ServerContext → M E Response
  read_body request context calls =
      handle_body context (read_json_body adapter.json (deps.aborted calls) request.body) calls

  -- From the answer to the authentication on.
  unfoldable pub handle_authentication : Request → Authentication → M E Response
  handle_authentication request refused = return (error 401 authentication_failed false none)
  handle_authentication request (authenticated context) = call_consume deps context 1 0 >>= λ limit.
      if limit.allowed then read_body request context else limited limit.retry_after_seconds

  -- From the reservation on.
  unfoldable pub handle_reservation : Request → Reservation → M E Response
  handle_reservation request reservation =
      if reservation.allowed
      then elim reservation.reservation_id [
        | none ↦ throw
        | some id ↦ call_authenticate deps id >>= handle_authentication request
      ]
      else limited reservation.retry_after_seconds

  abbrev pub attempt : Request → Option Response → M E Response
  attempt request (some response) = return response
  attempt request none = call_reserve deps >>= handle_reservation request

  abbrev pub catch : Outcome Response × List (Call E) → Response × List (Call E)
  catch (value response, calls) = (response, calls)
  catch (thrown, calls) = (error 503 temporarily_unavailable true none, calls)

  -- The handler: the response, and the calls that it has made.
  unfoldable pub handle : Request → Response × List (Call E)
  handle request = catch (attempt request (precheck request) [])
