-- ===== src/Host/BestEffort.antt =====
-- What becomes of the record of rejections does not show in the response.
use kootha.Prelude.{
  ℕ, ◌+◌, ◌≡◌, refl, sym, ap, ◌∙◌, inl, inr, Bool, true, false, ◌&&◌, Option, none, some, List, [],
  ◌∷◌, String, arith, ltb, if◌then◌else◌, Bool-cases, Option-cases,
}
use kootha.Prelude.Json.{Text, Value}
use kootha.Host.Reply.{Response, report, SafeTelemetryEventResult, safe_result, summarize}
use kootha.Host.Calls.{
  Outcome, value, thrown, ServerContext, Reservation, Authentication, authenticated, refused, Call,
  Dependencies, M, continue, ◌>>=◌, return, throw, call_reserve, call_authenticate, call_consume,
  call_persist,
}
use kootha.Host.Request.{
  Request, precheck, Body, ready, too_large, malformed, estimated_event_count,
}
use kootha.Host.Handler.{
  Adapter, Parsed, events, batch_too_large, schema_invalid, Processed, with_result, with_rejection,
  rejected_result, process, record_rejections, handle_events, handle_body, handle_authentication,
  handle_reservation, attempt, catch, handle, is_some,
}
use kootha.Host.Invariance.{Normalized-cases}

-- The results of the loop without the rejections that it keeps.
abbrev results_of :
    {E : Type 0}
    → Outcome Processed × List (Call E)
    → Outcome (List SafeTelemetryEventResult) × List (Call E)
results_of (value p, calls) = (value p.results, calls)
results_of (thrown, calls) = (thrown, calls)

abbrev cons_result :
    {E : Type 0}
    → SafeTelemetryEventResult
    → Outcome (List SafeTelemetryEventResult) × List (Call E)
    → Outcome (List SafeTelemetryEventResult) × List (Call E)
cons_result r (value rs, calls) = (value (r ∷ rs), calls)
cons_result r (thrown, calls) = (thrown, calls)

abbrev reply_of :
    {E : Type 0} → Outcome (List SafeTelemetryEventResult) × List (Call E) → Outcome Response
reply_of (value rs, calls) = value (report (summarize rs))
reply_of (thrown, calls) = thrown

module _ {E : Type 0} where
  results_of-reject :
      (r : SafeTelemetryEventResult) (b : Bool) (x : Value × Text)
      (o : Outcome Processed × List (Call E))
      → results_of (continue (λ rest. return (with_result r (with_rejection b x rest))) o)
        ≡ cons_result r (results_of o)
  results_of-reject r true x (value p, calls) = refl
  results_of-reject r false x (value p, calls) = refl
  results_of-reject r b x (thrown, calls) = refl

  results_of-persist :
      (r : SafeTelemetryEventResult) (o : Outcome Processed × List (Call E))
      → results_of (continue (λ rest. return (with_result r rest)) o) ≡ cons_result r (results_of o)
  results_of-persist r (value p, calls) = refl
  results_of-persist r (thrown, calls) = refl

  results_of-continue :
      {A : Type 0} (f g : A → M E Processed) (o : Outcome A × List (Call E))
      → ((a : A) (calls : List (Call E)) → results_of (f a calls) ≡ results_of (g a calls))
      → results_of (continue f o) ≡ results_of (continue g o)
  results_of-continue f g (value a, calls) h = h a calls
  results_of-continue f g (thrown, calls) h = refl

  continue_reply :
      {A : Type 0} (f g : A → M E Response) (o : Outcome A × List (Call E))
      → ((a : A) (calls : List (Call E)) → (f a calls).0 ≡ (g a calls).0)
      → (continue f o).0 ≡ (continue g o).0
  continue_reply f g (value a, calls) h = h a calls
  continue_reply f g (thrown, calls) h = refl

  pick_reply :
      (b : Bool) (f g h : M E Response) (calls : List (Call E))
      → (f calls).0 ≡ (g calls).0
      → ((if b then f else h) calls).0 ≡ ((if b then g else h) calls).0
  pick_reply true f g h calls k = k
  pick_reply false f g h calls k = refl

module _ {E : Type 0} (deps : Dependencies E) (adapter : Adapter E)
    (other : Option
      (List (Call E) → List (Value × Text) → ServerContext → Outcome (Unit {0}))) where
  abbrev deps' : Dependencies E
  deps' = record deps { record_rejections = other }

  process_same :
      (context : ServerContext) (n k j : ℕ) (raws : List Value) (calls : List (Call E))
      → results_of (process deps adapter context n k raws calls)
        ≡ results_of (process deps' adapter context n j raws calls)
  unfolding process
  process_same context n k j [] calls = refl
  process_same context n k j (raw ∷ raws) calls = elim (Bool-cases (deps.aborted calls n)) [
    | inl e ↦ rw (e, process) refl
    | inr e ↦ elim (Normalized-cases (adapter.normalize raw context)) [
      | inl (x, f) ↦
          rw (e, process)
            (rw f (
              results_of-continue _ _ (call_persist deps x context calls) (λ answer calls'.
                results_of-persist (safe_result answer)
                  (process deps adapter context (n + 1) k raws calls')
                ∙ ap (cons_result (safe_result answer))
                    (process_same context (n + 1) k j raws calls')
                ∙ sym (
                    results_of-persist (safe_result answer)
                      (process deps' adapter context (n + 1) j raws calls')))))
      | inr (reason, f) ↦
          let keep = is_some deps.record_rejections && ltb k 10 in
          let keep' = is_some other && ltb j 10 in
          let k' = (if keep then k + 1 else k) in
          let j' = (if keep' then j + 1 else j) in
          rw (e, process)
            (rw f (
              results_of-reject (rejected_result raw reason) keep (raw, reason)
                (process deps adapter context (n + 1) k' raws calls)
              ∙ ap (cons_result (rejected_result raw reason))
                  (process_same context (n + 1) k' j' raws calls)
              ∙ sym (
                  results_of-reject (rejected_result raw reason) keep' (raw, reason)
                    (process deps' adapter context (n + 1) j' raws calls))))
    ]
  ]

  -- The record of rejections never throws, so what follows it is reached.
  after_record :
      (d : Dependencies E) (context : ServerContext) (rs : List (Value × Text))
      (response : Response) (calls : List (Call E))
      → (continue
          (λ (u : Unit {0}). return response)
          (record_rejections d adapter context rs calls)).0
        ≡ value response
  unfolding record_rejections
  after_record d context [] response calls = refl
  after_record d context (r ∷ rs) response calls = elim (Option-cases d.record_rejections) [
    | inl e ↦ rw (e, record_rejections) refl
    | inr (f, e) ↦ rw (e, record_rejections) refl
  ]

  events_reply :
      (d : Dependencies E) (context : ServerContext) (raws : List Value) (calls : List (Call E))
      → (handle_events d adapter context (events raws) calls).0
        ≡ reply_of (results_of (process d adapter context 0 0 raws calls))
  unfolding handle_events
  events_reply d context raws calls = go (process d adapter context 0 0 raws calls)
    where
      go :
          (o : Outcome Processed × List (Call E))
          → (continue
              (λ processed. record_rejections d adapter context processed.rejections >>= λ recorded.
                return (report (summarize processed.results)))
              o).0
            ≡ reply_of (results_of o)
      go (value p, cs) = after_record d context p.rejections (report (summarize p.results)) cs
      go (thrown, cs) = refl

  handle_events_reply :
      (context : ServerContext) (parsed : Parsed) (calls : List (Call E))
      → (handle_events deps adapter context parsed calls).0
        ≡ (handle_events deps' adapter context parsed calls).0
  handle_events_reply context batch_too_large calls = unfold handle_events in refl
  handle_events_reply context schema_invalid calls = unfold handle_events in refl
  handle_events_reply context (events raws) calls =
      events_reply deps context raws calls
      ∙ ap reply_of (process_same context 0 0 0 raws calls)
      ∙ sym (events_reply deps' context raws calls)

  handle_body_reply :
      (context : ServerContext) (body : Outcome Body) (calls : List (Call E))
      → (handle_body deps adapter context body calls).0
        ≡ (handle_body deps' adapter context body calls).0
  unfolding handle_body
  handle_body_reply context thrown calls = refl
  handle_body_reply context (value too_large) calls = refl
  handle_body_reply context (value malformed) calls = refl
  handle_body_reply context (value (ready payload size)) calls =
      continue_reply _ _ (call_consume deps context 0 (estimated_event_count payload) calls)
        (λ limit calls'.
          pick_reply limit.allowed _ _ _ calls'
            (handle_events_reply context (adapter.parse payload size) calls'))

  handle_authentication_reply :
      (request : Request) (answer : Authentication) (calls : List (Call E))
      → (handle_authentication deps adapter request answer calls).0
        ≡ (handle_authentication deps' adapter request answer calls).0
  unfolding handle_authentication
  handle_authentication_reply request refused calls = refl
  handle_authentication_reply request (authenticated context) calls =
      continue_reply _ _ (call_consume deps context 1 0 calls)
        (λ limit calls'. pick_reply limit.allowed _ _ _ calls' (handle_body_reply context _ calls'))

  handle_reservation_reply :
      (request : Request) (reservation : Reservation) (calls : List (Call E))
      → (handle_reservation deps adapter request reservation calls).0
        ≡ (handle_reservation deps' adapter request reservation calls).0
  unfolding handle_reservation
  handle_reservation_reply request reservation calls =
      pick_reply reservation.allowed _ _ _ calls (identified reservation.reservation_id)
    where
      identified :
          (o : Option String)
          → ((elim o as (λ x. M E Response) [
            | none ↦ throw
            | some id ↦ call_authenticate deps id >>= handle_authentication deps adapter request
          ])
              calls).0
            ≡ ((elim o as (λ x. M E Response) [
              | none ↦ throw
              | some id ↦ call_authenticate deps' id >>= handle_authentication deps' adapter request
            ])
                calls).0
      identified none = refl
      identified (some id) =
          continue_reply _ _ (call_authenticate deps id calls)
            (λ answer calls'. handle_authentication_reply request answer calls')

  catch_reply :
      (r r' : Outcome Response × List (Call E))
      → r.0 ≡ r'.0
      → (catch deps adapter r).0 ≡ (catch deps' adapter r').0
  catch_reply (value x, cs) (value y, ds) h = ground arith
  catch_reply (value x, cs) (thrown, ds) h = cc
  catch_reply (thrown, cs) (value y, ds) h = cc
  catch_reply (thrown, cs) (thrown, ds) h = refl

  -- Recording rejections cannot alter the response: it is the same with any other recorder, with one that
  -- throws, and with none.
  pub handle_reply :
      (request : Request) → (handle deps adapter request).0 ≡ (handle deps' adapter request).0
  unfolding handle
  handle_reply request =
      catch_reply (attempt deps adapter request (precheck request) [])
        (attempt deps' adapter request (precheck request) []) (attempted (precheck request))
    where
      attempted :
          (o : Option Response)
          → (attempt deps adapter request o []).0 ≡ (attempt deps' adapter request o []).0
      attempted (some response) = refl
      attempted none =
          continue_reply _ _ (call_reserve deps [])
            (λ reservation calls. handle_reservation_reply request reservation calls)
