-- ===== src/Host/Accounting.antt =====
-- What a report of the host says of the events of its batch.
use kootha.Prelude.{
  ℕ, ◌+◌, ◌≤◌, ◌≡◌, refl, sym, ap, subst, ◌∙◌, inl, Bool, true, false, Option, none, some, List, [],
  ◌∷◌, ◌++◌, String, arith, if◌then◌else◌, length,
}
use kootha.Prelude.Json.{Text, Value}
use kootha.Host.Reply.{
  Response, Reason, error, report, SafeTelemetryEventResult, safe_result, summarize, Summary,
  is_rejection,
}
use kootha.Host.Calls.{
  Outcome, value, thrown, ServerContext, Reservation, Authentication, authenticated, refused, Call,
  Dependencies, M, continue, ◌>>=◌, return, throw, call_reserve, call_authenticate, call_consume,
  call_persist, reserve_call, authenticate_call, consume_call, persist_call, record_call,
}
use kootha.Host.Request.{
  Request, precheck, check_length, Body, ready, too_large, malformed, read_json_body,
  estimated_event_count,
}
use kootha.Host.Handler.{
  Adapter, Parsed, events, batch_too_large, schema_invalid, Normalized, event, invalid, Processed,
  with_result, process, record_rejections, handle_events, handle_body, handle_authentication,
  handle_reservation, attempt, catch, handle,
}
use kootha.Host.Invariance.{
  stops, rejects, persists, round, continue-value, process_inv, record_rejections_inv,
}
use kootha.Host.Access.{IsAuthenticated, IsAuthenticated-weaken}
use kootha.Prelude.{append_assoc, append-nil, subst₂, filter, count, count-not, length-filter-count}

-- The events that were given to storage, each with the context that it was given with, oldest first.
abbrev pub persisted : {E : Type 0} → List (Call E) → List (E × ServerContext)
persisted [] = []
persisted (persist_call e context answer ∷ calls) = persisted calls ++ (e, context) ∷ []
persisted (reserve_call answer ∷ calls) = persisted calls
persisted (authenticate_call id answer ∷ calls) = persisted calls
persisted (consume_call context n m answer ∷ calls) = persisted calls
persisted (record_call rs context answer ∷ calls) = persisted calls

abbrev keep_event :
    {E : Type 0}
    → ServerContext
    → Normalized E
    → List (E × ServerContext)
    → List (E × ServerContext)
keep_event context (event e) es = (e, context) ∷ es
keep_event context (invalid reason) es = es

-- The raw events that the adapter accepts, as it normalizes them for a context, with that context.
abbrev pub normalized :
    {E : Type 0} → Adapter E → ServerContext → List Value → List (E × ServerContext)
normalized adapter context [] = []
normalized adapter context (raw ∷ raws) =
    keep_event context (adapter.normalize raw context) (normalized adapter context raws)

module _ {E : Type 0} (deps : Dependencies E) (adapter : Adapter E) where
  -- What a loop that is not cut short has done with its events.
  record IsDone (context : ServerContext) (kept : ℕ) (raws : List Value) (calls : List (Call E))
      (p : Processed) (after : List (Call E)) : Type 0 where
    counted : length p.results ≡ length raws
    limited : kept ≤ 10 → kept + length p.rejections ≤ 10
    stored : persisted after ≡ persisted calls ++ normalized adapter context raws

  process-IsDone :
      (context : ServerContext) (n kept : ℕ) (raws : List Value) (calls : List (Call E))
      (p : Processed)
      → (process deps adapter context n kept raws calls).0 ≡ value p
      → IsDone context kept raws calls p (process deps adapter context n kept raws calls).1
  process-IsDone context n kept [] calls p h =
      unfold process in
      record {
        counted = ground arith;
        limited = ground arith;
        stored = sym (append-nil (persisted calls));
      }
  process-IsDone context n kept (raw ∷ raws) calls p h =
      elim (round deps adapter context n kept raw raws calls) [
        | stops e ↦ absurd (cc (ap (λ (r : Outcome Processed × List (Call E)). r.0) e))
        | rejects reason keep kept' f g g' e ↦
            let (rest, done, result, eq) =
              continue-value _ (process deps adapter context (n + 1) kept' raws calls) p
                (sym (ap (λ (r : Outcome Processed × List (Call E)). r.0) e) ∙ h) in
            let ih = process-IsDone context (n + 1) kept' raws calls rest done in
            subst (IsDone context kept (raw ∷ raws) calls p)
              (sym (ap (λ (r : Outcome Processed × List (Call E)). r.1) (e ∙ eq)))
              (record {
                counted = ground (arith, result, ih.counted);
                limited = ground (arith, result, ih.limited, g, g');
                stored = rw f ih.stored;
              })
        | persists x f e ↦
            let first = deps.persist calls x context in
            let (answer, _, later, eq) =
              continue-value _ (call_persist deps x context calls) p
                (sym (ap (λ (r : Outcome Processed × List (Call E)). r.0) e) ∙ h) in
            let calls' = persist_call x context first ∷ calls in
            let (rest, done, result, eq') =
              continue-value (λ (q : Processed). return (with_result (safe_result answer) q))
                (process deps adapter context (n + 1) kept raws calls') p later in
            let ih = process-IsDone context (n + 1) kept raws calls' rest done in
            subst (IsDone context kept (raw ∷ raws) calls p)
              (sym (ap (λ (r : Outcome Processed × List (Call E)). r.1) (e ∙ eq ∙ eq')))
              (record {
                counted = ground (arith, result, ih.counted);
                limited = ground (arith, result, ih.limited);
                stored = rw f (
                    ih.stored
                    ∙ append_assoc (persisted calls) ((x, context) ∷ [])
                        (normalized adapter context raws));
              })
      ]

  pub record_rejections-persisted :
      (context : ServerContext) (rs : List (Value × Text)) (calls : List (Call E))
      → persisted (record_rejections deps adapter context rs calls).1 ≡ persisted calls
  record_rejections-persisted context rs calls =
      record_rejections_inv deps adapter (λ cs. persisted cs ≡ persisted calls) context rs
        (λ answer cs h. h) calls refl

length-filter-le {ℓ} : {A : Type ℓ} (p : A → Bool) (xs : List A) → length (filter p xs) ≤ length xs
length-filter-le p xs = omega (arith, length-filter-count p xs, count-not p xs)

summarize_counts :
    (results : List SafeTelemetryEventResult)
    → ((summarize results).accepted_count + (summarize results).rejected_count ≡ length results)
      × ((summarize results).rejected_count ≡ count is_rejection results)
unfolding summarize
summarize_counts results =
    (omega (arith, length-filter-le is_rejection results), length-filter-count is_rejection results)

summarize-results :
    (results : List SafeTelemetryEventResult) → (summarize results).results ≡ results
unfolding summarize
summarize-results results = refl

precheck_no_report : (request : Request) (s : Summary) → precheck request ≡ some (report s) → ⊥
unfolding precheck check_length
precheck_no_report request s h = ground arith

-- A report stands for one batch, which the adapter parsed from the body of the request: a result for each
-- of its events, each counted as accepted or rejected, the rejected ones being those with a rejecting
-- disposition; and storage was given, once and in order, just the events that the adapter normalizes for
-- a context that was authenticated, with that context.
pub record IsAccounted {E : Type 0} (deps : Dependencies E) (adapter : Adapter E)
    (request : Request) (s : Summary) (calls : List (Call E)) : Type 0 where
  pub context : ServerContext
  pub is_authenticated : IsAuthenticated context calls
  pub before : List (Call E)
  pub payload : Value
  pub size : ℕ
  pub read :
      read_json_body adapter.json (deps.aborted before) request.body ≡ value (ready payload size)
  pub raws : List Value
  pub parsed : adapter.parse payload size ≡ events raws
  pub answered : length s.results ≡ length raws
  pub counted : s.accepted_count + s.rejected_count ≡ length raws
  pub rejections : s.rejected_count ≡ count is_rejection s.results
  pub stored : persisted calls ≡ normalized adapter context raws

module _ {E : Type 0} (deps : Dependencies E) (adapter : Adapter E) (request : Request) where
  abbrev Accounted : Outcome Response × List (Call E) → Type 0
  Accounted r = (s : Summary) → r.0 ≡ value (report s) → IsAccounted deps adapter request s r.1

  -- What holds of the calls before the loop over the events.
  abbrev IsReady : ServerContext → List (Call E) → Type 0
  IsReady context calls = IsAuthenticated context calls × (persisted calls ≡ [])

  continue-Accounted :
      {A : Type 0} (f : A → M E Response) (r : Outcome A × List (Call E))
      → ((a : A) → r.0 ≡ value a → Accounted (f a r.1))
      → Accounted (continue f r)
  continue-Accounted f (value a, calls) k = k a refl
  continue-Accounted f (thrown, calls) k = λ s e. cc

  pick-Accounted :
      (b : Bool) (go_on : M E Response) (status : ℕ) (reason : Reason) (retryable : Bool)
      (after : Option ℕ) (calls : List (Call E))
      → Accounted (go_on calls)
      → Accounted ((if b then go_on else return (error status reason retryable after)) calls)
  pick-Accounted true go_on status reason retryable after calls h = h
  pick-Accounted false go_on status reason retryable after calls h = λ s e. cc

  still-IsAuthenticated :
      (context : ServerContext) (raws : List Value) (rejected : List (Value × Text))
      (calls : List (Call E))
      → IsAuthenticated context calls
      → IsAuthenticated context
          (record_rejections deps adapter context rejected
            (process deps adapter context 0 0 raws calls).1).1
  still-IsAuthenticated context raws rejected calls a =
      record_rejections_inv deps adapter (IsAuthenticated context) context rejected
        (λ answer cs. IsAuthenticated-weaken context _ cs) _
        (process_inv deps adapter (IsAuthenticated context) context
          (λ raw e made answer cs. IsAuthenticated-weaken context _ cs) 0 0 raws calls a)

  handle_events-Accounted :
      (context : ServerContext) (before : List (Call E)) (payload : Value) (size : ℕ)
      (parsed : Parsed) (calls : List (Call E))
      → read_json_body adapter.json (deps.aborted before) request.body ≡ value (ready payload size)
      → adapter.parse payload size ≡ parsed
      → IsReady context calls
      → Accounted (handle_events deps adapter context parsed calls)
  unfolding handle_events
  handle_events-Accounted context before payload size batch_too_large calls b q h = λ s e. cc
  handle_events-Accounted context before payload size schema_invalid calls b q h = λ s e. cc
  handle_events-Accounted context before payload size (events raws) calls b q h = λ s e.
      let (p, done, later, eq) =
        continue-value _ (process deps adapter context 0 0 raws calls) (report s) e in
      let calls' = (process deps adapter context 0 0 raws calls).1 in
      let (u, _, last, eq') =
        continue-value (λ (x : Unit {0}). return (report (summarize p.results)))
          (record_rejections deps adapter context p.rejections calls') (report s) later in
      let d = process-IsDone deps adapter context 0 0 raws calls p done in
      let same : summarize p.results ≡ s = ground (arith, last) in
      subst₂
        (λ (x : Summary) (r : Outcome Response × List (Call E)).
          IsAccounted deps adapter request x r.1)
        same (sym (eq ∙ eq'))
        (record {
          context = context;
          is_authenticated = still-IsAuthenticated context raws p.rejections calls h.0;
          before = before;
          payload = payload;
          size = size;
          read = b;
          raws = raws;
          parsed = q;
          answered = ap length (summarize-results p.results) ∙ d.counted;
          counted = (summarize_counts p.results).0 ∙ d.counted;
          rejections =
              (summarize_counts p.results).1
              ∙ ap (count is_rejection) (sym (summarize-results p.results));
          stored =
              record_rejections-persisted deps adapter context p.rejections calls'
              ∙ d.stored
              ∙ ap (λ (es : List (E × ServerContext)). es ++ normalized adapter context raws) h.1;
        })

  handle_body-Accounted :
      (context : ServerContext) (before : List (Call E)) (body : Outcome Body)
      (calls : List (Call E))
      → read_json_body adapter.json (deps.aborted before) request.body ≡ body
      → IsReady context calls
      → Accounted (handle_body deps adapter context body calls)
  unfolding handle_body
  handle_body-Accounted context before thrown calls b h = λ s e. cc
  handle_body-Accounted context before (value too_large) calls b h = λ s e. cc
  handle_body-Accounted context before (value malformed) calls b h = λ s e. cc
  handle_body-Accounted context before (value (ready payload size)) calls b h =
      let counted = call_consume deps context 0 (estimated_event_count payload) calls in
      continue-Accounted _ counted (λ limit made. pick-Accounted limit.allowed _ _ _ _ _ counted.1 (
        handle_events-Accounted context before payload size (adapter.parse payload size) counted.1 b
          refl (IsAuthenticated-weaken context _ calls h.0, h.1)))

  handle_authentication-Accounted :
      (answer : Authentication) (calls : List (Call E))
      → ((context : ServerContext) → answer ≡ authenticated context → IsReady context calls)
      → Accounted (handle_authentication deps adapter request answer calls)
  unfolding handle_authentication
  handle_authentication-Accounted refused calls h = λ s e. cc
  handle_authentication-Accounted (authenticated context) calls h =
      let counted = call_consume deps context 1 0 calls in
      let (a, none_yet) = h context refl in
      continue-Accounted _ counted (λ limit made. pick-Accounted limit.allowed _ _ _ _ _ counted.1 (
        handle_body-Accounted context counted.1 _ counted.1 refl
          (IsAuthenticated-weaken context _ calls a, none_yet)))

  handle_reservation-Accounted :
      (reservation : Reservation) (calls : List (Call E))
      → persisted calls ≡ []
      → Accounted (handle_reservation deps adapter request reservation calls)
  unfolding handle_reservation
  handle_reservation-Accounted reservation calls h =
      pick-Accounted reservation.allowed _ _ _ _ _ calls (identified reservation.reservation_id)
    where
      identified :
          (o : Option String)
          → Accounted (
              (elim o as (λ x. M E Response) [
                | none ↦ throw
                | some id ↦ call_authenticate deps id >>= handle_authentication deps adapter request
              ])
                calls)
      identified none = λ s e. cc
      identified (some id) =
          let asked = call_authenticate deps id calls in
          continue-Accounted _ asked (λ answer made.
            handle_authentication-Accounted answer asked.1 (λ context found.
              ((id, inl (ap (authenticate_call id) (sym (made ∙ ap value found)))), h)))

  attempt-Accounted :
      (o : Option Response)
      → ((s : Summary) → o ≡ some (report s) → ⊥)
      → Accounted (attempt deps adapter request o [])
  attempt-Accounted (some response) no_report = λ s e. absurd (no_report s (ground arith))
  attempt-Accounted none no_report =
      continue-Accounted (handle_reservation deps adapter request) (call_reserve deps [])
        (λ reservation made. handle_reservation-Accounted reservation (call_reserve deps []).1 refl)

  catch_report :
      (r : Outcome Response × List (Call E)) (s : Summary)
      → (catch deps adapter r).0 ≡ report s
      → (r.0 ≡ value (report s)) × ((catch deps adapter r).1 ≡ r.1)
  catch_report (value response, calls) s h = (ap value h, refl)
  catch_report (thrown, calls) s h = cc

  -- A report of the handler is on a batch that the adapter parsed from the request's own body: it has one
  -- result for each raw event, its two counts add up to their number, the rejected count is that of its
  -- results, and what was given to storage are the events that the adapter accepts, in order, normalized
  -- for, and stored with, a context that the authentication of this request has returned.
  pub handle-IsAccounted :
      (s : Summary)
      → (handle deps adapter request).0 ≡ report s
      → IsAccounted deps adapter request s (handle deps adapter request).1
  unfolding handle
  handle-IsAccounted s h =
      let r = attempt deps adapter request (precheck request) [] in
      let (v, same) = catch_report r s h in
      subst (IsAccounted deps adapter request s) (sym same)
        (attempt-Accounted (precheck request) (λ t e. precheck_no_report request t e) s v)
