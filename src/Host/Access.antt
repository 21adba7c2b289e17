-- ===== src/Host/Access.antt =====
-- No event is handed on for storage unless the device was authenticated and both limits allowed it.
use kootha.Prelude.{
  ℕ, ◌≡◌, refl, inl, inr, ◌⊎◌, Bool, true, false, Option, none, some, List, [], ◌∷◌, String,
  if◌then◌else◌, Bool-cases, Option-cases,
}
use kootha.Host.Reply.{Response}
use kootha.Host.Calls.{
  Outcome, value, thrown, ServerContext, RateLimitResult, Reservation, Authentication,
  authenticated, refused, Call, Dependencies, M, continue, ◌>>=◌, return, call_reserve,
  call_authenticate, call_consume, reserve_call, authenticate_call, consume_call, persist_call,
  record_call,
}
use kootha.Host.Request.{
  Request, precheck, Body, ready, too_large, malformed, read_json_body, estimated_event_count,
}
use kootha.Host.Handler.{
  Adapter, Parsed, events, batch_too_large, schema_invalid, process, record_rejections,
  handle_events, handle_body, handle_authentication, handle_reservation, attempt, catch, handle,
}
use kootha.Host.Invariance.{continue_inv, process_inv, record_rejections_inv}

-- A call stands in the list.
abbrev pub In : {E : Type 0} → Call E → List (Call E) → Type 0
In c [] = ⊥
In c (d ∷ ds) = (c ≡ d) ⊎ In c ds

-- The context was authenticated.
abbrev pub IsAuthenticated : {E : Type 0} → ServerContext → List (Call E) → Type 0
IsAuthenticated context calls =
    (id : String) × In (authenticate_call id (value (authenticated context))) calls

-- A limit was asked for this many requests and events of the context, and allowed them.
abbrev pub IsAllowed : {E : Type 0} → ServerContext → ℕ → ℕ → List (Call E) → Type 0
IsAllowed context requests count calls =
    (limit : RateLimitResult) × (limit.allowed ≡ true)
    × In (consume_call context requests count (value limit)) calls

-- The device was authenticated, and both the request and some number of events were allowed.
abbrev pub IsGranted : {E : Type 0} → ServerContext → List (Call E) → Type 0
IsGranted context calls =
    IsAuthenticated context calls
    × IsAllowed context 1 0 calls
    × ((count : ℕ) × IsAllowed context 0 count calls)

-- Each call of `persist` came after the grant for its own context.
abbrev pub PersistsGranted : {E : Type 0} → List (Call E) → Type 0
PersistsGranted [] = Unit
PersistsGranted (persist_call e context answer ∷ calls) =
    IsGranted context calls × PersistsGranted calls
PersistsGranted (reserve_call answer ∷ calls) = PersistsGranted calls
PersistsGranted (authenticate_call id answer ∷ calls) = PersistsGranted calls
PersistsGranted (consume_call context n m answer ∷ calls) = PersistsGranted calls
PersistsGranted (record_call rs context answer ∷ calls) = PersistsGranted calls

module _ {E : Type 0} where
  pub IsAuthenticated-weaken :
      (context : ServerContext) (c : Call E) (calls : List (Call E))
      → IsAuthenticated context calls
      → IsAuthenticated context (c ∷ calls)
  IsAuthenticated-weaken context c calls (id, a) = (id, inr a)

  IsAllowed-weaken :
      (context : ServerContext) (n m : ℕ) (c : Call E) (calls : List (Call E))
      → IsAllowed context n m calls
      → IsAllowed context n m (c ∷ calls)
  IsAllowed-weaken context n m c calls (limit, ok, l) = (limit, ok, inr l)

  weaken :
      (context : ServerContext) (c : Call E) (calls : List (Call E))
      → IsGranted context calls
      → IsGranted context (c ∷ calls)
  weaken context c calls ((id, a), (limit, ok, l), (n, (limit', ok', l'))) =
      ((id, inr a), (limit, ok, inr l), (n, (limit', ok', inr l')))

module _ {E : Type 0} (deps : Dependencies E) (adapter : Adapter E) where
  handle_events-PersistsGranted :
      (context : ServerContext) (parsed : Parsed) (calls : List (Call E))
      → IsGranted context calls
      → PersistsGranted calls
      → PersistsGranted (handle_events deps adapter context parsed calls).1
  unfolding handle_events
  handle_events-PersistsGranted context batch_too_large calls g h = h
  handle_events-PersistsGranted context schema_invalid calls g h = h
  handle_events-PersistsGranted context (events raws) calls g h =
      (continue_inv P _ (process deps adapter context 0 0 raws calls)
        (process_inv deps adapter P context
          (λ raw e made answer cs p. (weaken context _ cs p.0, (p.0, p.1))) 0 0 raws calls (g, h))
        (λ processed cs p.
          continue_inv P _ (record_rejections deps adapter context processed.rejections cs)
            (record_rejections_inv deps adapter P context processed.rejections
              (λ answer ds q. (weaken context _ ds q.0, q.1)) cs p)
            (λ recorded ds q. q))).1
    where
      P : List (Call E) → Type 0
      P cs = IsGranted context cs × PersistsGranted cs

  -- The two ways on from a question about a limit.
  limit_inv :
      (context : ServerContext) (n m : ℕ) (go_on : M E Response)
      (after : RateLimitResult → Response) (calls : List (Call E))
      → PersistsGranted calls
      → ((limit : RateLimitResult)
          → limit.allowed ≡ true
          → PersistsGranted (go_on (consume_call context n m (value limit) ∷ calls)).1)
      → PersistsGranted
          ((call_consume deps context n m >>= λ limit.
              if limit.allowed then go_on else return (after limit))
            calls).1
  limit_inv context n m go_on after calls h k = go (deps.consume_limits calls context n m)
    where
      pick :
          (limit : RateLimitResult) (b : Bool)
          → limit.allowed ≡ b
          → PersistsGranted
              ((if b then go_on else return (after limit))
                (consume_call context n m (value limit) ∷ calls)).1
      pick limit true e = k limit e
      pick limit false e = h

      go :
          (answer : Outcome RateLimitResult)
          → PersistsGranted
              (continue
                (λ limit. if limit.allowed then go_on else return (after limit))
                (answer, consume_call context n m answer ∷ calls)).1
      go thrown = h
      go (value limit) = pick limit limit.allowed refl

  authenticate_inv :
      (id : String) (next : Authentication → M E Response) (calls : List (Call E))
      → PersistsGranted calls
      → ((answer : Authentication)
          → PersistsGranted (next answer (authenticate_call id (value answer) ∷ calls)).1)
      → PersistsGranted ((call_authenticate deps id >>= next) calls).1
  authenticate_inv id next calls h k = go (deps.authenticate calls id)
    where
      go :
          (answer : Outcome Authentication)
          → PersistsGranted (continue next (answer, authenticate_call id answer ∷ calls)).1
      go thrown = h
      go (value answer) = k answer

  handle_body-PersistsGranted :
      (context : ServerContext) (body : Outcome Body) (calls : List (Call E))
      → IsAuthenticated context calls
      → IsAllowed context 1 0 calls
      → PersistsGranted calls
      → PersistsGranted (handle_body deps adapter context body calls).1
  handle_body-PersistsGranted context thrown calls a l h = unfold handle_body in h
  handle_body-PersistsGranted context (value too_large) calls a l h = unfold handle_body in h
  handle_body-PersistsGranted context (value malformed) calls a l h = unfold handle_body in h
  handle_body-PersistsGranted context (value (ready payload size)) calls a l h =
      unfold handle_body in
      limit_inv context 0 (estimated_event_count payload) _ _ calls h (λ limit ok.
        handle_events-PersistsGranted context (adapter.parse payload size) _
          (
            IsAuthenticated-weaken context _ calls a,
            IsAllowed-weaken context 1 0 _ calls l,
            (estimated_event_count payload, (limit, ok, inl refl)),
          )
          h)

  handle_authentication-PersistsGranted :
      (id : String) (request : Request) (answer : Authentication) (calls : List (Call E))
      → In (authenticate_call id (value answer)) calls
      → PersistsGranted calls
      → PersistsGranted (handle_authentication deps adapter request answer calls).1
  handle_authentication-PersistsGranted id request refused calls a h =
      unfold handle_authentication in h
  handle_authentication-PersistsGranted id request (authenticated context) calls a h =
      unfold handle_authentication in
      limit_inv context 1 0 _ _ calls h (λ limit ok.
        handle_body-PersistsGranted context (read_json_body adapter.json _ request.body) _
          (id, inr a) (limit, ok, inl refl) h)

  handle_reservation-PersistsGranted :
      (request : Request) (reservation : Reservation) (calls : List (Call E))
      → PersistsGranted calls
      → PersistsGranted (handle_reservation deps adapter request reservation calls).1
  handle_reservation-PersistsGranted request reservation calls h =
      elim (Bool-cases reservation.allowed) [
        | inr e ↦ unfold handle_reservation in rw (e, handle_reservation) h
        | inl e ↦ elim (Option-cases reservation.reservation_id) [
          | inl f ↦ unfold handle_reservation in rw (e, handle_reservation) (rw f h)
          | inr (id, f) ↦
              unfold handle_reservation in
              rw (e, handle_reservation)
                (rw f (
                  authenticate_inv id (handle_authentication deps adapter request) calls h
                    (λ answer.
                      handle_authentication-PersistsGranted id request answer _ (inl refl) h)))
        ]
      ]

  -- Whatever the request, the adapter and the surroundings do, an event is given to storage only after
  -- its own context was authenticated, and after the limits allowed one request and a number of events.
  pub handle-PersistsGranted : (request : Request) → PersistsGranted (handle deps adapter request).1
  unfolding handle
  handle-PersistsGranted request =
      catch_inv (attempt deps adapter request (precheck request) []) (attempted (precheck request))
    where
      catch_inv :
          (r : Outcome Response × List (Call E))
          → PersistsGranted r.1
          → PersistsGranted (catch deps adapter r).1
      catch_inv (value response, calls) h = h
      catch_inv (thrown, calls) h = h

      attempted : (o : Option Response) → PersistsGranted (attempt deps adapter request o []).1
      attempted (some response) = tt
      attempted none =
          continue_inv PersistsGranted (handle_reservation deps adapter request)
            (call_reserve deps []) tt
            (λ reservation cs k. handle_reservation-PersistsGranted request reservation cs k)
