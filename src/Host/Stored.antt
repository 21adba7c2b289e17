-- ===== src/Host/Stored.antt =====
-- What holds of every event that the handler gives to storage: what the adapter makes sure of.
use kootha.Prelude.{
  ℕ, ◌≡◌, refl, inl, inr, ◌⊎◌, All, All-map_imp, Bool, true, false, Option, none, some, List, [],
  ◌∷◌, String, if◌then◌else◌,
}
use kootha.Prelude.Json.{Value}
use kootha.Host.Reply.{Response}
use kootha.Host.Calls.{
  Outcome, value, thrown, ServerContext, Reservation, Authentication, authenticated, refused, Call,
  Dependencies, M, ◌>>=◌, throw, call_reserve, call_authenticate, call_consume, reserve_call,
  authenticate_call, consume_call, persist_call, record_call,
}
use kootha.Host.Request.{
  Request, precheck, Body, ready, too_large, malformed, read_json_body, estimated_event_count,
}
use kootha.Host.Handler.{
  Adapter, Parsed, events, event, batch_too_large, schema_invalid, process, record_rejections,
  handle_events, handle_body, handle_authentication, handle_reservation, attempt, catch, handle,
}
use kootha.Host.Invariance.{continue_inv, process_inv_of, record_rejections_inv}

-- Every event that was given to storage has the property, with the context that it was given with.
abbrev pub AllStored : {E : Type 0} → (E → ServerContext → Type 0) → List (Call E) → Type 0
AllStored Q [] = Unit
AllStored Q (persist_call e context answer ∷ calls) = Q e context × AllStored Q calls
AllStored Q (reserve_call answer ∷ calls) = AllStored Q calls
AllStored Q (authenticate_call id answer ∷ calls) = AllStored Q calls
AllStored Q (consume_call context n m answer ∷ calls) = AllStored Q calls
AllStored Q (record_call rs context answer ∷ calls) = AllStored Q calls

abbrev Elem : Value → List Value → Type 0
Elem v [] = ⊥
Elem v (w ∷ ws) = (v ≡ w) ⊎ Elem v ws

all_elements : (vs : List Value) → All (λ v. Elem v vs) vs
all_elements [] = tt
all_elements (v ∷ vs) = (inl refl, All-map_imp vs (λ w e. inr e) (all_elements vs))

-- A raw event of the request: one of the batch that the adapter parses from its body.
pub record IsRaw {E : Type 0} (deps : Dependencies E) (adapter : Adapter E) (request : Request)
    (raw : Value) : Type 0 where
  pub before : List (Call E)
  pub payload : Value
  pub size : ℕ
  pub read :
      read_json_body adapter.json (deps.aborted before) request.body ≡ value (ready payload size)
  pub raws : List Value
  pub parsed : adapter.parse payload size ≡ events raws
  pub stands : Elem raw raws

module _ {E : Type 0} (deps : Dependencies E) (adapter : Adapter E) (request : Request)
    (Q : E → ServerContext → Type 0)
    (kept : (raw : Value) (context : ServerContext) (e : E)
      → IsRaw deps adapter request raw
      → adapter.normalize raw context ≡ event e
      → Q e context) where
  abbrev P : List (Call E) → Type 0
  P = AllStored Q

  handle_events-AllStored :
      (context : ServerContext) (before : List (Call E)) (payload : Value) (size : ℕ)
      (parsed : Parsed) (calls : List (Call E))
      → read_json_body adapter.json (deps.aborted before) request.body ≡ value (ready payload size)
      → adapter.parse payload size ≡ parsed
      → P calls
      → P (handle_events deps adapter context parsed calls).1
  unfolding handle_events
  handle_events-AllStored context before payload size batch_too_large calls b q h = h
  handle_events-AllStored context before payload size schema_invalid calls b q h = h
  handle_events-AllStored context before payload size (events raws) calls b q h =
      continue_inv P _ (process deps adapter context 0 0 raws calls)
        (process_inv_of deps adapter (λ raw. Elem raw raws) P context
          (λ raw e known made answer cs p. (
            kept raw context e
                (record {
                  before = before;
                  payload = payload;
                  size = size;
                  read = b;
                  raws = raws;
                  parsed = q;
                  stands = known;
                })
                made,
            p,
          ))
          0 0 raws calls (all_elements raws) h)
        (λ processed cs p.
          continue_inv P _ (record_rejections deps adapter context processed.rejections cs)
            (record_rejections_inv deps adapter P context processed.rejections (λ answer ds q'. q')
              cs p)
            (λ recorded ds q'. q'))

  choose :
      (b : Bool) (go_on stop : M E Response) (calls : List (Call E))
      → P (go_on calls).1
      → P (stop calls).1
      → P ((if b then go_on else stop) calls).1
  choose true go_on stop calls h k = h
  choose false go_on stop calls h k = k

  handle_body-AllStored :
      (context : ServerContext) (before : List (Call E)) (body : Outcome Body)
      (calls : List (Call E))
      → read_json_body adapter.json (deps.aborted before) request.body ≡ body
      → P calls
      → P (handle_body deps adapter context body calls).1
  unfolding handle_body
  handle_body-AllStored context before thrown calls b h = h
  handle_body-AllStored context before (value too_large) calls b h = h
  handle_body-AllStored context before (value malformed) calls b h = h
  handle_body-AllStored context before (value (ready payload size)) calls b h =
      continue_inv P _ (call_consume deps context 0 (estimated_event_count payload) calls) h
        (λ limit cs k.
          choose limit.allowed _ _ cs
            (handle_events-AllStored context before payload size (adapter.parse payload size) cs b
              refl k)
            k)

  handle_authentication-AllStored :
      (answer : Authentication) (calls : List (Call E))
      → P calls
      → P (handle_authentication deps adapter request answer calls).1
  unfolding handle_authentication
  handle_authentication-AllStored refused calls h = h
  handle_authentication-AllStored (authenticated context) calls h =
      continue_inv P _ (call_consume deps context 1 0 calls) h
        (λ limit cs k. choose limit.allowed _ _ cs (handle_body-AllStored context cs _ cs refl k) k)

  handle_reservation-AllStored :
      (reservation : Reservation) (calls : List (Call E))
      → P calls
      → P (handle_reservation deps adapter request reservation calls).1
  unfolding handle_reservation
  handle_reservation-AllStored reservation calls h =
      choose reservation.allowed _ _ calls (reserved reservation.reservation_id) h
    where
      reserved :
          (id : Option String)
          → P
              ((elim id as (λ _. M E Response) [
                | none ↦ throw
                | some i ↦ call_authenticate deps i >>= handle_authentication deps adapter request
              ])
                calls).1
      reserved none = h
      reserved (some i) =
          continue_inv P _ (call_authenticate deps i calls) h
            (λ answer cs k. handle_authentication-AllStored answer cs k)

  -- Whatever the request and the surroundings do, each event that is given to storage has the property
  -- that the adapter gives to what it makes of a raw event of the request, for the context that it is stored with.
  pub handle-AllStored : AllStored Q (handle deps adapter request).1
  unfolding handle
  handle-AllStored =
      caught (attempt deps adapter request (precheck request) []) (attempted (precheck request))
    where
      caught : (r : Outcome Response × List (Call E)) → P r.1 → P (catch deps adapter r).1
      caught (value response, calls) h = h
      caught (thrown, calls) h = h

      attempted : (o : Option Response) → P (attempt deps adapter request o []).1
      attempted (some response) = tt
      attempted none =
          continue_inv P _ (call_reserve deps []) tt
            (λ reservation cs k. handle_reservation-AllStored reservation cs k)
