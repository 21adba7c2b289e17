-- ===== src/Host/Calls.antt =====
-- What the host asks of its surroundings, each call with its answer, newest first. An answer depends on
-- the calls before it in any way whatever, so the surroundings are any program with a state.
use kootha.Prelude.{ℕ, Bool, Option, List, ◌∷◌, String}
use kootha.Prelude.Number.{ℤ}
use kootha.Prelude.Json.{Text, Value}
use kootha.Host.Reply.{SafeTelemetryEventResult}

-- The value of a call, or the exception that it throws.
pub data Outcome {ℓ} (A : Type ℓ) : Type ℓ where
  value : A → Outcome A
  thrown : Outcome A

pub record ServerContext : Type 0 where
  pub authenticated_device_id : String
  pub authenticated_device_external_id : String
  pub credential_key_id : String
  pub credential_id : String

pub record RateLimitResult : Type 0 where
  pub allowed : Bool
  pub retry_after_seconds : Option ℤ

pub record Reservation : Type 0 where
  pub allowed : Bool
  pub retry_after_seconds : Option ℤ
  pub reservation_id : Option String

pub data Authentication : Type 0 where
  authenticated : ServerContext → Authentication
  refused : Authentication

-- `E` is the type of canonical events, which the host only hands on.
pub data Call (E : Type 0) : Type 0 where
  reserve_call : Outcome Reservation → Call E
  authenticate_call : String → Outcome Authentication → Call E
  consume_call : ServerContext → ℕ → ℕ → Outcome RateLimitResult → Call E
  persist_call : E → ServerContext → Outcome SafeTelemetryEventResult → Call E
  record_call : List (Value × Text) → ServerContext → Outcome (Unit {0}) → Call E

-- `TelemetryHttpHostDependenciesV1`, with the abort signal as it stands at the n-th look at it.
pub record Dependencies (E : Type 0) : Type 0 where
  pub reserve_unauthenticated : List (Call E) → Outcome Reservation
  pub authenticate : List (Call E) → String → Outcome Authentication
  pub consume_limits : List (Call E) → ServerContext → ℕ → ℕ → Outcome RateLimitResult
  pub persist : List (Call E) → E → ServerContext → Outcome SafeTelemetryEventResult
  pub record_rejections :
      Option (List (Call E) → List (Value × Text) → ServerContext → Outcome (Unit {0}))
  pub aborted : List (Call E) → ℕ → Bool

-- A computation that makes calls and may throw.
abbrev pub M : Type 0 → Type 0 → Type 0
M E A = List (Call E) → Outcome A × List (Call E)

abbrev pub continue :
    {E A B : Type 0} → (A → M E B) → Outcome A × List (Call E) → Outcome B × List (Call E)
continue f (value a, calls) = f a calls
continue f (thrown, calls) = (thrown, calls)

infixl 5 ◌>>=◌
abbrev pub ◌>>=◌ : {E A B : Type 0} → M E A → (A → M E B) → M E B
◌>>=◌ m f calls = continue f (m calls)

abbrev pub return : {E A : Type 0} → A → M E A
return a calls = (value a, calls)

abbrev pub throw : {E A : Type 0} → M E A
throw calls = (thrown, calls)

module _ {E : Type 0} (deps : Dependencies E) where
  abbrev pub call_reserve : M E Reservation
  call_reserve calls =
      let answer = deps.reserve_unauthenticated calls in (answer, reserve_call answer ∷ calls)

  abbrev pub call_authenticate : String → M E Authentication
  call_authenticate reservation calls =
      let answer = deps.authenticate calls reservation in
      (answer, authenticate_call reservation answer ∷ calls)

  abbrev pub call_consume : ServerContext → ℕ → ℕ → M E RateLimitResult
  call_consume context requests events calls =
      let answer = deps.consume_limits calls context requests events in
      (answer, consume_call context requests events answer ∷ calls)

  abbrev pub call_persist : E → ServerContext → M E SafeTelemetryEventResult
  call_persist event context calls =
      let answer = deps.persist calls event context in
      (answer, persist_call event context answer ∷ calls)
