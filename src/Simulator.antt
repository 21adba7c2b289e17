-- ===== src/Simulator.antt =====
-- packages/shared/src/physicalTelemetry/simulator.ts: the deterministic simulator of a GPS device,
-- with its virtual clock and its seeded generator. Times are whole milliseconds from 1970 on, and an
-- instant that is printed is one that can be printed. What an exception leaves of the simulator is not
-- described.
pub mod Random
pub mod Invariant
pub mod Advance
pub mod Split
pub mod Reachable
mod Tests
use kootha.Prelude.{
  ℕ, zero, suc, ◌+◌, ◌-◌, ◌*◌, ◌%◌, ◌^◌, ◌≡◌, refl, Bool, true, false, not, ◌&&◌, ◌||◌, String,
  Option, none, some, List, [], ◌∷◌, ◌++◌, if◌then◌else◌, ltb, leb, length, ◌==◌, every, codes,
}
use mathlib.Core.Option
use kootha.Prelude.Result.{Result, ok, err, ◌>>=◌, ◌>>◌, check}
use kootha.Prelude.Number.{ℤ, pos, negsuc}
use Random.{seeded, next}

pub data SimError : Type 0 where
  clock_cannot_move_backward not_running invalid_interval invalid_clock_offset : SimError
  invalid_network_delay invalid_event_count invalid_seed invalid_advance invalid_step_count :
      SimError
  invalid_device_id range_error : SimError

-- `Number.isSafeInteger` of a whole number, and `assertNonNegativeFiniteInteger`.
abbrev pub is_safe_integer : ℤ → Bool
is_safe_integer (pos n) = ltb n (2 ^ 53)
is_safe_integer (negsuc n) = ltb (n + 1) (2 ^ 53)

abbrev pub natural : ℤ → SimError → Result SimError ℕ
natural (pos n) e = if ltb n (2 ^ 53) then ok n else err e
natural (negsuc n) e = err e

-- A device id that the configuration gives, or the default `synthetic-device-${seed}`.
pub data DeviceId : Type 0 where
  given : String → DeviceId
  from_seed : ℤ → DeviceId

-- An id that ends in `${seed}-${sequence}` after the given tag.
pub data SyntheticId : Type 0 where
  tagged : String → ℤ → ℕ → SyntheticId

-- Latitude and longitude are the source's fixed point plus `sequence` steps and the jitter that the
-- draw stands for; the draw is over 2 ^ 32.
pub record SyntheticPosition : Type 0 where
  pub steps : ℕ
  pub jitter_draw : ℕ

pub record CanonicalTelemetryEvent : Type 0 where
  pub canonical_event_id : SyntheticId
  pub vendor_event_id : SyntheticId
  pub idempotency_identity : SyntheticId
  pub device_external_id : DeviceId
  pub authenticated_device_external_id : DeviceId
  pub epoch_seed : ℤ
  pub sequence : ℕ
  pub captured_at : ℤ
  pub received_at : ℕ
  pub normalized_at : ℕ
  pub observed_clock_offset : ℤ
  pub position : SyntheticPosition
  pub synthetic : Bool

pub record Simulator : Type 0 where
  pub seed : ℤ
  pub interval_ms : ℕ
  pub device_clock_offset_ms : ℤ
  pub network_delay_ms : ℕ
  pub device_external_id : DeviceId
  pub maximum_event_count : Option ℕ
  pub has_sink : Bool
  pub clock : ℕ
  pub random : ℕ
  pub queue : List CanonicalTelemetryEvent
  pub delivered : List CanonicalTelemetryEvent
  pub running : Bool
  pub sequence : ℕ
  pub next_emission_at : Option ℕ

pub record Config : Type 0 where
  pub seed : ℤ
  pub start_at : ℕ
  pub interval_ms : Option ℤ
  pub device_clock_offset_ms : Option ℤ
  pub network_delay_ms : Option ℤ
  pub device_external_id : Option String
  pub maximum_event_count : Option ℤ

abbrev get_or {ℓ} : {A : Type ℓ} → A → Option A → A
get_or d none = d
get_or d (some a) = a

abbrev natural? : Option ℤ → SimError → Result SimError (Option ℕ)
natural? none e = ok none
natural? (some z) e = natural z e >>= λ n. ok (some n)

abbrev is_id_char : ℕ → Bool
is_id_char c =
    leb b'A' c && leb c b'Z'
    || (leb b'a' c && leb c b'z'
        || (leb b'0' c && leb c b'9' || (c == b'.' || (c == b'_' || (c == b':' || c == b'-')))))

-- The rest of a text behind a prefix.
strip : List ℕ → List ℕ → Option (List ℕ)
strip [] text = some text
strip (c ∷ cs) [] = none
strip (c ∷ cs) (d ∷ ds) = if c == d then strip cs ds else none

is_suffix : Option (List ℕ) → Bool
is_suffix none = false
is_suffix (some []) = false
is_suffix (some (c ∷ cs)) = every is_id_char (c ∷ cs)

-- `isSyntheticDeviceId`, on the code points of the id. What the pattern lets pass is ASCII, so the
-- length in code points is then the length that the source measures.
unfoldable pub is_synthetic_device_id : String → Bool
unfolding strip is_suffix every
is_synthetic_device_id value =
    leb (length (codes value)) 128
    && (is_suffix (strip (codes "sim-") (codes value))
        || is_suffix (strip (codes "synthetic-") (codes value)))

abbrev valid_device_id : Option String → Bool
valid_device_id none = true
valid_device_id (some id) = is_synthetic_device_id id

abbrev device_id : ℤ → Option String → DeviceId
device_id seed none = from_seed seed
device_id seed (some id) = given id

-- The constructor, on a start time that `Date.parse` has read.
unfoldable pub create : Config → Bool → Result SimError Simulator
unfolding is_synthetic_device_id
create config has_sink = do
  interval ← natural (get_or (pos 15000) config.interval_ms) invalid_interval
  check (not (interval == 0)) invalid_interval
  check (is_safe_integer (get_or (pos 0) config.device_clock_offset_ms)) invalid_clock_offset
  delay ← natural (get_or (pos 0) config.network_delay_ms) invalid_network_delay
  check (valid_device_id config.device_external_id) invalid_device_id
  limit ← natural? config.maximum_event_count invalid_event_count
  check (is_safe_integer config.seed) invalid_seed
  ok (record {
    seed = config.seed;
    interval_ms = interval;
    device_clock_offset_ms = get_or (pos 0) config.device_clock_offset_ms;
    network_delay_ms = delay;
    device_external_id = device_id config.seed config.device_external_id;
    maximum_event_count = limit;
    has_sink = has_sink;
    clock = config.start_at;
    random = seeded config.seed;
    queue = [];
    delivered = [];
    running = false;
    sequence = 1;
    next_emission_at = none;
  })

unfoldable pub start : Simulator → Simulator
start s = if s.running then s else record s { running = true; next_emission_at = some s.clock }

unfoldable pub stop : Simulator → Simulator
stop s = record s { running = false; next_emission_at = none }

abbrev exceeds : ℕ → Option ℕ → Bool
exceeds sequence none = false
exceeds sequence (some limit) = ltb limit sequence

unfoldable pub reached_event_limit : Simulator → Bool
reached_event_limit s = exceeds s.sequence s.maximum_event_count

-- `VirtualTelemetryClockV1.set`.
abbrev pub clock_set : ℕ → Simulator → Result SimError Simulator
clock_set time s =
    if ltb time s.clock then err clock_cannot_move_backward else ok (record s { clock = time })

-- An integer moved by a number of milliseconds.
abbrev pub shift : ℕ → ℤ → ℤ
shift t (pos n) = pos (t + n)
shift t (negsuc n) = if ltb n t then pos (t - n - 1) else negsuc (n - t)

unfoldable pub event_at : ℕ → Simulator → CanonicalTelemetryEvent
event_at scheduled s = record {
  canonical_event_id = tagged "synthetic-canonical-" s.seed s.sequence;
  vendor_event_id = tagged "synthetic-vendor-" s.seed s.sequence;
  idempotency_identity = tagged "synthetic-idempotency-" s.seed s.sequence;
  device_external_id = s.device_external_id;
  authenticated_device_external_id = s.device_external_id;
  epoch_seed = s.seed;
  sequence = s.sequence;
  captured_at = shift scheduled s.device_clock_offset_ms;
  received_at = scheduled + s.network_delay_ms;
  normalized_at = scheduled + s.network_delay_ms;
  observed_clock_offset = s.device_clock_offset_ms;
  position = record { steps = s.sequence; jitter_draw = (next s.random).1 };
  synthetic = true;
}

-- `new Date(ms).toISOString()` throws a RangeError beyond these instants.
abbrev pub max_date_ms : ℕ
max_date_ms = 8640000000000000

abbrev pub is_date : ℤ → Bool
is_date (pos n) = leb n max_date_ms
is_date (negsuc n) = ltb n max_date_ms

-- Whether the three instants of an event can be printed.
unfoldable pub can_emit : ℕ → Simulator → Bool
can_emit scheduled s =
    is_date (shift scheduled s.device_clock_offset_ms)
    && is_date (pos (scheduled + s.network_delay_ms))

-- `emitAt`: the sink, if there is one, has got the events of `delivered`.
unfoldable pub emit_at : ℕ → Simulator → Result SimError Simulator
unfolding can_emit
emit_at scheduled s =
    if can_emit scheduled s
    then ok (record s {
      random = (next s.random).0;
      sequence = s.sequence + 1;
      queue = s.queue ++ event_at scheduled s ∷ [];
      delivered = if s.has_sink then s.delivered ++ event_at scheduled s ∷ [] else s.delivered;
    })
    else err range_error

-- The body that the loops of `step` and `advance` share: the clock goes on to the due time, the event
-- is emitted, and the next one is due an interval later.
unfoldable pub emit_due : ℕ → Simulator → Result SimError (Simulator × CanonicalTelemetryEvent)
unfolding emit_at
emit_due due s = do
  moved ← (if ltb s.clock due then clock_set due s else ok s)
  emitted ← emit_at due moved
  ok (record emitted { next_emission_at = some (due + s.interval_ms) }, event_at due moved)

abbrev pub Emitted : Type 0
Emitted = Simulator × List CanonicalTelemetryEvent

abbrev pub push : CanonicalTelemetryEvent → Result SimError Emitted → Result SimError Emitted
push e (ok (s, es)) = ok (s, e ∷ es)
push e (err x) = err x

-- The loop of `step(count)`, by the rounds left.
unfoldable pub step_loop : ℕ → Simulator → Result SimError Emitted
step_loop zero s = ok (s, [])
step_loop (suc n) s = elim (reached_event_limit s) [
  | true ↦ ok (stop s, [])
  | false ↦ elim (emit_due (get_or s.clock s.next_emission_at) s) [
    | ok (t, e) ↦ push e (step_loop n t)
    | err x ↦ err x
  ]
]

unfoldable pub step : ℤ → Simulator → Result SimError Emitted
unfolding step_loop
step count s = do n ← natural count invalid_step_count; check s.running not_running; step_loop n s

abbrev pub push? :
    CanonicalTelemetryEvent → Option (Result SimError Emitted) → Option (Result SimError Emitted)
push? e none = none
push? e (some r) = some (push e r)

-- The loop of `advance`, on fuel: `none` means that the fuel ran out.
unfoldable pub advance_loop : ℕ → ℕ → Simulator → Option (Result SimError Emitted)
advance_loop zero target s = none
advance_loop (suc fuel) target s = elim s.next_emission_at [
  | none ↦ some (ok (s, []))
  | some due ↦ elim (leb due target) [
    | false ↦ some (ok (s, []))
    | true ↦ elim (reached_event_limit s) [
      | true ↦ some (ok (stop s, []))
      | false ↦ elim (emit_due due s) [
        | ok (t, e) ↦ push? e (advance_loop fuel target t)
        | err x ↦ some (err x)
      ]
    ]
  ]
]

abbrev pub finish : ℕ → Result SimError Emitted → Result SimError Emitted
finish target (ok (s, es)) = clock_set target s >>= λ t. ok (t, es)
finish target (err x) = err x

-- `advance(durationMs)`. Each round of the loop moves the due time by an interval, so `target + 2`
-- rounds are enough.
unfoldable pub advance : ℤ → Simulator → Option (Result SimError Emitted)
advance duration s = elim (natural duration invalid_advance) [
  | err x ↦ some (err x)
  | ok d ↦
      Option.map (finish (s.clock + d))
        (if s.running then advance_loop (s.clock + d + 2) (s.clock + d) s else some (ok (s, [])))
]

unfoldable pub flush : Simulator → Simulator × List CanonicalTelemetryEvent
flush s = (record s { queue = [] }, s.queue)

pub record Snapshot : Type 0 where
  pub running : Bool
  pub now : ℕ
  pub next_sequence : ℕ
  pub queued_event_count : ℕ

unfoldable pub snapshot : Simulator → Result SimError Snapshot
snapshot s =
    if is_date (pos s.clock)
    then ok (record {
      running = s.running;
      now = s.clock;
      next_sequence = s.sequence;
      queued_event_count = length s.queue;
    })
    else err range_error
