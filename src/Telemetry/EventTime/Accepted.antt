-- ===== src/Telemetry/EventTime/Accepted.antt =====
-- Which events eventTime.ts accepts, in terms of what its input and its policy hold.
use kootha.Prelude.{
  ℕ, ◌+◌, ◌^◌, ◌≤◌, ◌<◌, ◌≡◌, ◌↔◌, refl, sym, ◌∙◌, ap, ap₂, inl, inr, ◌⊎◌, Bool, true, false, not,
  ◌&&◌, Option, none, some, arith, leb, length, ◌==◌, every, lt→ltb, Bool-cases,
}
use kootha.Prelude.Number.{pos, negsuc, Number, integer, fraction, infinity, nan}
use kootha.Prelude.Json.{Text, str}
use kootha.Prelude.Text.{trim}
use kootha.Telemetry.Timestamp.{parse_strict_utc_iso_timestamp}
use kootha.Telemetry.EventTime.{
  EvidenceState, valid, EventTimeCaptureInput, CaptureWindowPolicy, Windows, Instants, safe_natural,
  has_valid_policy, evidence, parse_instants, parsed_end, is_ordered, decide_capture_window,
}
use kootha.Telemetry.EventTime.Laws.{
  is_accepted, is_valid, is_in_time, is_admissible, decide_capture_window-admissible,
}

-- The end of the work as it is given: none, or the instant of its text.
abbrev Ends : Option Text → Option ℕ → Type 0
Ends none none = Unit
Ends none (some e) = ⊥
Ends (some text) none = ⊥
Ends (some text) (some e) = parse_strict_utc_iso_timestamp (str text) ≡ some e

abbrev UpTo : ℕ → Option ℕ → Type 0
UpTo t none = Unit
UpTo t (some e) = t ≤ e

-- A receipt within the window for a backfill, which is open from the end of the work on, and while there is
-- no end from the capture on.
abbrev IsBackfill : ℕ → ℕ → ℕ → Option ℕ → Type 0
IsBackfill received captured window none = received ≤ captured + window
IsBackfill received captured window (some e) = received ≤ e + window

abbrev IsWindow : Number → ℕ → Type 0
IsWindow n ms = (n ≡ integer (pos ms)) × (ms < 2 ^ 53)

pub record IsAdmissible (input : EventTimeCaptureInput) (policy : CaptureWindowPolicy)
    : Type 0 where
  pub live_ms : ℕ
  pub delayed_ms : ℕ
  pub skew_ms : ℕ
  pub live_window : IsWindow policy.live_freshness_window_ms live_ms
  pub delayed_window : IsWindow policy.delayed_backfill_window_ms delayed_ms
  pub skew_window : IsWindow policy.maximum_future_clock_skew_ms skew_ms
  pub captured : ℕ
  pub received : ℕ
  pub started : ℕ
  pub work_end : Option ℕ
  pub was_captured : parse_strict_utc_iso_timestamp (str input.captured_at) ≡ some captured
  pub was_received : parse_strict_utc_iso_timestamp (str input.received_at) ≡ some received
  pub was_started : parse_strict_utc_iso_timestamp (str input.actual_work_started_at) ≡ some started
  pub ends : Ends input.actual_work_ended_at work_end
  pub is_ordered_work : UpTo started work_end
  pub has_identity : (length (trim input.idempotency_identity) == 0) ≡ false
  pub is_authenticated : input.authentication ≡ valid
  pub is_identified : input.event_identity ≡ valid
  pub is_linked : input.device_vehicle_link_at_capture ≡ valid
  pub is_assigned : input.ad_work_assignment_at_capture ≡ valid
  pub is_released : input.work_release_at_capture ≡ valid
  pub has_timestamp : input.timestamp_evidence ≡ valid
  pub has_offset : input.clock_offset_evidence ≡ valid
  pub is_in_sequence : input.sequence_replay_evidence ≡ valid
  pub after_start : started ≤ captured
  pub before_end : UpTo captured work_end
  pub not_ahead : captured ≤ received + skew_ms
  pub in_window :
      (UpTo received work_end × (received ≤ captured + live_ms))
      ⊎ IsBackfill received captured delayed_ms work_end

safe_natural-IsWindow : (n : Number) (m : ℕ) → safe_natural n ≡ some m → IsWindow n m
safe_natural-IsWindow (integer (pos k)) m h = ground (arith, h)
safe_natural-IsWindow (integer (negsuc k)) m h = absurd (ground (arith, h))
safe_natural-IsWindow (fraction k) m h = absurd (ground (arith, h))
safe_natural-IsWindow infinity m h = absurd (ground (arith, h))
safe_natural-IsWindow nan m h = absurd (ground (arith, h))

IsWindow-safe_natural : (n : Number) (m : ℕ) → IsWindow n m → safe_natural n ≡ some m
IsWindow-safe_natural n m (e, l) = ap safe_natural e ∙ ground (arith, lt→ltb m (2 ^ 53) l)

policy_windows :
    (policy : CaptureWindowPolicy) (w : Windows)
    → has_valid_policy policy ≡ some w
    → (safe_natural policy.live_freshness_window_ms ≡ some w.live_ms)
      × (safe_natural policy.delayed_backfill_window_ms ≡ some w.delayed_ms)
      × (safe_natural policy.maximum_future_clock_skew_ms ≡ some w.skew_ms)
unfolding has_valid_policy
policy_windows policy w h = ground (arith, h)

windows_policy :
    (policy : CaptureWindowPolicy) (w : Windows)
    → safe_natural policy.live_freshness_window_ms ≡ some w.live_ms
    → safe_natural policy.delayed_backfill_window_ms ≡ some w.delayed_ms
    → safe_natural policy.maximum_future_clock_skew_ms ≡ some w.skew_ms
    → has_valid_policy policy ≡ some w
unfolding has_valid_policy
windows_policy policy w l d s = ground (arith, l, d, s)

parsed_end-Ends : (o : Option Text) (e : Option ℕ) → parsed_end o ≡ some e → Ends o e
parsed_end-Ends none none h = tt
parsed_end-Ends none (some e) h = cc
parsed_end-Ends (some text) none h = absurd (ground (arith, h))
parsed_end-Ends (some text) (some e) h = ground (arith, h)

Ends-parsed_end : (o : Option Text) (e : Option ℕ) → Ends o e → parsed_end o ≡ some e
Ends-parsed_end none none h = refl
Ends-parsed_end none (some e) h = absurd h
Ends-parsed_end (some text) none h = absurd h
Ends-parsed_end (some text) (some e) h = ground (arith, h)

is_ordered-UpTo : (s : ℕ) (e : Option ℕ) → (is_ordered s e ≡ true) ↔ UpTo s e
is_ordered-UpTo s none = (λ h. tt, λ h. refl)
is_ordered-UpTo s (some e) = (λ h. ground (arith, h), λ h. ground (arith, h))

abbrev AreParsed : EventTimeCaptureInput → Instants → Type 0
AreParsed input t =
    (parse_strict_utc_iso_timestamp (str input.captured_at) ≡ some t.captured)
    × (parse_strict_utc_iso_timestamp (str input.received_at) ≡ some t.received)
    × (parse_strict_utc_iso_timestamp (str input.actual_work_started_at) ≡ some t.started)
    × (parsed_end input.actual_work_ended_at ≡ some t.work_end)
    × (is_ordered t.started t.work_end ≡ true)

parse_instants-parsed :
    (input : EventTimeCaptureInput) (t : Instants)
    → parse_instants input ≡ some t
    → AreParsed input t
unfolding parse_instants
parse_instants-parsed input t h = ground (arith, h)

parsed-parse_instants :
    (input : EventTimeCaptureInput) (t : Instants)
    → AreParsed input t
    → parse_instants input ≡ some t
unfolding parse_instants
parsed-parse_instants input t (c, r, s, e, o) = ground (arith, c, r, s, e, o)

-- The comparisons, as a statement.
abbrev IsInTime : Windows → Instants → Type 0
IsInTime w t =
    (t.started ≤ t.captured)
    × UpTo t.captured t.work_end
    × (t.captured ≤ t.received + w.skew_ms)
    × ((UpTo t.received t.work_end × (t.received ≤ t.captured + w.live_ms))
        ⊎ IsBackfill t.received t.captured w.delayed_ms t.work_end)

is_in_time-true : (w : Windows) (t : Instants) → is_in_time w t ≡ true → IsInTime w t
is_in_time-true w t h = go t.work_end h
  where
    go :
        (e : Option ℕ)
        → is_in_time w (record t { work_end = e }) ≡ true
        → IsInTime w (record t { work_end = e })
    go none h = elim (Bool-cases (leb t.received (t.captured + w.live_ms))) [
      | inl k ↦ (ground (arith, h), tt, ground (arith, h), inl (tt, ground (arith, k)))
      | inr k ↦ (ground (arith, h), tt, ground (arith, h), inr (ground (arith, h, k)))
    ]
    go (some e) h =
        elim (Bool-cases (leb t.received e && leb t.received (t.captured + w.live_ms))) [
          | inl k ↦ (
            ground (arith, h),
            ground (arith, h),
            ground (arith, h),
            inl (ground (arith, k), ground (arith, k)),
          )
          | inr k ↦
              (ground (arith, h), ground (arith, h), ground (arith, h), inr (ground (arith, h, k)))
        ]

true-is_in_time : (w : Windows) (t : Instants) → IsInTime w t → is_in_time w t ≡ true
true-is_in_time w t h = go t.work_end h
  where
    go :
        (e : Option ℕ)
        → IsInTime w (record t { work_end = e })
        → is_in_time w (record t { work_end = e }) ≡ true
    go none (s, u, k, inl (v, l)) = ground (arith, s, k, l)
    go none (s, u, k, inr b) = ground (arith, s, k, b)
    go (some e) (s, u, k, inl (v, l)) = ground (arith, s, u, k, v, l)
    go (some e) (s, u, k, inr b) = ground (arith, s, u, k, b)

is_valid-true : (s : EvidenceState) → is_valid s ≡ true → s ≡ valid
is_valid-true s h = ground (arith, h)

every_second : (a b : Bool) → (a && b) ≡ true → (a ≡ true) × (b ≡ true)
every_second a b h = (ground (arith, h), ground (arith, h))

abbrev AllValid : EventTimeCaptureInput → Type 0
AllValid input =
    (input.authentication ≡ valid)
    × (input.event_identity ≡ valid)
    × (input.device_vehicle_link_at_capture ≡ valid)
    × (input.ad_work_assignment_at_capture ≡ valid)
    × (input.work_release_at_capture ≡ valid)
    × (input.timestamp_evidence ≡ valid)
    × (input.clock_offset_evidence ≡ valid)
    × (input.sequence_replay_evidence ≡ valid)

evidence_valid :
    (input : EventTimeCaptureInput)
    → every (λ e. is_valid e.0) (evidence input) ≡ true
    → AllValid input
unfolding every
evidence_valid input h = ground (arith, h)

valid_evidence :
    (input : EventTimeCaptureInput)
    → AllValid input
    → every (λ e. is_valid e.0) (evidence input) ≡ true
unfolding every
valid_evidence input (a, i, l, w, r, t, o, q) = ground (arith, a, i, l, w, r, t, o, q)

admitted :
    (input : EventTimeCaptureInput) (policy : CaptureWindowPolicy) (w : Windows) (t : Instants)
    → has_valid_policy policy ≡ some w
    → parse_instants input ≡ some t
    → is_admissible input (some w) (some t) ≡ true
    → IsAdmissible input policy
admitted input policy w t p q h =
    let (live, delayed, skew) = policy_windows policy w p in
    let (captured, received, started, ends, ordered) = parse_instants-parsed input t q in
    let (named, rest) =
      every_second (not (length (trim input.idempotency_identity) == 0))
        (every (λ e. is_valid e.0) (evidence input) && is_in_time w t) h in
    let (all_valid, timed) =
      every_second (every (λ e. is_valid e.0) (evidence input)) (is_in_time w t) rest in
    let (a, i, l, s, r, m, o, n) = evidence_valid input all_valid in
    let (from, to, ahead, window) = is_in_time-true w t timed in
    record {
      live_ms = w.live_ms;
      delayed_ms = w.delayed_ms;
      skew_ms = w.skew_ms;
      live_window = safe_natural-IsWindow policy.live_freshness_window_ms w.live_ms live;
      delayed_window = safe_natural-IsWindow policy.delayed_backfill_window_ms w.delayed_ms delayed;
      skew_window = safe_natural-IsWindow policy.maximum_future_clock_skew_ms w.skew_ms skew;
      captured = t.captured;
      received = t.received;
      started = t.started;
      work_end = t.work_end;
      was_captured = captured;
      was_received = received;
      was_started = started;
      ends = parsed_end-Ends input.actual_work_ended_at t.work_end ends;
      is_ordered_work = (is_ordered-UpTo t.started t.work_end).0 ordered;
      has_identity = ground (arith, named);
      is_authenticated = a;
      is_identified = i;
      is_linked = l;
      is_assigned = s;
      is_released = r;
      has_timestamp = m;
      has_offset = o;
      is_in_sequence = n;
      after_start = from;
      before_end = to;
      not_ahead = ahead;
      in_window = window;
    }

true-IsAdmissible :
    (input : EventTimeCaptureInput) (policy : CaptureWindowPolicy)
    → is_admissible input (has_valid_policy policy) (parse_instants input) ≡ true
    → IsAdmissible input policy
true-IsAdmissible input policy h =
    found (has_valid_policy policy) (parse_instants input) refl refl h
  where
    found :
        (w : Option Windows) (t : Option Instants)
        → has_valid_policy policy ≡ w
        → parse_instants input ≡ t
        → is_admissible input w t ≡ true
        → IsAdmissible input policy
    found none t p q k = absurd (ground (arith, k))
    found (some w) none p q k = absurd (ground (arith, k))
    found (some w) (some t) p q k = admitted input policy w t p q k

IsAdmissible-true :
    (input : EventTimeCaptureInput) (policy : CaptureWindowPolicy)
    → IsAdmissible input policy
    → is_admissible input (has_valid_policy policy) (parse_instants input) ≡ true
IsAdmissible-true input policy h =
    let w : Windows = record {
      live_ms = h.live_ms;
      delayed_ms = h.delayed_ms;
      skew_ms = h.skew_ms;
    } in
    let t : Instants = record {
      captured = h.captured;
      received = h.received;
      started = h.started;
      work_end = h.work_end;
    } in
    let p : has_valid_policy policy ≡ some w =
      windows_policy policy w (IsWindow-safe_natural _ h.live_ms h.live_window)
        (IsWindow-safe_natural _ h.delayed_ms h.delayed_window)
        (IsWindow-safe_natural _ h.skew_ms h.skew_window) in
    let q : parse_instants input ≡ some t = parsed-parse_instants input t (
      h.was_captured,
      h.was_received,
      h.was_started,
      Ends-parsed_end input.actual_work_ended_at h.work_end h.ends,
      (is_ordered-UpTo h.started h.work_end).1 h.is_ordered_work,
    ) in
    let all_valid = valid_evidence input (
      h.is_authenticated, h.is_identified, h.is_linked, h.is_assigned, h.is_released,
      h.has_timestamp, h.has_offset, h.is_in_sequence,
    ) in
    let timed = true-is_in_time w t (h.after_start, h.before_end, h.not_ahead, h.in_window) in
    ap₂ (is_admissible input) p q ∙ both h.has_identity all_valid timed
  where
    both : {a b c : Bool} → a ≡ false → b ≡ true → c ≡ true → (not a && (b && c)) ≡ true
    both x y z = ground (arith, x, y, z)

-- An event is accepted, live or delayed, exactly if the three windows of the policy are safe integers from 0
-- up, its instants are real and the work ends no earlier than it starts, it has an identity, each of the
-- eight pieces of its evidence is valid, it was captured during the work and no farther in the future than
-- the skew allows, and it was received in the live window before the end of the work, or in the backfill
-- window after that end (after the capture while the work goes on).
pub decide_capture_window_lem :
    (input : EventTimeCaptureInput) (policy : CaptureWindowPolicy)
    → (is_accepted (decide_capture_window input policy).disposition ≡ true)
      ↔ IsAdmissible input policy
decide_capture_window_lem input policy = (
  λ h. true-IsAdmissible input policy (sym (decide_capture_window-admissible input policy) ∙ h),
  λ h. decide_capture_window-admissible input policy ∙ IsAdmissible-true input policy h,
)
