-- ===== src/Telemetry/EventTime/Laws.antt =====
-- Which events eventTime.ts accepts, and how that changes with the time of receipt.
use kootha.Prelude.{
  ℕ, ◌+◌, ◌≤◌, ◌≡◌, refl, sym, ◌∙◌, ap, Bool, true, false, not, ◌&&◌, ◌||◌, Option, none, some,
  List, [], ◌∷◌, arith, if◌then◌else◌, leb, length, ◌==◌, every,
}
use kootha.Prelude.Json.{Text, str}
use kootha.Prelude.Text.{trim}
use kootha.Telemetry.Timestamp.{parse_strict_utc_iso_timestamp}
use kootha.Telemetry.EventTime.{
  EvidenceState, valid, invalid, ambiguous, unrecognized, EventTimeCaptureInput,
  CaptureWindowPolicy, CaptureDisposition, accepted_live, accepted_delayed, rejected, Windows,
  Instants, Verdict, reject, accept_live, accept_delayed, ReasonCode, decision, has_valid_policy,
  evidence, check_evidence, is_before_end, backfill_cutoff, compare_instants, parse_instants, judge,
  decide_capture_window,
}

abbrev pub is_accepted : CaptureDisposition → Bool
is_accepted disposition = elim disposition [ rejected ↦ false | _ ↦ true ]

abbrev pub is_valid : EvidenceState → Bool
is_valid state = elim state [ valid ↦ true | _ ↦ false ]

-- Captured during the work and not too far in the future, and received while it is fresh and the work
-- goes on, or before the backfill of the work (of the capture, while there is no end) is over.
abbrev pub is_in_time : Windows → Instants → Bool
is_in_time w t =
    leb t.started t.captured
    && (is_before_end t.captured t.work_end
        && (leb t.captured (t.received + w.skew_ms)
            && ((is_before_end t.received t.work_end && leb t.received (t.captured + w.live_ms))
                || leb t.received (backfill_cutoff w t))))

abbrev pub is_admissible : EventTimeCaptureInput → Option Windows → Option Instants → Bool
is_admissible input none t = false
is_admissible input (some w) none = false
is_admissible input (some w) (some t) =
    not (length (trim input.idempotency_identity) == 0)
    && (every (λ e. is_valid e.0) (evidence input) && is_in_time w t)

abbrev disposition_of : Verdict → CaptureDisposition
disposition_of (reject reason) = rejected
disposition_of accept_live = accepted_live
disposition_of accept_delayed = accepted_delayed

decision-disposition :
    (input : EventTimeCaptureInput) (v : Verdict)
    → (decision input v).disposition ≡ disposition_of v
decision-disposition input (reject reason) = refl
decision-disposition input accept_live = refl
decision-disposition input accept_delayed = refl

compare-accepted :
    (w : Windows) (t : Instants)
    → is_accepted (disposition_of (compare_instants w t)) ≡ is_in_time w t
unfolding compare_instants
compare-accepted w t = ground arith

abbrev no_reason : Option ReasonCode → Bool
no_reason none = true
no_reason (some reason) = false

evidence-valid :
    (es : List (EvidenceState × ReasonCode))
    → no_reason (check_evidence es) ≡ every (λ e. is_valid e.0) es
unfolding check_evidence every
evidence-valid [] = refl
evidence-valid ((valid, reason) ∷ es) = evidence-valid es
evidence-valid ((invalid, reason) ∷ es) = refl
evidence-valid ((ambiguous, reason) ∷ es) = refl
evidence-valid ((unrecognized, reason) ∷ es) = refl

judge-admissible :
    (input : EventTimeCaptureInput) (w : Option Windows) (t : Option Instants)
    → is_accepted (disposition_of (judge input w t)) ≡ is_admissible input w t
judge-admissible input none t = refl
judge-admissible input (some w) none = refl
judge-admissible input (some w) (some t) =
    judged (length (trim input.idempotency_identity) == 0) (check_evidence (evidence input))
      (every (λ e. is_valid e.0) (evidence input)) (evidence-valid (evidence input))
  where
    judged :
        (blank : Bool) (o : Option ReasonCode) (ok : Bool)
        → no_reason o ≡ ok
        → is_accepted (
            disposition_of (
              if blank
              then reject ReasonCode.captured_time_invalid
              else elim o [ some reason ↦ reject reason | none ↦ compare_instants w t ]))
          ≡ (not blank && (ok && is_in_time w t))
    judged true o ok h = refl
    judged false none ok h = ground (arith, h, compare-accepted w t)
    judged false (some reason) ok h = ground (arith, h)

pub decide_capture_window-admissible :
    (input : EventTimeCaptureInput) (policy : CaptureWindowPolicy)
    → is_accepted (decide_capture_window input policy).disposition
      ≡ is_admissible input (has_valid_policy policy) (parse_instants input)
unfolding decide_capture_window
decide_capture_window-admissible input policy =
    ap is_accepted
      (decision-disposition input (judge input (has_valid_policy policy) (parse_instants input)))
    ∙ judge-admissible input (has_valid_policy policy) (parse_instants input)

-- Live is better than delayed, and delayed better than rejected.
abbrev pub rank : CaptureDisposition → ℕ
rank disposition = elim disposition [ rejected ↦ 0 | accepted_delayed ↦ 1 | accepted_live ↦ 2 ]

compare-later :
    (w : Windows) (t : Instants) (r : ℕ)
    → t.received ≤ r
    → is_accepted (disposition_of (compare_instants w t)) ≡ true
    → rank (disposition_of (compare_instants w (record t { received = r })))
      ≤ rank (disposition_of (compare_instants w t))
unfolding compare_instants
compare-later w t r l h = ground arith

abbrev with_receipt : ℕ → Option Instants → Option Instants
with_receipt r none = none
with_receipt r (some t) = some (record t { received = r })

received_of :
    (input : EventTimeCaptureInput) (t : Instants) (r : ℕ)
    → parse_strict_utc_iso_timestamp (str input.received_at) ≡ some r
    → parse_instants input ≡ some t
    → t.received ≡ r
unfolding parse_instants
received_of input t r h e = ground (arith, h, e)

parse-later :
    (input : EventTimeCaptureInput) (later : Text) (r r' : ℕ)
    → parse_strict_utc_iso_timestamp (str input.received_at) ≡ some r
    → parse_strict_utc_iso_timestamp (str later) ≡ some r'
    → parse_instants (record input { received_at = later }) ≡ with_receipt r' (parse_instants input)
unfolding parse_instants
parse-later input later r r' h k = ground (arith, h, k)

judge-later :
    (input : EventTimeCaptureInput) (later : Text) (w : Option Windows) (t : Option Instants)
    (r r' : ℕ)
    → ((u : Instants) → t ≡ some u → u.received ≡ r)
    → r ≤ r'
    → is_accepted (disposition_of (judge input w t)) ≡ true
    → rank (disposition_of (judge (record input { received_at = later }) w (with_receipt r' t)))
      ≤ rank (disposition_of (judge input w t))
judge-later input later none t r r' s l h = cc
judge-later input later (some w) none r r' s l h = cc
judge-later input later (some w) (some t) r r' s l h =
    judged (length (trim input.idempotency_identity) == 0) (check_evidence (evidence input)) h
  where
    judged :
        (blank : Bool) (o : Option ReasonCode)
        → is_accepted (
            disposition_of (
              if blank
              then reject ReasonCode.captured_time_invalid
              else elim o [ some reason ↦ reject reason | none ↦ compare_instants w t ]))
          ≡ true
        → rank (
            disposition_of (
              if blank then reject ReasonCode.captured_time_invalid else elim o [
                | some reason ↦ reject reason
                | none ↦ compare_instants w (record t { received = r' })
              ]))
          ≤ rank (
              disposition_of (
                if blank
                then reject ReasonCode.captured_time_invalid
                else elim o [ some reason ↦ reject reason | none ↦ compare_instants w t ]))
    judged true o k = omega arith
    judged false (some reason) k = omega arith
    judged false none k = compare-later w t r' (omega (arith, s t refl, l)) k

-- A later receipt never makes an accepted event better: if the same event is received at a later time,
-- it stays live, or it becomes delayed or rejected, but an event accepted as delayed does not become
-- live again.
pub later_receipt :
    (input : EventTimeCaptureInput) (later : Text) (policy : CaptureWindowPolicy) (r r' : ℕ)
    → parse_strict_utc_iso_timestamp (str input.received_at) ≡ some r
    → parse_strict_utc_iso_timestamp (str later) ≡ some r'
    → r ≤ r'
    → is_accepted (decide_capture_window input policy).disposition ≡ true
    → rank (decide_capture_window (record input { received_at = later }) policy).disposition
      ≤ rank (decide_capture_window input policy).disposition
unfolding decide_capture_window
later_receipt input later policy r r' h k l a =
    let w = has_valid_policy policy in
    let t = parse_instants input in
    rw
      (
        parse-later input later r r' h k,
        decision-disposition input (judge input w t),
        decision-disposition (record input { received_at = later })
            (judge (record input { received_at = later }) w (with_receipt r' t)),
      )
      (judge-later input later w t r r' (λ u e. received_of input u r h e) l
        (ap is_accepted (sym (decision-disposition input (judge input w t))) ∙ a))
