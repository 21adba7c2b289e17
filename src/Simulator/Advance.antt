-- ===== src/Simulator/Advance.antt =====
-- `advance`: that it ends, how, and when it fails.
use mathlib.Core.Option
use kootha.Prelude.{
  ℕ, zero, suc, ◌+◌, ◌≤◌, ◌<◌, ◌^◌, ◌≡◌, refl, ap, ◌∙◌, inl, inr, Bool, true, false, Option, none,
  some, List, [], ◌∷◌, arith, leb, Bool-cases, Option-cases, lt→ltb, leb→le, sym, ◌⊎◌,
}
use kootha.Prelude.Number.{pos}
use kootha.Simulator.{
  Simulator, CanonicalTelemetryEvent, stop, advance_loop, advance, event_at, reached_event_limit,
  push?, finish, can_emit, range_error, SimError, Emitted,
}
use kootha.Prelude.Result.{Result, ok, err}
use kootha.Simulator.Invariant.{
  Numbered, IsScheduled, IsValid, fired, emit_due-fired, fired-IsValid, fired-Numbered,
  stop-sequence, stop-IsValid, can_emit-fired, emit_due_refused,
}

-- The due time, as far as it bounds the rounds still to come.
abbrev pub HasFuel : ℕ → ℕ → Option ℕ → Type 0
HasFuel fuel target none = 0 < fuel
HasFuel fuel target (some due) = (0 < fuel) × (target + 1 < due + fuel)

-- What the loop has done when it ends: nothing more is due by the target.
abbrev pub IsPast : ℕ → Option ℕ → Type 0
IsPast target none = Unit
IsPast target (some due) = target < due

fired_fuel :
    (fuel target due : ℕ) (s : Simulator)
    → 0 < s.interval_ms
    → due ≤ target
    → target + 1 < due + suc fuel
    → HasFuel fuel target (fired due s).next_emission_at
unfolding fired
fired_fuel fuel target due s i h k = (omega arith, omega arith)

pub fired_clock :
    (target due : ℕ) (s : Simulator) → s.clock ≤ due → due ≤ target → (fired due s).clock ≤ target
unfolding fired
fired_clock target due s h k = ground arith

stop_clock :
    (target : ℕ) (s : Simulator)
    → s.clock ≤ target
    → ((stop s).clock ≤ target) × IsPast target (stop s).next_emission_at
unfolding stop
stop_clock target s h = (h, tt)

pub due_running :
    (s : Simulator) (due : ℕ)
    → IsValid s
    → s.next_emission_at ≡ some due
    → (s.running ≡ true) × (s.clock ≤ due)
due_running s due v e = go s.running s.next_emission_at v.scheduled e
  where
    go :
        (b : Bool) (next : Option ℕ)
        → IsScheduled b next s.clock
        → next ≡ some due
        → (b ≡ true) × (s.clock ≤ due)
    go true none h e = absurd h
    go true (some d) h e = ground arith
    go false none h e = cc
    go false (some d) h e = absurd h

pub advance_loop-idle :
    (fuel target : ℕ) (s : Simulator)
    → IsPast target s.next_emission_at
    → advance_loop (suc fuel) target s ≡ some (ok (s, []))
unfolding advance_loop
advance_loop-idle fuel target s p = ground arith

pub advance_loop-stop :
    (fuel target due : ℕ) (s : Simulator)
    → s.next_emission_at ≡ some due
    → due ≤ target
    → reached_event_limit s ≡ true
    → advance_loop (suc fuel) target s ≡ some (ok (stop s, []))
unfolding advance_loop
advance_loop-stop fuel target due s e h l = ground arith

pub advance_loop-fire :
    (fuel target due : ℕ) (s : Simulator)
    → s.next_emission_at ≡ some due
    → due ≤ target
    → reached_event_limit s ≡ false
    → can_emit due s ≡ true
    → advance_loop (suc fuel) target s
      ≡ push? (event_at due s) (advance_loop fuel target (fired due s))
unfolding advance_loop
advance_loop-fire fuel target due s e h l c = ground (arith, emit_due-fired due s c)

pub advance_loop_refused :
    (fuel target due : ℕ) (s : Simulator)
    → s.next_emission_at ≡ some due
    → due ≤ target
    → reached_event_limit s ≡ false
    → can_emit due s ≡ false
    → advance_loop (suc fuel) target s ≡ some (err range_error)
unfolding advance_loop
advance_loop_refused fuel target due s e h l c = ground (arith, emit_due_refused due s c)

-- What the loop finds on its next round.
pub data Round (target : ℕ) (s : Simulator) : Type 0 where
  idle : IsPast target s.next_emission_at → Round target s
  full :
      (due : ℕ)
      → s.next_emission_at ≡ some due
      → due ≤ target
      → reached_event_limit s ≡ true
      → Round target s
  fire :
      (due : ℕ)
      → s.next_emission_at ≡ some due
      → due ≤ target
      → reached_event_limit s ≡ false
      → can_emit due s ≡ true
      → Round target s
  refused :
      (due : ℕ)
      → s.next_emission_at ≡ some due
      → due ≤ target
      → reached_event_limit s ≡ false
      → can_emit due s ≡ false
      → Round target s

pub round : (target : ℕ) (s : Simulator) → Round target s
round target s = elim (Option-cases s.next_emission_at) [
  | inl e ↦ idle (rw e tt)
  | inr (due, e) ↦ elim (Bool-cases (leb due target)) [
    | inr later ↦ idle (rw e (ground arith))
    | inl now ↦ elim (Bool-cases (reached_event_limit s)) [
      | inl limit ↦ full due e (leb→le due target now) limit
      | inr more ↦ elim (Bool-cases (can_emit due s)) [
        | inl c ↦ fire due e (leb→le due target now) more c
        | inr c ↦ refused due e (leb→le due target now) more c
      ]
    ]
  ]
]

-- How the loop ends: with nothing more due, on a valid simulator; or with a RangeError, and then an
-- instant that cannot be printed belongs to a time between the clock and the target.
abbrev pub LoopEnds : ℕ → Simulator → Option (Result SimError Emitted) → Type 0
LoopEnds target s r =
    ((t : Simulator) × (es : List CanonicalTelemetryEvent) × (r ≡ some (ok (t, es)))
      × IsValid t
      × (t.clock ≤ target)
      × IsPast target t.next_emission_at
      × Numbered s.sequence es t.sequence)
    ⊎ ((r ≡ some (err range_error))
        × ((due : ℕ) × (s.clock ≤ due) × (due ≤ target) × (can_emit due s ≡ false)))

clock_le : (at due : ℕ) (s : Simulator) → (fired due s).clock ≤ at → s.clock ≤ at
unfolding fired
clock_le at due s from = ground (arith, from)

after_fired :
    (fuel target due : ℕ) (s : Simulator)
    → s.next_emission_at ≡ some due
    → s.clock ≤ due
    → due ≤ target
    → reached_event_limit s ≡ false
    → can_emit due s ≡ true
    → LoopEnds target (fired due s) (advance_loop fuel target (fired due s))
    → LoopEnds target s (advance_loop (suc fuel) target s)
after_fired fuel target due s e k h l c (inl (t, es, run, w, q, p, n)) = inl (
  t,
  event_at due s ∷ es,
  advance_loop-fire fuel target due s e h l c ∙ ap (push? (event_at due s)) run,
  w,
  q,
  p,
  fired-Numbered due s es t.sequence n,
)
after_fired fuel target due s e k h l c (inr (run, (at, from, to, late))) = inr (
  advance_loop-fire fuel target due s e h l c ∙ ap (push? (event_at due s)) run,
  (at, clock_le at due s from, to, sym (can_emit-fired at due s) ∙ late),
)

-- With enough fuel the loop ends by its own tests.
pub advance_loop_total :
    (fuel target : ℕ) (s : Simulator)
    → IsValid s
    → s.clock ≤ target
    → HasFuel fuel target s.next_emission_at
    → LoopEnds target s (advance_loop fuel target s)
advance_loop_total zero target s v c f = absurd (no s.next_emission_at f)
  where
    no : (next : Option ℕ) → HasFuel 0 target next → ⊥
    no none h = omega arith
    no (some due) h = omega arith
advance_loop_total (suc fuel) target s v c f =
    go (λ due. advance_loop_total fuel target (fired due s)) (round target s)
  where
    go :
        ((due : ℕ)
          → IsValid (fired due s)
          → (fired due s).clock ≤ target
          → HasFuel fuel target (fired due s).next_emission_at
          → LoopEnds target (fired due s) (advance_loop fuel target (fired due s)))
        → Round target s
        → LoopEnds target s (advance_loop (suc fuel) target s)
    go again (idle p) = inl (s, [], advance_loop-idle fuel target s p, v, c, p, refl)
    go again (full due e d l) =
        let (clock, past) = stop_clock target s c in
        inl (
          stop s,
          [],
          advance_loop-stop fuel target due s e d l,
          stop-IsValid s v,
          clock,
          past,
          stop-sequence s,
        )
    go again (fire due e d l p) =
        let (r, k) = due_running s due v e in
        after_fired fuel target due s e k d l p (
          again due (fired-IsValid due s v r e l) (fired_clock target due s k d)
            (fired_fuel fuel target due s v.interval_pos d (rw e at f).1))
    go again (refused due e d l p) =
        inr (advance_loop_refused fuel target due s e d l p, (due, (due_running s due v e).1, d, p))

-- `advance` is the loop up to the target and the clock set to it, whether the simulator runs or not.
pub advance-loop :
    (d : ℕ) (s : Simulator)
    → IsValid s
    → d < 2 ^ 53
    → advance (pos d) s
      ≡ Option.map (finish (s.clock + d)) (advance_loop (s.clock + d + 2) (s.clock + d) s)
unfolding advance
advance-loop d s v h = elim (Bool-cases s.running) [
  | inl r ↦ ground (arith, lt→ltb d (2 ^ 53) h)
  | inr r ↦
      let e : s.clock + d + 2 ≡ suc (s.clock + d + 1) = omega arith in
      ground (
        arith,
        lt→ltb d (2 ^ 53) h,
        ap (λ (f : ℕ). advance_loop f (s.clock + d) s) e,
        advance_loop-idle (s.clock + d + 1) (s.clock + d) s
            (stopped s.running s.next_emission_at v.scheduled r),
      )
]
  where
    stopped :
        (b : Bool) (next : Option ℕ)
        → IsScheduled b next s.clock
        → b ≡ false
        → IsPast (s.clock + d) next
    stopped true none h e = absurd h
    stopped true (some due) h e = cc
    stopped false none h e = tt
    stopped false (some due) h e = absurd h

pub finish_ok :
    (target : ℕ) (s : Simulator) (es : List CanonicalTelemetryEvent)
    → s.clock ≤ target
    → finish target (ok (s, es)) ≡ ok (record s { clock = target }, es)
finish_ok target s es h = ground arith

pub moved-IsValid :
    (target : ℕ) (s : Simulator)
    → IsValid s
    → s.clock ≤ target
    → IsPast target s.next_emission_at
    → IsValid (record s { clock = target })
moved-IsValid target s v h p = record {
  interval_pos = v.interval_pos;
  scheduled = go s.running s.next_emission_at v.scheduled p;
  limited = v.limited;
  queue_first = v.queue_first;
  numbered = v.numbered;
}
  where
    go :
        (b : Bool) (next : Option ℕ)
        → IsScheduled b next s.clock
        → IsPast target next
        → IsScheduled b next target
    go true none h p = h
    go true (some due) h p = omega arith
    go false none h p = h
    go false (some due) h p = h

pub initial_fuel : (target : ℕ) (next : Option ℕ) → HasFuel (target + 2) target next
initial_fuel target none = omega arith
initial_fuel target (some due) = (omega arith, omega arith)

-- How `advance` ends, in the manner of its loop, and with the clock on the target.
abbrev pub AdvanceEnds : ℕ → Simulator → Option (Result SimError Emitted) → Type 0
AdvanceEnds d s r =
    ((t : Simulator) × (es : List CanonicalTelemetryEvent) × (r ≡ some (ok (t, es)))
      × IsValid t
      × (t.clock ≡ s.clock + d)
      × IsPast (s.clock + d) t.next_emission_at
      × Numbered s.sequence es t.sequence)
    ⊎ ((r ≡ some (err range_error))
        × ((due : ℕ) × (s.clock ≤ due) × (due ≤ s.clock + d) × (can_emit due s ≡ false)))

-- `advance` of a valid simulator, to a target that is a safe integer, always ends. Either the clock is then
-- exactly on the target, the invariant holds, nothing more is due by then, and the events that were
-- emitted number on from where the simulator stood; or it throws a RangeError, and this only if an event
-- between the clock and the target would have an instant that cannot be printed.
pub advance_total :
    (d : ℕ) (s : Simulator) → IsValid s → s.clock + d < 2 ^ 53 → AdvanceEnds d s (advance (pos d) s)
advance_total d s v h = ends (
    advance_loop_total (s.clock + d + 2) (s.clock + d) s v (omega arith)
      (initial_fuel (s.clock + d) s.next_emission_at))
  where
    ends :
        LoopEnds (s.clock + d) s (advance_loop (s.clock + d + 2) (s.clock + d) s)
        → AdvanceEnds d s (advance (pos d) s)
    ends (inl (t, es, run, w, k, p, q)) = inl (
      record t { clock = s.clock + d },
      es,
      advance-loop d s v (omega (arith, h))
          ∙ ap (Option.map (finish (s.clock + d))) run
          ∙ ap some (finish_ok (s.clock + d) t es k),
      moved-IsValid (s.clock + d) t w k p,
      refl,
      p,
      q,
    )
    ends (inr (run, late)) =
        inr
          (advance-loop d s v (omega (arith, h)) ∙ ap (Option.map (finish (s.clock + d))) run, late)
