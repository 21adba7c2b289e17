-- ===== src/Simulator/Invariant.antt =====
-- The invariant of the simulator, and how `step` ends.
use kootha.Prelude.{
  ℕ, zero, suc, ◌+◌, ◌≤◌, ◌<◌, ◌^◌, ◌≡◌, refl, ap, sym, ◌∙◌, inl, inr, Bool, true, false, Option,
  none, some, List, [], ◌∷◌, ◌++◌, arith, if◌then◌else◌, ltb, Bool-cases, lt→ltb, subst, ◌*◌, ◌⊎◌,
}
use kootha.Prelude.Number.{pos}
use kootha.Simulator.Random.{next}
use kootha.Simulator.{
  Simulator, CanonicalTelemetryEvent, Config, create, start, stop, step, step_loop, flush, event_at,
  emit_due, reached_event_limit, push, can_emit, range_error, SimError, Emitted,
}
use kootha.Prelude.Result.{Result, ok, err}

-- Consecutive sequence numbers, from the first to just before the second.
abbrev pub Numbered : ℕ → List CanonicalTelemetryEvent → ℕ → Type 0
Numbered first [] end = first ≡ end
Numbered first (e ∷ es) end = (e.sequence ≡ first) × Numbered (suc first) es end

Numbered-append :
    (first : ℕ) (es : List CanonicalTelemetryEvent) (e : CanonicalTelemetryEvent) (end : ℕ)
    → Numbered first es end
    → e.sequence ≡ end
    → Numbered first (es ++ e ∷ []) (suc end)
Numbered-append first [] e end h k = (k ∙ sym h, ap suc h)
Numbered-append first (x ∷ es) e end h k = (h.0, Numbered-append (suc first) es e end h.1 k)

-- A simulator runs exactly if an emission is due, and none is due in the past.
abbrev pub IsScheduled : Bool → Option ℕ → ℕ → Type 0
IsScheduled true none clock = ⊥
IsScheduled true (some due) clock = clock ≤ due
IsScheduled false none clock = Unit
IsScheduled false (some due) clock = ⊥

abbrev pub IsWithin : ℕ → Option ℕ → Type 0
IsWithin sequence none = Unit
IsWithin sequence (some limit) = sequence ≤ limit + 1

pub record IsValid (s : Simulator) : Type 0 where
  pub interval_pos : 0 < s.interval_ms
  pub scheduled : IsScheduled s.running s.next_emission_at s.clock
  pub limited : IsWithin s.sequence s.maximum_event_count
  pub queue_first : ℕ
  pub numbered : Numbered queue_first s.queue s.sequence

-- The state after an emission that is due.
unfoldable pub fired : ℕ → Simulator → Simulator
fired due s = record s {
  random = (next s.random).0;
  sequence = s.sequence + 1;
  queue = s.queue ++ event_at due s ∷ [];
  delivered = if s.has_sink then s.delivered ++ event_at due s ∷ [] else s.delivered;
  clock = if ltb s.clock due then due else s.clock;
  next_emission_at = some (due + s.interval_ms);
}

pub emit_due-fired :
    (due : ℕ) (s : Simulator)
    → can_emit due s ≡ true
    → emit_due due s ≡ ok (fired due s, event_at due s)
unfolding emit_due fired event_at
emit_due-fired due s h = ground (arith, h)

pub emit_due_refused :
    (due : ℕ) (s : Simulator) → can_emit due s ≡ false → emit_due due s ≡ err range_error
unfolding emit_due
emit_due_refused due s h = ground (arith, h)

-- Whether an instant can be printed does not depend on what an emission changes.
pub can_emit-fired : (at due : ℕ) (s : Simulator) → can_emit at (fired due s) ≡ can_emit at s
unfolding can_emit fired
can_emit-fired at due s = refl

pub fired-IsValid :
    (due : ℕ) (s : Simulator)
    → IsValid s
    → s.running ≡ true
    → s.next_emission_at ≡ some due
    → reached_event_limit s ≡ false
    → IsValid (fired due s)
unfolding fired reached_event_limit event_at
fired-IsValid due s v r n l = record {
  interval_pos = v.interval_pos;
  scheduled = ground (arith, v.scheduled);
  limited = ground (arith, v.limited);
  queue_first = v.queue_first;
  numbered =
      let e : s.sequence + 1 ≡ suc s.sequence = omega arith in
      rw e (Numbered-append v.queue_first s.queue (event_at due s) s.sequence v.numbered refl);
}

pub stop-IsValid : (s : Simulator) → IsValid s → IsValid (stop s)
unfolding stop
stop-IsValid s v = record {
  interval_pos = v.interval_pos;
  scheduled = tt;
  limited = v.limited;
  queue_first = v.queue_first;
  numbered = v.numbered;
}

pub start-IsValid : (s : Simulator) → IsValid s → IsValid (start s)
unfolding start
start-IsValid s v = record {
  interval_pos = ground (arith, v.interval_pos);
  scheduled = ground (arith, v.scheduled);
  limited = ground (arith, v.limited);
  queue_first = v.queue_first;
  numbered = ground (arith, v.numbered);
}

pub flush-IsValid : (s : Simulator) → IsValid s → IsValid (flush s).0
unfolding flush
flush-IsValid s v = record {
  interval_pos = v.interval_pos;
  scheduled = v.scheduled;
  limited = v.limited;
  queue_first = s.sequence;
  numbered = refl;
}

pub create-IsValid :
    (config : Config) (has_sink : Bool) (s : Simulator) → create config has_sink ≡ ok s → IsValid s
unfolding create
create-IsValid config has_sink s h = record {
  interval_pos = ground arith;
  scheduled = ground arith;
  limited = ground arith;
  queue_first = 1;
  numbered = ground arith;
}

-- A simulator that runs has a due time, which is not past.
pub due_of :
    (s : Simulator)
    → IsValid s
    → s.running ≡ true
    → (due : ℕ) × (s.next_emission_at ≡ some due) × (s.clock ≤ due)
due_of s v r = go s.running s.next_emission_at v.scheduled r
  where
    go :
        (b : Bool) (next : Option ℕ)
        → IsScheduled b next s.clock
        → b ≡ true
        → (due : ℕ) × (next ≡ some due) × (s.clock ≤ due)
    go true none h e = absurd h
    go true (some due) h e = (due, refl, h)
    go false next h e = cc

-- The event that is emitted carries the next number, and those after it follow on.
pub fired-Numbered :
    (due : ℕ) (s : Simulator) (es : List CanonicalTelemetryEvent) (end : ℕ)
    → Numbered (fired due s).sequence es end
    → Numbered s.sequence (event_at due s ∷ es) end
unfolding fired event_at
fired-Numbered due s es end k =
    (refl, let e : s.sequence + 1 ≡ suc s.sequence = omega arith in rw e at k)

pub stop-sequence : (s : Simulator) → s.sequence ≡ (stop s).sequence
unfolding stop
stop-sequence s = refl

pub fired_running : (due : ℕ) (s : Simulator) → s.running ≡ true → (fired due s).running ≡ true
unfolding fired
fired_running due s r = r

step_loop-fire :
    (n due : ℕ) (s : Simulator)
    → reached_event_limit s ≡ false
    → s.next_emission_at ≡ some due
    → can_emit due s ≡ true
    → step_loop (suc n) s ≡ push (event_at due s) (step_loop n (fired due s))
unfolding step_loop
step_loop-fire n due s l d c = ground (arith, emit_due-fired due s c)

step_loop_refused :
    (n due : ℕ) (s : Simulator)
    → reached_event_limit s ≡ false
    → s.next_emission_at ≡ some due
    → can_emit due s ≡ false
    → step_loop (suc n) s ≡ err range_error
unfolding step_loop
step_loop_refused n due s l d c = ground (arith, emit_due_refused due s c)

step_loop-stop :
    (n : ℕ) (s : Simulator) → reached_event_limit s ≡ true → step_loop (suc n) s ≡ ok (stop s, [])
unfolding step_loop
step_loop-stop n s l = ground arith

-- How `step` ends: with the next events, on a valid simulator; or with a RangeError, and then one of the
-- next `n` events, an interval apart from the one that is due, has an instant that cannot be printed.
abbrev pub StepEnds : ℕ → Simulator → Result SimError Emitted → Type 0
StepEnds n s r =
    ((t : Simulator) × (es : List CanonicalTelemetryEvent) × (r ≡ ok (t, es))
      × IsValid t
      × Numbered s.sequence es t.sequence)
    ⊎ ((r ≡ err range_error)
        × ((due : ℕ) × (k : ℕ) × (s.next_emission_at ≡ some due)
            × (k < n)
            × (can_emit (due + k * s.interval_ms) s ≡ false)))

later_due : (due due' k i : ℕ) → due + i ≡ due' → due + (k + 1) * i ≡ due' + k * i
later_due due due' k i h = grind (arith, h)

first_due : (due i : ℕ) → due + 0 * i ≡ due
first_due due i = omega arith

after_fired :
    (n due : ℕ) (s : Simulator)
    → s.next_emission_at ≡ some due
    → reached_event_limit s ≡ false
    → can_emit due s ≡ true
    → StepEnds n (fired due s) (step_loop n (fired due s))
    → StepEnds (suc n) s (step_loop (suc n) s)
unfolding fired
after_fired n due s d e c (inl (t, es, run, w, k)) = inl (
  t,
  event_at due s ∷ es,
  step_loop-fire n due s e d c ∙ ap (push (event_at due s)) run,
  w,
  fired-Numbered due s es t.sequence k,
)
after_fired n due s d e c (inr (run, (due', k, d', l, refused))) = inr (
  step_loop-fire n due s e d c ∙ ap (push (event_at due s)) run,
  (
    due,
    k + 1,
    d,
    omega (arith, l),
    ap (λ a. can_emit a s) (later_due due due' k s.interval_ms (ground (arith, d')))
        ∙ (sym (can_emit-fired (due' + k * s.interval_ms) due s) ∙ refused),
  ),
)

step_loop_total :
    (n : ℕ) (s : Simulator) → IsValid s → s.running ≡ true → StepEnds n s (step_loop n s)
unfolding step_loop
step_loop_total zero s v r = inl (s, [], refl, v, refl)
step_loop_total (suc n) s v r = elim (Bool-cases (reached_event_limit s)) [
  | inl e ↦ inl (stop s, [], step_loop-stop n s e, stop-IsValid s v, stop-sequence s)
  | inr e ↦
      let (due, d, c) = due_of s v r in
      elim (Bool-cases (can_emit due s)) [
        | inl p ↦
            after_fired n due s d e p (
              step_loop_total n (fired due s) (fired-IsValid due s v r d e) (fired_running due s r))
        | inr p ↦ inr (
          step_loop_refused n due s e d p,
          (due, 0, d, omega arith, ap (λ a. can_emit a s) (first_due due s.interval_ms) ∙ p),
        )
      ]
]

-- `step` on a valid simulator that runs, with a count that is a safe integer from 0 up, keeps the
-- invariant and emits events that number on from where the simulator stood; or it throws a RangeError,
-- and this only if one of the events that it was to emit has an instant that cannot be printed.
pub step_total :
    (n : ℕ) (s : Simulator)
    → IsValid s
    → s.running ≡ true
    → n < 2 ^ 53
    → StepEnds n s (step (pos n) s)
unfolding step
step_total n s v r h =
    subst (StepEnds n s) (ground (arith, r, lt→ltb n (2 ^ 53) h)) (step_loop_total n s v r)
