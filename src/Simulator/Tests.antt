-- ===== src/Simulator/Tests.antt =====
-- Runs of the simulator of simulator.ts at concrete configurations.
use kootha.Prelude.{
  false, ℕ, ◌+◌, ◌≡◌, refl, true, Option, none, some, List, [], ◌∷◌, ◌++◌, arith, map,
}
use kootha.Prelude.Number.{pos, negsuc}
use kootha.Simulator.{
  SimError, Simulator, CanonicalTelemetryEvent, Config, given, create, start, step, advance,
  advance_loop, reached_event_limit, emit_due, stop, event_at, flush, invalid_device_id,
  range_error,
}
use kootha.Prelude.Result.{Result, ok, err}
use kootha.Simulator.Random.{seeded}
use kootha.Simulator.Invariant.{IsValid, StepEnds, step_total}
use kootha.Simulator.Advance.{AdvanceEnds, advance_total}
use kootha.Simulator.Split.{advance_split}
use kootha.Simulator.Reachable.{Reachable, Reachable-IsValid}

abbrev config : Config
config = record {
  seed = pos 7;
  start_at = 1000;
  interval_ms = some (pos 10);
  device_clock_offset_ms = some (negsuc 4);
  network_delay_ms = none;
  device_external_id = some "sim-1";
  maximum_event_count = some (pos 3);
}

-- `started` is what `create` and `start` make of the configuration.
abbrev started : Simulator
started = record {
  seed = pos 7;
  interval_ms = 10;
  device_clock_offset_ms = negsuc 4;
  network_delay_ms = 0;
  device_external_id = given "sim-1";
  maximum_event_count = some 3;
  has_sink = true;
  clock = 1000;
  random = 7;
  queue = [];
  delivered = [];
  running = true;
  sequence = 1;
  next_emission_at = some 1000;
}

created : Result SimError Simulator
unfolding create start
created = elim (create config true) [ ok s ↦ ok (start s) | err e ↦ err e ]

created-started : created ≡ ok started
unfolding created create start seeded
created-started = refl

bad_id : create (record config { device_external_id = some "gps-1" }) true ≡ err invalid_device_id
unfolding create
bad_id = refl

started-IsValid : IsValid started
started-IsValid = record {
  interval_pos = omega arith;
  scheduled = omega arith;
  limited = omega arith;
  queue_first = 1;
  numbered = refl;
}

abbrev sequences : Option (Result SimError (Simulator × List CanonicalTelemetryEvent)) → List ℕ
sequences (some (ok (s, es))) = map (λ e. e.received_at) es
sequences _ = []

-- Three events, and then the limit.
three_events : sequences (advance (pos 95) started) ≡ 1000 ∷ 1010 ∷ 1020 ∷ []
unfolding advance advance_loop reached_event_limit emit_due stop event_at
three_events = refl

-- An event that would be received beyond the last instant of a date.
too_late :
    advance (pos 20) (record started { network_delay_ms = 8640000000000000 })
    ≡ some (err range_error)
unfolding advance advance_loop reached_event_limit emit_due
too_late = refl

step_total_example : StepEnds 2 started (step (pos 2) started)
step_total_example = step_total 2 started started-IsValid refl (omega arith)

advance_total_example : AdvanceEnds 95 started (advance (pos 95) started)
advance_total_example = advance_total 95 started started-IsValid (omega arith)

abbrev idle : Simulator
idle = record started { running = false; next_emission_at = none }

Reachable-IsValid_example : IsValid (flush (start idle)).0
unfolding create seeded
Reachable-IsValid_example = Reachable-IsValid (flush (start idle)).0 (
    Reachable.flushed (start idle)
      (Reachable.started idle (Reachable.created config true idle refl)))

abbrev after :
    Option (Result SimError (Simulator × List CanonicalTelemetryEvent))
    → Simulator × List CanonicalTelemetryEvent
after (some (ok r)) = r
after _ = (started, [])

abbrev first_part : Simulator × List CanonicalTelemetryEvent
unfolding advance advance_loop reached_event_limit emit_due stop event_at
first_part = after (advance (pos 15) started)

abbrev second_part : Simulator × List CanonicalTelemetryEvent
unfolding advance advance_loop reached_event_limit emit_due stop event_at
second_part = after (advance (pos 20) first_part.0)

advance_split_example :
    advance (pos (15 + 20)) started ≡ some (ok (second_part.0, first_part.1 ++ second_part.1))
unfolding advance advance_loop reached_event_limit emit_due stop event_at
advance_split_example =
    advance_split 15 20 started first_part.0 second_part.0 first_part.1 second_part.1
      started-IsValid (omega arith) refl refl
