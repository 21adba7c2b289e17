-- ===== src/Simulator/Reachable.antt =====
-- The states of the simulator that its operations lead to.
use kootha.Prelude.{
  ℕ, ◌≡◌, ◌<◌, ◌^◌, refl, sym, ap, ◌∙◌, subst, inl, inr, Bool, true, some, List, arith,
}
use kootha.Prelude.Number.{ℤ, pos, negsuc}
use kootha.Prelude.Result.{Result, ok}
use kootha.Simulator.{
  SimError, Simulator, CanonicalTelemetryEvent, Emitted, Config, create, start, stop, step, advance,
  flush,
}
use kootha.Simulator.Invariant.{
  IsValid, StepEnds, create-IsValid, start-IsValid, stop-IsValid, flush-IsValid, step_total,
}
use kootha.Simulator.Split.{ran}

-- What a caller may make of a simulator, by calls that do not throw.
pub data Reachable : Simulator → Type 0 where
  created :
      (config : Config) (has_sink : Bool) (s : Simulator)
      → create config has_sink ≡ ok s
      → Reachable s
  started : (s : Simulator) → Reachable s → Reachable (start s)
  stopped : (s : Simulator) → Reachable s → Reachable (stop s)
  flushed : (s : Simulator) → Reachable s → Reachable (flush s).0
  stepped :
      (s t : Simulator) (count : ℤ) (es : List CanonicalTelemetryEvent)
      → Reachable s
      → step count s ≡ ok (t, es)
      → Reachable t
  advanced :
      (s t : Simulator) (duration : ℤ) (es : List CanonicalTelemetryEvent)
      → Reachable s
      → advance duration s ≡ some (ok (t, es))
      → Reachable t

step_runs :
    (s t : Simulator) (count : ℤ) (es : List CanonicalTelemetryEvent)
    → step count s ≡ ok (t, es)
    → (n : ℕ) × (count ≡ pos n) × (n < 2 ^ 53) × (s.running ≡ true)
unfolding step
step_runs s t (pos n) es h = (n, refl, ground (arith, h), ground (arith, h))
step_runs s t (negsuc n) es h = absurd (ground (arith, h))

advance_runs :
    (s t : Simulator) (duration : ℤ) (es : List CanonicalTelemetryEvent)
    → advance duration s ≡ some (ok (t, es))
    → (d : ℕ) × (duration ≡ pos d) × (d < 2 ^ 53)
unfolding advance
advance_runs s t (pos d) es h = (d, refl, ground (arith, h))
advance_runs s t (negsuc d) es h = absurd (ground (arith, h))

step-IsValid :
    (s t : Simulator) (count : ℤ) (es : List CanonicalTelemetryEvent)
    → IsValid s
    → step count s ≡ ok (t, es)
    → IsValid t
step-IsValid s t count es v h =
    let (n, e, l, r) = step_runs s t count es h in
    ended (step_total n s v r l) (ap (λ c. step c s) (sym e) ∙ h)
  where
    ended : {n : ℕ} {q : Result SimError Emitted} → StepEnds n s q → q ≡ ok (t, es) → IsValid t
    ended (inl (t', es', run, w, k)) h = subst IsValid (ground (arith, sym run ∙ h)) w
    ended (inr (run, late)) h = absurd (ground (arith, sym run ∙ h))

-- Every simulator that the constructor makes and its operations lead to, in any order, by calls
-- that do not throw, is valid: it runs
-- exactly if an emission is due, and none is due in the past; it has emitted no more than its limit; and
-- the events of its queue are numbered one after the other, up to the number that comes next.
pub Reachable-IsValid : (s : Simulator) → Reachable s → IsValid s
Reachable-IsValid _ (created config has_sink s h) = create-IsValid config has_sink s h
Reachable-IsValid _ (started r h) = start-IsValid r (Reachable-IsValid r h)
Reachable-IsValid _ (stopped r h) = stop-IsValid r (Reachable-IsValid r h)
Reachable-IsValid _ (flushed r h) = flush-IsValid r (Reachable-IsValid r h)
Reachable-IsValid _ (stepped r s count es h run) =
    step-IsValid r s count es (Reachable-IsValid r h) run
Reachable-IsValid _ (advanced r s duration es h run) =
    let (d, e, l) = advance_runs r s duration es run in
    let (t, loop, le, same, valid) =
      ran d r s es (Reachable-IsValid r h) l (ap (λ c. advance c r) (sym e) ∙ run) in
    valid
