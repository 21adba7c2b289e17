-- ===== src/Simulator/Split.antt =====
-- An advance may be cut in two: the simulator has no time of its own but the virtual clock.
use mathlib.Core.Option
use kootha.Prelude.{
  ℕ, zero, suc, ◌+◌, ◌≤◌, ◌<◌, ◌^◌, ◌≡◌, refl, ap, sym, ◌∙◌, subst, ap₂, subst₂, inl, inr, Bool,
  Option, none, some, List, [], ◌∷◌, ◌++◌, arith,
}
use kootha.Prelude.Number.{pos}
use kootha.Simulator.{
  SimError, Simulator, CanonicalTelemetryEvent, Emitted, stop, advance_loop, advance, event_at,
  reached_event_limit, push?, finish, push, can_emit, range_error,
}
use kootha.Prelude.Result.{Result, ok, err}
use kootha.Simulator.Invariant.{IsValid, fired, fired-IsValid}
use kootha.Simulator.Advance.{
  IsPast, Round, idle, full, fire, refused, round, advance_loop_refused, LoopEnds,
  advance_loop-idle, advance_loop-stop, advance_loop-fire, advance-loop, due_running, fired_clock,
  advance_loop_total, initial_fuel, finish_ok, moved-IsValid,
}

pushed :
    (e : CanonicalTelemetryEvent) (r : Option (Result SimError Emitted))
    (q : Result SimError Emitted)
    → push? e r ≡ some q
    → (p : Result SimError Emitted) × (r ≡ some p) × (q ≡ push e p)
pushed e none q h = cc
pushed e (some p) q h = (p, refl, ground (arith, h))

pushed_ok :
    (e : CanonicalTelemetryEvent) (r : Option (Result SimError Emitted)) (u : Simulator)
    (fs : List CanonicalTelemetryEvent)
    → push? e r ≡ some (ok (u, fs))
    → (gs : List CanonicalTelemetryEvent) × (r ≡ some (ok (u, gs))) × (fs ≡ e ∷ gs)
pushed_ok e none u fs h = cc
pushed_ok e (some (ok (t, gs))) u fs h = (gs, ground arith, ground arith)
pushed_ok e (some (err x)) u fs h = cc

refused_ok :
    {r : Option (Result SimError Emitted)} {p : Emitted}
    → r ≡ some (err range_error)
    → r ≡ some (ok p)
    → ⊥
refused_ok h k = cc

ended :
    (s u : Simulator) (fs : List CanonicalTelemetryEvent)
    → ◌≡◌ {A = Option (Result SimError Emitted)} (some (ok (s, []))) (some (ok (u, fs)))
    → (s ≡ u) × (fs ≡ [])
ended s u fs h = (ground arith, ground arith)

no_fuel :
    (target : ℕ) (s : Simulator) (r : Result SimError Emitted)
    → advance_loop zero target s ≡ some r
    → ⊥
unfolding advance_loop
no_fuel target s r h = cc

-- With more fuel the loop does the same.
loop_stable :
    (f g target : ℕ) (s : Simulator) (r : Result SimError Emitted)
    → f ≤ g
    → advance_loop f target s ≡ some r
    → advance_loop g target s ≡ some r
loop_stable zero g target s r l h = absurd (no_fuel target s r h)
loop_stable (suc f) zero target s r l h = absurd (omega arith)
loop_stable (suc f) (suc g) target s r l h =
    go (λ s' q. loop_stable f g target s' q (omega arith)) (round target s)
  where
    go :
        ((s' : Simulator) (q : Result SimError Emitted)
          → advance_loop f target s' ≡ some q
          → advance_loop g target s' ≡ some q)
        → Round target s
        → advance_loop (suc g) target s ≡ some r
    go again (idle p) = advance_loop-idle g target s p ∙ sym (advance_loop-idle f target s p) ∙ h
    go again (full due e d l) =
        advance_loop-stop g target due s e d l ∙ sym (advance_loop-stop f target due s e d l) ∙ h
    go again (fire due e d l c) =
        let (q, run, eq) =
          pushed (event_at due s) (advance_loop f target (fired due s)) r
            (sym (advance_loop-fire f target due s e d l c) ∙ h) in
        advance_loop-fire g target due s e d l c
        ∙ ap (push? (event_at due s)) (again (fired due s) q run)
        ∙ ap (λ (x : Result SimError Emitted). some x) (sym eq)
    go again (refused due e d l c) =
        advance_loop_refused g target due s e d l c
        ∙ sym (advance_loop_refused f target due s e d l c)
        ∙ h

-- The same simulator but for the clock.
abbrev SameButClock : Simulator → Simulator → Type 0
SameButClock s t = record s { clock = 0 } ≡ record t { clock = 0 }

limit_free :
    (s : Simulator) (c : ℕ) {b : Bool}
    → reached_event_limit s ≡ b
    → reached_event_limit (record s { clock = c }) ≡ b
unfolding reached_event_limit
limit_free s c h = h

emit_free :
    (at c : ℕ) (s : Simulator) {b : Bool}
    → can_emit at s ≡ b
    → can_emit at (record s { clock = c }) ≡ b
unfolding can_emit
emit_free at c s h = h

stop_free : (s : Simulator) (c : ℕ) → SameButClock (stop s) (stop (record s { clock = c }))
unfolding stop
stop_free s c = refl

event_free : (due c : ℕ) (s : Simulator) → event_at due (record s { clock = c }) ≡ event_at due s
unfolding event_at
event_free due c s = refl

fired_free :
    (due c : ℕ) (s : Simulator)
    → s.clock ≤ due
    → c ≤ due
    → fired due (record s { clock = c }) ≡ fired due s
unfolding fired event_at
fired_free due c s h k = ground arith

-- Where the clock stands before the next due time makes no difference.
clock_free :
    (f target c : ℕ) (s u : Simulator) (fs : List CanonicalTelemetryEvent)
    → IsValid s
    → ((due : ℕ) → s.next_emission_at ≡ some due → c ≤ due)
    → advance_loop f target (record s { clock = c }) ≡ some (ok (u, fs))
    → (u' : Simulator) × (advance_loop f target s ≡ some (ok (u', fs))) × SameButClock u' u
clock_free zero target c s u fs v k h = absurd (no_fuel target _ _ h)
clock_free (suc f) target c s u fs v k h = go (round target s)
  where
    t : Simulator
    t = record s { clock = c }

    go :
        Round target s
        → (u' : Simulator) × (advance_loop (suc f) target s ≡ some (ok (u', fs)))
          × SameButClock u' u
    go (idle p) =
        let (eu, ef) = ended t u fs (sym (advance_loop-idle f target t p) ∙ h) in
        (
          s,
          advance_loop-idle f target s p
              ∙ ap (λ (x : List CanonicalTelemetryEvent). some (ok (s, x))) (sym ef),
          ap (λ (x : Simulator). record x { clock = 0 }) eu,
        )
    go (full due e d r) =
        let (eu, ef) =
          ended (stop t) u fs (sym (advance_loop-stop f target due t e d (limit_free s c r)) ∙ h) in
        (
          stop s,
          advance_loop-stop f target due s e d r
              ∙ ap (λ (x : List CanonicalTelemetryEvent). some (ok (stop s, x))) (sym ef),
          stop_free s c ∙ ap (λ (x : Simulator). record x { clock = 0 }) eu,
        )
    go (fire due e d r i) = (
      u,
      advance_loop-fire f target due s e d r i
          ∙ sym (
              ap₂ (λ x y. push? x (advance_loop f target y)) (event_free due c s)
                (fired_free due c s (due_running s due v e).1 (k due e)))
          ∙ sym (advance_loop-fire f target due t e d (limit_free s c r) (emit_free due c s i))
          ∙ h,
      refl,
    )
    go (refused due e d r i) = absurd (
        refused_ok
          (advance_loop_refused f target due t e d (limit_free s c r) (emit_free due c s i)) h)

past :
    (next : Option ℕ) (due : ℕ) {target : ℕ} → IsPast target next → next ≡ some due → target ≤ due
past none due p e = cc
past (some d) due p e = ground arith

-- A stopped simulator emits nothing.
stopped_ended :
    (g far near : ℕ) (s u : Simulator) (fs : List CanonicalTelemetryEvent)
    → advance_loop g far (record (stop s) { clock = near }) ≡ some (ok (u, fs))
    → SameButClock (stop s) u × (fs ≡ [])
unfolding advance_loop stop
stopped_ended zero far near s u fs h = cc
stopped_ended (suc g) far near s u fs h =
    let (eu, ef) = ended (record (stop s) { clock = near }) u fs h in
    (ap (λ (x : Simulator). record x { clock = 0 }) eu, ef)

-- A loop up to the first target and a loop from there up to the second are one loop up to the second.
loop_split :
    (f g near far : ℕ) (s t u : Simulator) (es fs : List CanonicalTelemetryEvent)
    → near ≤ far
    → IsValid s
    → s.clock ≤ near
    → advance_loop f near s ≡ some (ok (t, es))
    → advance_loop g far (record t { clock = near }) ≡ some (ok (u, fs))
    → (n : ℕ) × (u' : Simulator) × (advance_loop n far s ≡ some (ok (u', es ++ fs)))
      × SameButClock u' u
loop_split zero g near far s t u es fs l v c h k = absurd (no_fuel near s _ h)
loop_split (suc f) g near far s t u es fs l v c h k =
    go (λ s' gs. loop_split f g near far s' t u gs fs l) (round near s)
  where
    go :
        ((s' : Simulator) (gs : List CanonicalTelemetryEvent)
          → IsValid s'
          → s'.clock ≤ near
          → advance_loop f near s' ≡ some (ok (t, gs))
          → advance_loop g far (record t { clock = near }) ≡ some (ok (u, fs))
          → (n : ℕ) × (u' : Simulator) × (advance_loop n far s' ≡ some (ok (u', gs ++ fs)))
            × SameButClock u' u)
        → Round near s
        → (n : ℕ) × (u' : Simulator) × (advance_loop n far s ≡ some (ok (u', es ++ fs)))
          × SameButClock u' u
    go again (idle p) =
        let (et, ee) = ended s t es (sym (advance_loop-idle f near s p) ∙ h) in
        let k' =
          subst
            (λ (x : Simulator). advance_loop g far (record x { clock = near }) ≡ some (ok (u, fs)))
            (sym et) k in
        let (u', run, same) =
          clock_free g far near s u fs v (λ due e. past s.next_emission_at due p e) k' in
        (
          g,
          u',
          run ∙ ap (λ (x : List CanonicalTelemetryEvent). some (ok (u', x ++ fs))) (sym ee),
          same,
        )
    go again (full due e d r) =
        let (et, ee) = ended (stop s) t es (sym (advance_loop-stop f near due s e d r) ∙ h) in
        let k' =
          subst
            (λ (x : Simulator). advance_loop g far (record x { clock = near }) ≡ some (ok (u, fs)))
            (sym et) k in
        let (eu, ef) = stopped_ended g far near s u fs k' in
        (
          1,
          stop s,
          advance_loop-stop 0 far due s e (omega arith) r
              ∙ ap₂ (λ (x y : List CanonicalTelemetryEvent). some (ok (stop s, x ++ y))) (sym ee)
                  (sym ef),
          eu,
        )
    go again (refused due e d r i) =
        absurd (refused_ok (advance_loop_refused f near due s e d r i) h)
    go again (fire due e d r i) =
        let (gs, run, eq) =
          pushed_ok (event_at due s) (advance_loop f near (fired due s)) t es
            (sym (advance_loop-fire f near due s e d r i) ∙ h) in
        let (running, due_now) = due_running s due v e in
        let (n, u', run', same) =
          again (fired due s) gs (fired-IsValid due s v running e r)
            (fired_clock near due s due_now d) run k in
        (
          suc n,
          u',
          advance_loop-fire n far due s e (omega arith) r i
              ∙ ap (push? (event_at due s)) run'
              ∙ ap (λ (x : List CanonicalTelemetryEvent). some (ok (u', x ++ fs))) (sym eq),
          same,
        )

same_result :
    (s u : Simulator) (es fs : List CanonicalTelemetryEvent)
    → ◌≡◌ {A = Option (Result SimError Emitted)} (some (ok (s, es))) (some (ok (u, fs)))
    → (s ≡ u) × (es ≡ fs)
same_result s u es fs h = (ground arith, ground arith)

-- The loop that a successful advance has run.
pub ran :
    (d : ℕ) (s t : Simulator) (es : List CanonicalTelemetryEvent)
    → IsValid s
    → d < 2 ^ 53
    → advance (pos d) s ≡ some (ok (t, es))
    → (t' : Simulator) × (advance_loop (s.clock + d + 2) (s.clock + d) s ≡ some (ok (t', es)))
      × (t'.clock ≤ s.clock + d)
      × (record t' { clock = s.clock + d } ≡ t)
      × IsValid t
ran d s t es v l h = ends (
    advance_loop_total (s.clock + d + 2) (s.clock + d) s v (omega arith)
      (initial_fuel (s.clock + d) s.next_emission_at))
  where
    advanced :
        (r : Result SimError Emitted)
        → advance_loop (s.clock + d + 2) (s.clock + d) s ≡ some r
        → some (finish (s.clock + d) r) ≡ some (ok (t, es))
    advanced r run = sym (advance-loop d s v l ∙ ap (Option.map (finish (s.clock + d))) run) ∙ h

    ends :
        LoopEnds (s.clock + d) s (advance_loop (s.clock + d + 2) (s.clock + d) s)
        → (t' : Simulator) × (advance_loop (s.clock + d + 2) (s.clock + d) s ≡ some (ok (t', es)))
          × (t'.clock ≤ s.clock + d)
          × (record t' { clock = s.clock + d } ≡ t)
          × IsValid t
    ends (inl (t', es', run, w, k, p, q)) =
        let (et, ee) =
          same_result (record t' { clock = s.clock + d }) t es' es
            (sym (ap some (finish_ok (s.clock + d) t' es' k)) ∙ advanced (ok (t', es')) run) in
        (
          t',
          run ∙ ap (λ (x : List CanonicalTelemetryEvent). some (ok (t', x))) ee,
          k,
          et,
          subst IsValid et (moved-IsValid (s.clock + d) t' w k p),
        )
    ends (inr (run, late)) = absurd (refused_ok refl (advanced (err range_error) run))

-- A loop that ends well on some fuel does so on the fuel that `advance` has.
whole_run :
    (n far : ℕ) (s w : Simulator) (es : List CanonicalTelemetryEvent)
    → IsValid s
    → s.clock ≤ far
    → advance_loop n far s ≡ some (ok (w, es))
    → (w.clock ≤ far) × (advance_loop (far + 2) far s ≡ some (ok (w, es)))
whole_run n far s w es v c once =
    ends (advance_loop_total (far + 2) far s v c (initial_fuel far s.next_emission_at))
  where
    on_more : advance_loop (n + (far + 2)) far s ≡ some (ok (w, es))
    on_more = loop_stable n (n + (far + 2)) far s (ok (w, es)) (omega arith) once

    ends :
        LoopEnds far s (advance_loop (far + 2) far s)
        → (w.clock ≤ far) × (advance_loop (far + 2) far s ≡ some (ok (w, es)))
    ends (inl (z, gs, whole, x, zc, p, q)) =
        let (ez, eg) = same_result z w gs es (
          sym (loop_stable (far + 2) (n + (far + 2)) far s (ok (z, gs)) (omega arith) whole)
          ∙ on_more) in
        (
          omega (arith, zc, ap (λ (y : Simulator). y.clock) ez),
          whole
              ∙ ap₂ (λ (y : Simulator) (ys : List CanonicalTelemetryEvent). some (ok (y, ys))) ez
                  eg,
        )
    ends (inr (run, late)) = absurd (
        refused_ok (loop_stable (far + 2) (n + (far + 2)) far s (err range_error) (omega arith) run)
          on_more)

-- Advancing twice is advancing once by the sum: the events are the same, in order, and the simulator is
-- left in the same state, clock, due time, queue, generator and all.
pub advance_split :
    (a b : ℕ) (s t u : Simulator) (es fs : List CanonicalTelemetryEvent)
    → IsValid s
    → a + b < 2 ^ 53
    → advance (pos a) s ≡ some (ok (t, es))
    → advance (pos b) t ≡ some (ok (u, fs))
    → advance (pos (a + b)) s ≡ some (ok (u, es ++ fs))
advance_split a b s t u es fs v l h k =
    let near = s.clock + a in
    let far = s.clock + (a + b) in
    let (t', run, _, et, vt) = ran a s t es v (omega arith) h in
    let (u', run', _, eu, vu) = ran b t u fs vt (omega arith) k in
    let e : t.clock + b ≡ far = omega (arith, ap (λ (x : Simulator). x.clock) et) in
    let from_near : advance_loop (t.clock + b + 2) far (record t' { clock = near })
        ≡ some (ok (u', fs)) =
      subst₂ (λ (n : ℕ) (x : Simulator). advance_loop (t.clock + b + 2) n x ≡ some (ok (u', fs))) e
        (sym et) run' in
    let (n, w, once, same) =
      loop_split (near + 2) (t.clock + b + 2) near far s t' u' es fs (omega arith) v (omega arith)
        run from_near in
    let (target_le, whole) = whole_run n far s w (es ++ fs) v (omega arith) once in
    advance-loop (a + b) s v l
    ∙ ap (Option.map (finish far)) whole
    ∙ ap some (finish_ok far w (es ++ fs) target_le)
    ∙ ap (λ (x : Simulator). some (ok (record x { clock = far }, es ++ fs))) same
    ∙ ap (λ (c : ℕ). some (ok (record u' { clock = c }, es ++ fs))) (sym e)
    ∙ ap (λ (x : Simulator). some (ok (x, es ++ fs))) eu
