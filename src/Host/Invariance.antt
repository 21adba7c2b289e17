-- ===== src/Host/Invariance.antt =====
-- Rules by which a statement about the calls is carried through the parts of the handler.
use kootha.Prelude.{
  ℕ, ◌+◌, ◌<◌, ◌≡◌, refl, inl, inr, ◌⊎◌, Bool, true, false, ◌&&◌, List, [], ◌∷◌, arith, ltb,
  if◌then◌else◌, Bool-cases, Option-cases, All,
}
use kootha.Prelude.Json.{Text, Value}
use kootha.Host.Reply.{SafeTelemetryEventResult, safe_result}
use kootha.Host.Calls.{
  Outcome, value, thrown, ServerContext, Call, Dependencies, M, continue, return, call_persist,
  persist_call, record_call,
}
use kootha.Host.Handler.{
  Adapter, Normalized, event, invalid, with_result, with_rejection, rejected_result, process,
  record_rejections, is_some,
}

module _ {E : Type 0} where
  -- What holds of the calls before a chain holds after it, if the rest of the chain keeps it.
  pub continue_inv :
      {A B : Type 0} (P : List (Call E) → Type 0) (f : A → M E B) (r : Outcome A × List (Call E))
      → P r.1
      → ((a : A) (calls : List (Call E)) → P calls → P (f a calls).1)
      → P (continue f r).1
  continue_inv P f (value a, calls) h k = k a calls h
  continue_inv P f (thrown, calls) h k = h

  pub continue-value :
      {A B : Type 0} (f : A → M E B) (r : Outcome A × List (Call E)) (b : B)
      → (continue f r).0 ≡ value b
      → (a : A) × (r.0 ≡ value a) × ((f a r.1).0 ≡ value b) × (continue f r ≡ f a r.1)
  continue-value f (value a, calls) b h = (a, refl, h, refl)
  continue-value f (thrown, calls) b h = cc

  pub Normalized-cases :
      (x : Normalized E) → ((e : E) × (x ≡ event e)) ⊎ ((reason : Text) × (x ≡ invalid reason))
  Normalized-cases (event e) = inl (e, refl)
  Normalized-cases (invalid reason) = inr (reason, refl)

abbrev Anything : Value → Type 0
Anything v = Unit

nothing_known : (vs : List Value) → All Anything vs
nothing_known [] = tt
nothing_known (v ∷ vs) = (tt, nothing_known vs)

module _ {E : Type 0} (deps : Dependencies E) (adapter : Adapter E) where
  -- The shapes that one round of the loop over the events can take.
  pub data Round (context : ServerContext) (n kept : ℕ) (raw : Value) (raws : List Value)
      (calls : List (Call E)) : Type 0 where
    stops :
        process deps adapter context n kept (raw ∷ raws) calls ≡ (thrown, calls)
        → Round context n kept raw raws calls
    rejects :
        (reason : Text) (keep : Bool) (kept' : ℕ)
        → adapter.normalize raw context ≡ invalid reason
        → (keep ≡ true → (kept' ≡ kept + 1) × (kept < 10))
        → (keep ≡ false → kept' ≡ kept)
        → process deps adapter context n kept (raw ∷ raws) calls
          ≡ continue
              (λ rest.
                return (
                  with_result
                    (rejected_result raw reason)
                    (with_rejection keep (raw, reason) rest)))
              (process deps adapter context (n + 1) kept' raws calls)
        → Round context n kept raw raws calls
    persists :
        (e : E)
        → adapter.normalize raw context ≡ event e
        → process deps adapter context n kept (raw ∷ raws) calls
          ≡ continue
              (λ answer calls'.
                continue
                  (λ rest. return (with_result (safe_result answer) rest))
                  (process deps adapter context (n + 1) kept raws calls'))
              (call_persist deps e context calls)
        → Round context n kept raw raws calls

  pub round :
      (context : ServerContext) (n kept : ℕ) (raw : Value) (raws : List Value)
      (calls : List (Call E))
      → Round context n kept raw raws calls
  unfolding process
  round context n kept raw raws calls = elim (Bool-cases (deps.aborted calls n)) [
    | inl e ↦ stops (rw (e, process))
    | inr e ↦ elim (Normalized-cases (adapter.normalize raw context)) [
      | inl (x, f) ↦ persists x f (rw (e, process) (rw f))
      | inr (reason, f) ↦
          let keep = is_some deps.record_rejections && ltb kept 10 in
          rejects reason keep (if keep then kept + 1 else kept) f
            (λ h. (ground arith, ground arith)) (λ h. ground arith) (rw (e, process) (rw f))
    ]
  ]

  -- The loop keeps what a call of `persist` keeps, for its context and an event that the adapter makes of
  -- one of the raw events, of which something is known.
  pub process_inv_of :
      (R : Value → Type 0) (P : List (Call E) → Type 0) (context : ServerContext)
      → ((raw : Value) (e : E)
          → R raw
          → adapter.normalize raw context ≡ event e
          → (answer : Outcome SafeTelemetryEventResult) (calls : List (Call E)) → P calls
          → P (persist_call e context answer ∷ calls))
      → (n kept : ℕ) (raws : List Value) (calls : List (Call E)) → All R raws
      → P calls
      → P (process deps adapter context n kept raws calls).1
  process_inv_of R P context step n kept [] calls known h = unfold process in h
  process_inv_of R P context step n kept (raw ∷ raws) calls known h =
      elim (round context n kept raw raws calls) [
        | stops e ↦ rw e h
        | rejects reason keep kept' f g g' e ↦ rw e (
            continue_inv P _ _ (process_inv_of R P context step (n + 1) kept' raws calls known.1 h)
              (λ rest calls' h'. h'))
        | persists x f e ↦ rw e (
            continue_inv P _ (call_persist deps x context calls) (step raw x known.0 f _ calls h)
              (λ answer calls' h'.
                continue_inv P _ _
                  (process_inv_of R P context step (n + 1) kept raws calls' known.1 h')
                  (λ rest calls'' h''. h'')))
      ]

  pub process_inv :
      (P : List (Call E) → Type 0) (context : ServerContext)
      → ((raw : Value) (e : E)
          → adapter.normalize raw context ≡ event e
          → (answer : Outcome SafeTelemetryEventResult) (calls : List (Call E)) → P calls
          → P (persist_call e context answer ∷ calls))
      → (n kept : ℕ) (raws : List Value) (calls : List (Call E)) → P calls
      → P (process deps adapter context n kept raws calls).1
  process_inv P context step n kept raws calls =
      process_inv_of Anything P context (λ raw e known. step raw e) n kept raws calls
        (nothing_known raws)

  pub record_rejections_inv :
      (P : List (Call E) → Type 0) (context : ServerContext) (rs : List (Value × Text))
      → ((answer : Outcome (Unit {0})) (calls : List (Call E))
          → P calls
          → P (record_call rs context answer ∷ calls))
      → (calls : List (Call E)) → P calls
      → P (record_rejections deps adapter context rs calls).1
  record_rejections_inv P context [] step calls h = unfold record_rejections in h
  record_rejections_inv P context (r ∷ rs) step calls h =
      elim (Option-cases deps.record_rejections) [
        | inl e ↦ unfold record_rejections in rw (e, record_rejections) h
        | inr (f, e) ↦ unfold record_rejections in rw (e, record_rejections) (step _ calls h)
      ]
