-- ===== src/Worker/Bounds.antt =====
-- How much a run of rule-worker.ts asks of the database.
use kootha.Prelude.{
  ℕ, ◌≤◌, sym, subst, Option, none, some, List, [], ◌∷◌, arith, length, length-append, All,
  All-append, All-map_imp,
}
use kootha.Prelude.Number.{Number, integer, fraction, infinity, nan, pos, negsuc}
use kootha.Prelude.Json.{Value}
use kootha.Prelude.Result.{Result, ok, err}
use kootha.Worker.{
  Call, sweep_call, queue_call, retention_call, Runtime, Totals, no_totals, work_queue, compact,
  after_sweep, run_m22_rule_worker, bounded_integer, WorkerError, SafeWorkerSummary, exact_counts,
  sweep_names, rpc_failed,
}
use kootha.Worker.Balance.{IsWorked, IsQueueCall, worked, compact_calls}

-- A call asks for between 1 and 500 rows.
abbrev pub IsSized : Call → Type 0
IsSized (sweep_call n answer) = (1 ≤ n) × (n ≤ 500)
IsSized (queue_call n answer) = (1 ≤ n) × (n ≤ 500)
IsSized (retention_call n answer) = (1 ≤ n) × (n ≤ 500)

abbrev pub IsModest : List Call → Type 0
IsModest calls = (length calls ≤ 6) × All IsSized calls

-- A size between 1 and the maximum, whatever the environment says.
pub bounded_integer_bounds :
    (size : Option Number) (fallback maximum : ℕ)
    → 1 ≤ fallback
    → fallback ≤ maximum
    → (1 ≤ bounded_integer size fallback maximum)
      × (bounded_integer size fallback maximum ≤ maximum)
unfolding bounded_integer
bounded_integer_bounds none f m h k = (h, k)
bounded_integer_bounds (some (integer (pos n))) f m h k = ground (arith, h, k)
bounded_integer_bounds (some (integer (negsuc n))) f m h k = ground (arith, h, k)
bounded_integer_bounds (some (fraction n)) f m h k = (h, k)
bounded_integer_bounds (some infinity) f m h k = (h, k)
bounded_integer_bounds (some nan) f m h k = (h, k)

queue-IsSized : (c : Call) → IsQueueCall c → IsSized c
queue-IsSized (queue_call n answer) h = omega (arith, h)
queue-IsSized (sweep_call n answer) h = absurd h
queue-IsSized (retention_call n answer) h = absurd h

module _ (runtime : Runtime) where
  compact-IsModest :
      (batch devices signals : ℕ) (r : Result WorkerError Totals × List Call)
      → (1 ≤ batch) × (batch ≤ 500)
      → length r.1 ≤ 5
      → All IsSized r.1
      → IsModest (compact runtime batch devices signals r).1
  unfolding compact
  compact-IsModest batch devices signals (err e, calls) b l s = (omega (arith, l), s)
  compact-IsModest batch devices signals (ok totals, calls) b l s =
      subst IsModest (sym (compact_calls runtime batch devices signals totals calls))
        (omega (arith, l), (b, s))

  work_queue-IsSized :
      (size : ℕ) (first : Option Value) (r : Result WorkerError Totals × List Call)
      → (1 ≤ size) × (size ≤ 500)
      → IsWorked 4 no_totals (sweep_call size first ∷ []) r
      → (length r.1 ≤ 5) × All IsSized r.1
  work_queue-IsSized size first r b w =
      subst (λ calls. (length calls ≤ 5) × All IsSized calls) (sym w.extends)
        (
          omega (arith, w.few, length-append w.batch (sweep_call size first ∷ [])),
          All-append IsSized w.batch (sweep_call size first ∷ [])
              (All-map_imp w.batch queue-IsSized w.queues) (b, tt),
        )

  after_sweep-IsModest :
      (batch size : ℕ) (first : Option Value) (counts : Option (List ℕ))
      → (1 ≤ batch) × (batch ≤ 500)
      → (1 ≤ size) × (size ≤ 500)
      → IsModest (after_sweep runtime batch counts (sweep_call size first ∷ [])).1
  after_sweep-IsModest batch size first none b c = (omega arith, (c, tt))
  after_sweep-IsModest batch size first (some []) b c = (omega arith, (c, tt))
  after_sweep-IsModest batch size first (some (d ∷ [])) b c = (omega arith, (c, tt))
  after_sweep-IsModest batch size first (some (d ∷ g ∷ [])) b c =
      let r = work_queue runtime 4 no_totals (sweep_call size first ∷ []) in
      let (few, sized) =
        work_queue-IsSized size first r c
          (worked runtime 4 no_totals (sweep_call size first ∷ [])) in
      compact-IsModest batch d g r b few sized
  after_sweep-IsModest batch size first (some (d ∷ g ∷ x ∷ xs)) b c = (omega arith, (c, tt))

  -- A run makes at most six calls, and each asks for between 1 and 500 rows, whatever the environment
  -- says, whatever the database answers, and also where the run fails.
  pub run_m22_rule_worker-IsModest :
      (sweep_size retention_size : Option Number)
      → IsModest (run_m22_rule_worker runtime sweep_size retention_size).1
  unfolding run_m22_rule_worker
  run_m22_rule_worker-IsModest sweep_size retention_size = answered (runtime.health_sweep [] size)
    where
      size : ℕ
      size = bounded_integer sweep_size 250 500

      size_bounds : (1 ≤ size) × (size ≤ 500)
      size_bounds = bounded_integer_bounds sweep_size 250 500 (omega arith) (omega arith)

      answered :
          (o : Option Value)
          → IsModest
              (elim o as (λ x. Result WorkerError SafeWorkerSummary × List Call) [
                | none ↦ (err rpc_failed, sweep_call size o ∷ [])
                | some a ↦
                    after_sweep runtime
                      (bounded_integer retention_size 250 500)
                      (exact_counts sweep_names (some a))
                      (sweep_call size o ∷ [])
              ]).1
      answered none = (omega arith, (size_bounds, tt))
      answered (some a) =
          after_sweep-IsModest (bounded_integer retention_size 250 500) size (some a)
            (exact_counts sweep_names (some a))
            (bounded_integer_bounds retention_size 250 500 (omega arith) (omega arith)) size_bounds
