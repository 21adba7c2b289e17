-- ===== src/Worker.antt =====
-- netlify/functions/_m22/rule-worker.ts: one run of the worker that sweeps the devices, works off the
-- queue of rule evaluations and compacts what is done. The database answers in any way whatever, also
-- with an exception; the clock is looked at before each batch.
pub mod Balance
pub mod Bounds
mod Tests
use kootha.Prelude.{
  ℕ, zero, suc, ◌+◌, ◌^◌, ◌≡◌, refl, Bool, true, false, not, ◌&&◌, ◌||◌, Option, none, some, List,
  [], ◌∷◌, String, arith, if◌then◌else◌, ltb, leb, ◌==◌, min, max,
}
use kootha.Prelude.Number.{ℤ, pos, negsuc, Number, integer}
use kootha.Prelude.Json.{Value, num, obj, get_field, Fields}
use kootha.Prelude.Result.{Result, ok, err}

abbrev pub m22_rule_worker_soft_deadline_ms : ℕ
m22_rule_worker_soft_deadline_ms = 6500

abbrev pub m22_rule_queue_batch_size : ℕ
m22_rule_queue_batch_size = 200

abbrev pub m22_rule_queue_max_iterations : ℕ
m22_rule_queue_max_iterations = 4

pub data WorkerError : Type 0 where
  rpc_failed health_sweep_contract_invalid queue_contract_invalid retention_contract_invalid :
      WorkerError

-- The calls of the database, with the size of the batch and the answer: `none` is an exception.
pub data Call : Type 0 where
  sweep_call : ℕ → Option Value → Call
  queue_call : ℕ → Option Value → Call
  retention_call : ℕ → Option Value → Call

-- The database and the clock, which know the calls so far: `elapsed` is `Date.now() - startedAt`.
pub record Runtime : Type 0 where
  pub health_sweep : List Call → ℕ → Option Value
  pub process_rule_queue : List Call → ℕ → Option Value
  pub compact_operational_rows : List Call → ℕ → Option Value
  pub elapsed : List Call → ℤ

-- `boundedInteger`, on the number that the value is or is read as: `none` where it is neither.
unfoldable pub bounded_integer : Option Number → ℕ → ℕ → ℕ
bounded_integer (some (integer (pos n))) fallback maximum =
    if ltb n (2 ^ 53) then max 1 (min maximum n) else fallback
bounded_integer (some (integer (negsuc n))) fallback maximum =
    if ltb (n + 1) (2 ^ 53) then 1 else fallback
bounded_integer _ fallback maximum = fallback

-- A count of `exactCounts`.
unfoldable pub exact_count : Option Value → Option ℕ
exact_count (some (num (integer (pos n)))) = if ltb n (2 ^ 53) then some n else none
exact_count _ = none

abbrev push_count : Option ℕ → Option (List ℕ) → Option (List ℕ)
push_count none rest = none
push_count (some n) none = none
push_count (some n) (some ns) = some (n ∷ ns)

abbrev counts_of : Fields → List String → Option (List ℕ)
counts_of fields [] = some []
counts_of fields (name ∷ names) =
    push_count (exact_count (get_field name fields)) (counts_of fields names)

-- `exactCounts`: the counts by their names, in order.
unfoldable pub exact_counts : List String → Option Value → Option (List ℕ)
exact_counts names (some (obj fields)) = counts_of fields names
exact_counts names _ = none

abbrev pub queue_names : List String
queue_names = "claimed" ∷ "completed" ∷ "retry_or_failed" ∷ []

abbrev pub sweep_names : List String
sweep_names = "devices_considered" ∷ "signals_enqueued" ∷ []

abbrev pub retention_names : List String
retention_names =
    "queue_rows_deleted" ∷ "signal_rows_deleted" ∷ "auth_rows_deleted" ∷ "assessment_rows_deleted"
    ∷ "state_rows_deleted" ∷ []

pub record Totals : Type 0 where
  pub claimed : ℕ
  pub completed : ℕ
  pub retry_or_failed : ℕ

abbrev pub no_totals : Totals
no_totals = record { claimed = 0; completed = 0; retry_or_failed = 0 }

abbrev pub add_totals : Totals → Totals → Totals
add_totals s t = record {
  claimed = s.claimed + t.claimed;
  completed = s.completed + t.completed;
  retry_or_failed = s.retry_or_failed + t.retry_or_failed;
}

-- The counts of an answer of the queue, checked.
unfoldable pub queue_counts : Option Value → Result WorkerError Totals
queue_counts none = err rpc_failed
queue_counts (some answer) = elim (exact_counts queue_names (some answer)) [
  | some (c ∷ d ∷ r ∷ []) ↦
      if c == d + r
      then ok (record { claimed = c; completed = d; retry_or_failed = r })
      else err queue_contract_invalid
  | _ ↦ err queue_contract_invalid
]

abbrev pub is_late : ℤ → Bool
is_late (pos n) = leb m22_rule_worker_soft_deadline_ms n
is_late (negsuc n) = false

pub data WorkerStatus : Type 0 where
  all_ok partial_failure failed : WorkerStatus

pub record SafeWorkerSummary : Type 0 where
  pub worker_ok : Bool
  pub worker_status : WorkerStatus
  pub queue : Totals
  pub devices_considered : ℕ
  pub sweep_signals_enqueued : ℕ
  pub operational_rows_compacted : ℕ

abbrev pub failed_m22_worker_summary : SafeWorkerSummary
failed_m22_worker_summary = record {
  worker_ok = false;
  worker_status = failed;
  queue = no_totals;
  devices_considered = 0;
  sweep_signals_enqueued = 0;
  operational_rows_compacted = 0;
}

abbrev pub sum : List ℕ → ℕ
sum [] = 0
sum (n ∷ ns) = n + sum ns

module _ (runtime : Runtime) where
  -- The loop over the queue, with the iterations that are left and the totals so far.
  unfoldable pub work_queue : ℕ → Totals → List Call → Result WorkerError Totals × List Call
  work_queue zero totals calls = (ok totals, calls)
  work_queue (suc left) totals calls = elim (is_late (runtime.elapsed calls)) [
    | true ↦ (ok totals, calls)
    | false ↦
        let answer = runtime.process_rule_queue calls m22_rule_queue_batch_size in
        let calls' = queue_call m22_rule_queue_batch_size answer ∷ calls in
        elim (queue_counts answer) [
          | err e ↦ (err e, calls')
          | ok counts ↦
              let rest = work_queue left (add_totals totals counts) calls' in
              if ltb counts.claimed m22_rule_queue_batch_size
              then (ok (add_totals totals counts), calls')
              else rest
        ]
  ]

  -- From the totals of the queue on.
  unfoldable pub compact :
      ℕ
      → ℕ
      → ℕ
      → Result WorkerError Totals × List Call
      → Result WorkerError SafeWorkerSummary × List Call
  compact batch devices signals (err e, calls) = (err e, calls)
  compact batch devices signals (ok totals, calls) =
      let answer = runtime.compact_operational_rows calls batch in
      let calls' = retention_call batch answer ∷ calls in
      elim answer [
        | none ↦ (err rpc_failed, calls')
        | some a ↦ elim (exact_counts retention_names (some a)) [
          | none ↦ (err retention_contract_invalid, calls')
          | some counts ↦ (
            ok (record {
              worker_ok = totals.retry_or_failed == 0;
              worker_status = if totals.retry_or_failed == 0 then all_ok else partial_failure;
              queue = totals;
              devices_considered = devices;
              sweep_signals_enqueued = signals;
              operational_rows_compacted = sum counts;
            }),
            calls',
          )
        ]
      ]

  -- From the counts of the sweep on.
  abbrev pub after_sweep :
      ℕ → Option (List ℕ) → List Call → Result WorkerError SafeWorkerSummary × List Call
  after_sweep batch (some (devices ∷ signals ∷ [])) calls =
      compact batch devices signals (work_queue m22_rule_queue_max_iterations no_totals calls)
  after_sweep batch _ calls = (err health_sweep_contract_invalid, calls)

  -- `runM22RuleWorker`, with the two sizes as `Number` reads them.
  unfoldable pub run_m22_rule_worker :
      Option Number → Option Number → Result WorkerError SafeWorkerSummary × List Call
  run_m22_rule_worker sweep_size retention_size =
      let sweep_batch = bounded_integer sweep_size 250 500 in
      let retention_batch = bounded_integer retention_size 250 500 in
      let answer = runtime.health_sweep [] sweep_batch in
      let calls = sweep_call sweep_batch answer ∷ [] in
      elim answer [
        | none ↦ (err rpc_failed, calls)
        | some a ↦ after_sweep retention_batch (exact_counts sweep_names (some a)) calls
      ]
