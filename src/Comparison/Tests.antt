-- ===== src/Comparison/Tests.antt =====
-- Runs of comparison-worker.ts: two full waves and a third that finds less, and a wave with a missing answer.
use kootha.Prelude.{ℕ, ◌+◌, ◌≡◌, refl, true, Option, none, some, String, if◌then◌else◌, ltb, length}
use kootha.Prelude.Number.{integer, pos}
use kootha.Prelude.Json.{Value, num, obj, field, end, Fields}
use kootha.Prelude.Result.{ok, err}
use kootha.Comparison.{
  Runtime, M23ComparisonWorkerSummary, run_m23_comparison_worker, failed_compaction,
  queue_wave_failed, queue_contract_invalid,
}
use kootha.Comparison.Outcome.{IsOutcome, run_m23_comparison_worker-IsOutcome}

abbrev count : String → ℕ → Fields → Fields
count name n rest = field name (num (integer (pos n))) rest

abbrev answer : ℕ → ℕ → ℕ → Option Value
answer c d r = some (obj (count "claimed" c (count "completed" d (count "retry_or_failed" r end))))

-- The first ten calls claim an event each, the later ones find none; the compaction fails.
abbrev runtime : Runtime
runtime = record {
  process_comparison_queue = λ calls. if ltb (length calls) 10 then answer 1 1 0 else answer 0 0 0;
  compact_comparison_detail = λ calls. none;
  elapsed = λ calls. pos (length calls + 100);
}

abbrev summary : M23ComparisonWorkerSummary
summary = record {
  worker_ok = true;
  worker_status = "ok";
  queue = record { claimed = 10; completed = 10; retry_or_failed = 0 };
  compaction = failed_compaction;
}

three_waves : (run_m23_comparison_worker runtime).0 ≡ ok summary
unfolding run_m23_comparison_worker
three_waves = refl

-- The second answer of the wave is missing, and no call of the wave is left out for that.
missing_answer :
    let (result, calls) = run_m23_comparison_worker (record runtime {
      process_comparison_queue = λ calls. if ltb (length calls) 1 then answer 1 1 0 else none;
    }) in
    (result ≡ err queue_wave_failed) × (length calls ≡ 5)
unfolding run_m23_comparison_worker
missing_answer = (refl, refl)

-- Counts that do not add up are refused.
bad_counts :
    (run_m23_comparison_worker
      (record runtime { process_comparison_queue = λ calls. answer 2 1 0 })).0
    ≡ err queue_contract_invalid
unfolding run_m23_comparison_worker
bad_counts = refl

run_m23_comparison_worker-IsOutcome_example : IsOutcome (run_m23_comparison_worker runtime)
run_m23_comparison_worker-IsOutcome_example = run_m23_comparison_worker-IsOutcome runtime
