-- ===== src/Worker/Tests.antt =====
-- A run of rule-worker.ts with a queue of one event that fails.
use kootha.Prelude.{ℕ, ◌≡◌, refl, false, none, some, String}
use kootha.Prelude.Number.{integer, pos, negsuc}
use kootha.Prelude.Json.{num, obj, field, end, get_field, Fields}
use kootha.Prelude.Result.{ok, err}
use kootha.Worker.{
  Runtime, SafeWorkerSummary, run_m22_rule_worker, work_queue, compact, bounded_integer,
  exact_count, exact_counts, queue_counts, partial_failure, queue_contract_invalid,
}
use kootha.Worker.Balance.{IsReported, run_m22_rule_worker-IsReported}
use kootha.Worker.Bounds.{IsModest, run_m22_rule_worker-IsModest}

abbrev count : String → ℕ → Fields → Fields
count name n rest = field name (num (integer (pos n))) rest

abbrev runtime : Runtime
runtime = record {
  health_sweep =
      λ calls n. some (obj (count "devices_considered" 7 (count "signals_enqueued" 1 end)));
  process_rule_queue = λ calls n.
      some (obj (count "claimed" 3 (count "completed" 2 (count "retry_or_failed" 1 end))));
  compact_operational_rows = λ calls n. some (
      obj (
        count "queue_rows_deleted" 1 (
          count "signal_rows_deleted" 2 (
            count "auth_rows_deleted" 0
              (count "assessment_rows_deleted" 0 (count "state_rows_deleted" 4 end))))));
  elapsed = λ calls. negsuc 3;
}

abbrev summary : SafeWorkerSummary
summary = record {
  worker_ok = false;
  worker_status = partial_failure;
  queue = record { claimed = 3; completed = 2; retry_or_failed = 1 };
  devices_considered = 7;
  sweep_signals_enqueued = 1;
  operational_rows_compacted = 7;
}

one_batch : (run_m22_rule_worker runtime none (some (integer (pos 9000)))).0 ≡ ok summary
unfolding run_m22_rule_worker work_queue compact bounded_integer exact_counts exact_count
    queue_counts get_field
one_batch = refl

-- Counts that do not add up are refused.
bad_counts :
    (run_m22_rule_worker
      (record runtime {
        process_rule_queue = λ calls n.
            some (obj (count "claimed" 3 (count "completed" 2 (count "retry_or_failed" 0 end))));
      })
      none
      none).0
    ≡ err queue_contract_invalid
unfolding run_m22_rule_worker work_queue compact bounded_integer exact_counts exact_count
    queue_counts get_field
bad_counts = refl

run_m22_rule_worker-IsReported_example :
    IsReported summary (run_m22_rule_worker runtime none (some (integer (pos 9000)))).1
run_m22_rule_worker-IsReported_example =
    run_m22_rule_worker-IsReported runtime none (some (integer (pos 9000))) summary one_batch

run_m22_rule_worker-IsModest_example :
    IsModest (run_m22_rule_worker runtime none (some (integer (pos 9000)))).1
run_m22_rule_worker-IsModest_example =
    run_m22_rule_worker-IsModest runtime none (some (integer (pos 9000)))
