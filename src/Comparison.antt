-- ===== src/Comparison.antt =====
-- netlify/functions/_m23/comparison-worker.ts: one run of the worker that compares phone and device. The
-- calls of a wave run side by side and are all waited for; they stand here in the order of the loop that
-- makes them. The database may answer each in any way that depends on the calls before, also with an
-- exception, the abort of the run included. The clock, milliseconds since the start, depends on the
-- calls made, and may also go back; two looks at it with no call between them give one value.
pub mod Outcome
mod Tests
use kootha.Prelude.{
  ℕ, zero, suc, ◌+◌, ◌*◌, Bool, true, false, not, ◌&&◌, ◌||◌, Option, none, some, String, List, [],
  ◌∷◌, if◌then◌else◌, ltb, leb, ◌==◌, any,
}
use kootha.Prelude.Number.{ℤ, pos, negsuc}
use kootha.Prelude.Json.{Value, obj, get_field}
use kootha.Prelude.Result.{Result, ok, err, ◌>>=◌}
use kootha.Worker.{exact_count, exact_counts, queue_names, Totals, no_totals, add_totals}

abbrev pub m23_comparison_worker_soft_deadline_ms : ℕ
m23_comparison_worker_soft_deadline_ms = 6500

abbrev pub m23_comparison_queue_batch_size : ℕ
m23_comparison_queue_batch_size = 1

abbrev pub m23_comparison_worker_max_concurrency : ℕ
m23_comparison_worker_max_concurrency = 5

abbrev pub m23_comparison_queue_max_iterations : ℕ
m23_comparison_queue_max_iterations = 4

abbrev pub m23_comparison_worker_compaction_min_remaining_ms : ℕ
m23_comparison_worker_compaction_min_remaining_ms = 250

pub data ComparisonError : Type 0 where
  queue_wave_failed queue_contract_invalid : ComparisonError

pub data Call : Type 0 where
  queue_call : Option Value → Call
  compact_call : Option Value → Call

pub record Runtime : Type 0 where
  pub process_comparison_queue : List Call → Option Value
  pub compact_comparison_detail : List Call → Option Value
  pub elapsed : List Call → ℤ

abbrev pub three_counts : Option (List ℕ) → Option Totals
three_counts (some (c ∷ d ∷ r ∷ [])) =
    some (record { claimed = c; completed = d; retry_or_failed = r })
three_counts _ = none

-- A settled call of a wave: `none` if it was rejected.
unfoldable pub settled : Option Value → Option Totals
unfolding exact_counts
settled answer = three_counts (exact_counts queue_names answer)

abbrev pub is_rejected : Option Totals → Bool
is_rejected none = true
is_rejected (some t) = false

abbrev pub is_balanced : Totals → Bool
is_balanced t = t.claimed == t.completed + t.retry_or_failed

-- The sum over the counts of a wave, each checked.
unfoldable pub sum_balanced : List (Option Totals) → Result ComparisonError Totals
sum_balanced [] = ok no_totals
sum_balanced (none ∷ rest) = err queue_wave_failed
sum_balanced (some t ∷ rest) =
    let others = sum_balanced rest >>= λ s. ok (add_totals t s) in
    if is_balanced t then others else err queue_contract_invalid

unfoldable pub settle_wave : List (Option Totals) → Result ComparisonError Totals
unfolding sum_balanced any
settle_wave results =
    let summed = sum_balanced results in
    if any is_rejected results then err queue_wave_failed else summed

abbrev pub is_late : ℤ → Bool
is_late (pos n) = leb m23_comparison_worker_soft_deadline_ms n
is_late (negsuc n) = false

-- `remainingBudget > M23_COMPARISON_WORKER_COMPACTION_MIN_REMAINING_MS`.
abbrev pub has_budget : ℤ → Bool
has_budget (pos n) =
    ltb (n + m23_comparison_worker_compaction_min_remaining_ms)
      m23_comparison_worker_soft_deadline_ms
has_budget (negsuc n) = true

pub record Compaction : Type 0 where
  pub attempted : Bool
  pub compacted : ℕ
  pub evidence_compacted : ℕ
  pub failed : Bool

abbrev pub no_compaction : Compaction
no_compaction = record { attempted = false; compacted = 0; evidence_compacted = 0; failed = false }

abbrev pub failed_compaction : Compaction
failed_compaction = record no_compaction { attempted = true; failed = true }

abbrev pub both_counts : Option ℕ → Option ℕ → Compaction
both_counts (some d) (some e) = record {
  attempted = true;
  compacted = d;
  evidence_compacted = e;
  failed = false;
}
both_counts _ _ = failed_compaction

unfoldable pub read_compaction : Option Value → Compaction
unfolding exact_count get_field
read_compaction (some (obj fields)) =
    both_counts (exact_count (get_field "deletedDetailRows" fields))
      (exact_count (get_field "deletedEvidenceRows" fields))
read_compaction _ = failed_compaction

pub record M23ComparisonWorkerSummary : Type 0 where
  pub worker_ok : Bool
  pub worker_status : String
  pub queue : Totals
  pub compaction : Compaction

abbrev pub failed_m23_comparison_worker_summary : M23ComparisonWorkerSummary
failed_m23_comparison_worker_summary = record {
  worker_ok = false;
  worker_status = "failed";
  queue = no_totals;
  compaction = no_compaction;
}

module _ (runtime : Runtime) where
  -- The calls of a wave, what they come to, and the calls made.
  unfoldable pub wave : ℕ → List Call → List (Option Totals) × List Call
  unfolding settled
  wave zero calls = ([], calls)
  wave (suc n) calls =
      let answer = runtime.process_comparison_queue calls in
      let (results, calls') = wave n (queue_call answer ∷ calls) in
      (settled answer ∷ results, calls')

  -- The loop over the waves, with the iterations that are left and the totals so far.
  unfoldable pub waves : ℕ → Totals → List Call → Result ComparisonError Totals × List Call
  unfolding wave settle_wave
  waves zero totals calls = (ok totals, calls)
  waves (suc left) totals calls = elim (is_late (runtime.elapsed calls)) [
    | true ↦ (ok totals, calls)
    | false ↦
        let (results, calls') = wave m23_comparison_worker_max_concurrency calls in
        elim (settle_wave results) [
          | err e ↦ (err e, calls')
          | ok counts ↦
              let rest = waves left (add_totals totals counts) calls' in
              if ltb counts.claimed
                (m23_comparison_worker_max_concurrency * m23_comparison_queue_batch_size)
              then (ok (add_totals totals counts), calls')
              else rest
        ]
  ]

  abbrev pub summary : Totals → Compaction → M23ComparisonWorkerSummary
  summary totals compaction = record {
    worker_ok = totals.retry_or_failed == 0;
    worker_status = if totals.retry_or_failed == 0 then "ok" else "partial_failure";
    queue = totals;
    compaction = compaction;
  }

  -- From the queue on: a compaction that fails does not fail the run.
  unfoldable pub compact :
      Result ComparisonError Totals × List Call
      → Result ComparisonError M23ComparisonWorkerSummary × List Call
  unfolding read_compaction
  compact (err e, calls) = (err e, calls)
  compact (ok totals, calls) =
      let answer = runtime.compact_comparison_detail calls in
      if has_budget (runtime.elapsed calls)
      then (ok (summary totals (read_compaction answer)), compact_call answer ∷ calls)
      else (ok (summary totals no_compaction), calls)

  unfoldable pub run_m23_comparison_worker :
      Result ComparisonError M23ComparisonWorkerSummary × List Call
  unfolding waves compact
  run_m23_comparison_worker = compact (waves m23_comparison_queue_max_iterations no_totals [])
