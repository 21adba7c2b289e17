-- ===== src/Worker/Balance.antt =====
-- What a summary of rule-worker.ts says of the calls that were made.
use kootha.Prelude.{
  ℕ, zero, suc, ◌+◌, ◌≤◌, ◌≡◌, refl, sym, ap, ◌∙◌, subst, inl, inr, ◌⊎◌, Option, none, some, List,
  [], ◌∷◌, ◌++◌, arith, ltb, ◌==◌, length, All, Bool-cases, append_assoc, All-append, length-append,
}
use kootha.Prelude.Number.{Number}
use kootha.Prelude.Json.{Value}
use kootha.Prelude.Result.{Result, ok, err}
use kootha.Worker.{
  after_sweep, rpc_failed, Call, sweep_call, queue_call, retention_call, Runtime, Totals, no_totals,
  add_totals, queue_counts, is_late, work_queue, compact, run_m22_rule_worker, SafeWorkerSummary,
  WorkerError, exact_counts, m22_rule_queue_batch_size, sweep_names, bounded_integer,
}

-- A call for a batch of 200.
abbrev pub IsQueueCall : Call → Type 0
IsQueueCall (queue_call n answer) = n ≡ 200
IsQueueCall _ = ⊥

abbrev add_counts : Totals → Result WorkerError Totals → Totals
add_counts t (ok counts) = add_totals t counts
add_counts t (err e) = t

-- The sum of the counts that the queue has answered.
abbrev pub queue_sum : List Call → Totals
queue_sum [] = no_totals
queue_sum (queue_call n answer ∷ calls) = add_counts (queue_sum calls) (queue_counts answer)
queue_sum (sweep_call n answer ∷ calls) = queue_sum calls
queue_sum (retention_call n answer ∷ calls) = queue_sum calls

abbrev pub IsBalanced : Totals → Type 0
IsBalanced t = t.claimed ≡ t.completed + t.retry_or_failed

-- What the loop has done from some calls on.
pub record IsWorked (left : ℕ) (totals : Totals) (calls : List Call)
    (r : Result WorkerError Totals × List Call) : Type 0 where
  pub batch : List Call
  pub extends : r.1 ≡ batch ++ calls
  pub queues : All IsQueueCall batch
  pub few : length batch ≤ left
  pub summed : (t : Totals) → r.0 ≡ ok t → queue_sum calls ≡ totals → queue_sum r.1 ≡ t
  pub balanced : (t : Totals) → r.0 ≡ ok t → IsBalanced totals → IsBalanced t

Result-cases : {E A : Type 0} → (r : Result E A) → ((e : E) × (r ≡ err e)) ⊎ ((a : A) × (r ≡ ok a))
Result-cases (err e) = inl (e, refl)
Result-cases (ok a) = inr (a, refl)

abbrev is_ok : Totals → Result WorkerError Totals
is_ok t = ok t

same_ok : (s t : Totals) → is_ok s ≡ is_ok t → s ≡ t
same_ok s t h = cc

counts-IsBalanced : (answer : Option Value) (t : Totals) → queue_counts answer ≡ ok t → IsBalanced t
unfolding queue_counts
counts-IsBalanced answer t h = ground (arith, h)

done :
    (left : ℕ) (totals : Totals) (calls : List Call) → IsWorked left totals calls (ok totals, calls)
done left totals calls = record {
  batch = [];
  extends = refl;
  queues = tt;
  few = omega arith;
  summed = λ t h k. k ∙ same_ok totals t h;
  balanced = λ t h k. subst IsBalanced (same_ok totals t h) k;
}

module _ (runtime : Runtime) where
  abbrev answer_at : List Call → Option Value
  answer_at calls = runtime.process_rule_queue calls m22_rule_queue_batch_size

  abbrev next_calls : List Call → List Call
  next_calls calls = queue_call m22_rule_queue_batch_size (answer_at calls) ∷ calls

  stopped :
      (left : ℕ) (totals counts : Totals) (calls : List Call)
      → queue_counts (answer_at calls) ≡ ok counts
      → IsWorked (suc left) totals calls (ok (add_totals totals counts), next_calls calls)
  stopped left totals counts calls h = record {
    batch = queue_call m22_rule_queue_batch_size (answer_at calls) ∷ [];
    extends = refl;
    queues = (refl, tt);
    few = omega arith;
    summed = λ t e k. rw h (rw k (same_ok (add_totals totals counts) t e));
    balanced = λ t e k.
        subst IsBalanced (same_ok (add_totals totals counts) t e)
          (omega (arith, k, counts-IsBalanced (answer_at calls) counts h));
  }

  failed_at :
      (left : ℕ) (totals : Totals) (calls : List Call) (e : WorkerError)
      → IsWorked (suc left) totals calls (err e, next_calls calls)
  failed_at left totals calls e = record {
    batch = queue_call m22_rule_queue_batch_size (answer_at calls) ∷ [];
    extends = refl;
    queues = (refl, tt);
    few = omega arith;
    summed = λ t h k. cc;
    balanced = λ t h k. cc;
  }

  continued :
      (left : ℕ) (totals counts : Totals) (calls : List Call)
      (r : Result WorkerError Totals × List Call)
      → queue_counts (answer_at calls) ≡ ok counts
      → IsWorked left (add_totals totals counts) (next_calls calls) r
      → IsWorked (suc left) totals calls r
  continued left totals counts calls r h w = record {
    batch = w.batch ++ queue_call m22_rule_queue_batch_size (answer_at calls) ∷ [];
    extends =
        w.extends
        ∙ sym (
            append_assoc w.batch (queue_call m22_rule_queue_batch_size (answer_at calls) ∷ [])
              calls);
    queues =
        All-append IsQueueCall w.batch (queue_call m22_rule_queue_batch_size (answer_at calls) ∷ [])
          w.queues (refl, tt);
    few = omega (
      arith,
      w.few,
      length-append w.batch (queue_call m22_rule_queue_batch_size (answer_at calls) ∷ []),
    );
    summed = λ t e k. w.summed t e (rw h (rw k refl));
    balanced =
        λ t e k. w.balanced t e (omega (arith, k, counts-IsBalanced (answer_at calls) counts h));
  }

  pub worked :
      (left : ℕ) (totals : Totals) (calls : List Call)
      → IsWorked left totals calls (work_queue runtime left totals calls)
  unfolding work_queue
  worked zero totals calls = done zero totals calls
  worked (suc left) totals calls = elim (Bool-cases (is_late (runtime.elapsed calls))) [
    | inl e ↦ rw (e, work_queue) (done (suc left) totals calls)
    | inr e ↦ elim (Result-cases (queue_counts (answer_at calls))) [
      | inl (x, f) ↦ rw (e, work_queue) (rw f (failed_at left totals calls x))
      | inr (counts, f) ↦ elim (Bool-cases (ltb counts.claimed m22_rule_queue_batch_size)) [
        | inl g ↦ rw (e, work_queue) (rw f (rw g (stopped left totals counts calls f)))
        | inr g ↦
            rw (e, work_queue)
              (rw f (
                rw g (
                  continued left totals counts calls _ f
                    (worked left (add_totals totals counts) (next_calls calls)))))
      ]
    ]
  ]

-- What a summary says of the calls: it has the sums of what the queue answered, which add up, and the
-- calls are the sweep, at most four batches, and the compaction, in this order.
pub record IsReported (s : SafeWorkerSummary) (calls : List Call) : Type 0 where
  pub summed : queue_sum calls ≡ s.queue
  pub balanced : IsBalanced s.queue
  pub flagged : s.worker_ok ≡ (s.queue.retry_or_failed == 0)
  pub batches : List Call
  pub queues : All IsQueueCall batches
  pub few : length batches ≤ 4
  pub first : Option Value
  pub last : Option Value
  pub first_size : ℕ
  pub last_size : ℕ
  pub framed : calls ≡ retention_call last_size last ∷ (batches ++ sweep_call first_size first ∷ [])

module _ (runtime : Runtime) where
  pub compact_calls :
      (batch devices signals : ℕ) (totals : Totals) (calls : List Call)
      → (compact runtime batch devices signals (ok totals, calls)).1
        ≡ retention_call batch (runtime.compact_operational_rows calls batch) ∷ calls
  unfolding compact
  compact_calls batch devices signals totals calls = ground arith

  compact_queue :
      (batch devices signals : ℕ) (totals : Totals) (calls : List Call) (s : SafeWorkerSummary)
      → (compact runtime batch devices signals (ok totals, calls)).0 ≡ ok s
      → (s.queue ≡ totals) × (s.worker_ok ≡ (totals.retry_or_failed == 0))
  unfolding compact
  compact_queue batch devices signals totals calls s h = ground (arith, h)

  no_summary :
      (batch devices signals : ℕ) (e : WorkerError) (calls : List Call) (s : SafeWorkerSummary)
      → (compact runtime batch devices signals (err e, calls)).0 ≡ ok s
      → ⊥
  unfolding compact
  no_summary batch devices signals e calls s k = cc

  compacted :
      (batch devices signals size : ℕ) (first : Option Value)
      (r : Result WorkerError Totals × List Call) (s : SafeWorkerSummary)
      → IsWorked 4 no_totals (sweep_call size first ∷ []) r
      → (compact runtime batch devices signals r).0 ≡ ok s
      → IsReported s (compact runtime batch devices signals r).1
  compacted batch devices signals size first (err e, calls) s w h =
      absurd (no_summary batch devices signals e calls s h)
  compacted batch devices signals size first (ok totals, calls) s w h =
      let (same, flag) = compact_queue batch devices signals totals calls s h in
      subst (IsReported s) (sym (compact_calls batch devices signals totals calls)) (record {
        summed = w.summed totals refl refl ∙ sym same;
        balanced = subst IsBalanced (sym same) (w.balanced totals refl refl);
        flagged = flag ∙ ap (λ t. t.retry_or_failed == 0) (sym same);
        batches = w.batch;
        queues = w.queues;
        few = w.few;
        first = first;
        last = runtime.compact_operational_rows calls batch;
        first_size = size;
        last_size = batch;
        framed =
            ap (◌∷◌ (retention_call batch (runtime.compact_operational_rows calls batch)))
              w.extends;
      })

  swept :
      (batch size : ℕ) (first : Option Value) (counts : Option (List ℕ)) (s : SafeWorkerSummary)
      → (after_sweep runtime batch counts (sweep_call size first ∷ [])).0 ≡ ok s
      → IsReported s (after_sweep runtime batch counts (sweep_call size first ∷ [])).1
  swept batch size first none s h = cc
  swept batch size first (some []) s h = cc
  swept batch size first (some (d ∷ [])) s h = cc
  swept batch size first (some (d ∷ g ∷ [])) s h =
      compacted batch d g size first (work_queue runtime 4 no_totals (sweep_call size first ∷ [])) s
        (worked runtime 4 no_totals (sweep_call size first ∷ [])) h
  swept batch size first (some (d ∷ g ∷ x ∷ xs)) s h = cc

  -- A summary of a run has the sums of what the queue answered; what was claimed is what was completed
  -- or failed; the run is reported well exactly if nothing failed; and its calls are the sweep, at most
  -- four batches of the queue, and the compaction, in this order.
  pub run_m22_rule_worker-IsReported :
      (sweep_size retention_size : Option Number) (s : SafeWorkerSummary)
      → (run_m22_rule_worker runtime sweep_size retention_size).0 ≡ ok s
      → IsReported s (run_m22_rule_worker runtime sweep_size retention_size).1
  unfolding run_m22_rule_worker
  run_m22_rule_worker-IsReported sweep_size retention_size s h =
      answered (runtime.health_sweep [] size) h
    where
      size : ℕ
      size = bounded_integer sweep_size 250 500

      answered :
          (o : Option Value)
          → (elim o as (λ x. Result WorkerError SafeWorkerSummary × List Call) [
            | none ↦ (err rpc_failed, sweep_call size o ∷ [])
            | some a ↦
                after_sweep runtime
                  (bounded_integer retention_size 250 500)
                  (exact_counts sweep_names (some a))
                  (sweep_call size o ∷ [])
          ]).0
            ≡ ok s
          → IsReported s
              (elim o as (λ x. Result WorkerError SafeWorkerSummary × List Call) [
                | none ↦ (err rpc_failed, sweep_call size o ∷ [])
                | some a ↦
                    after_sweep runtime
                      (bounded_integer retention_size 250 500)
                      (exact_counts sweep_names (some a))
                      (sweep_call size o ∷ [])
              ]).1
      answered none k = cc
      answered (some a) k =
          swept (bounded_integer retention_size 250 500) size (some a)
            (exact_counts sweep_names (some a)) s k
