-- ===== src/Comparison/Outcome.antt =====
-- When a run of comparison-worker.ts fails, and what it reports else.
use kootha.Prelude.{
  ℕ, zero, suc, ◌+◌, ◌*◌, ◌≤◌, ◌≡◌, refl, ap, ap₂, ◌∙◌, sym, inl, inr, Bool, true, false, ◌&&◌,
  Option, none, some, List, [], ◌∷◌, arith, if◌then◌else◌, ltb, ◌==◌, any, Bool-cases,
}
use kootha.Prelude.Result.{Result, ok, err, ◌>>=◌}
use kootha.Worker.{Totals, no_totals, add_totals}
use kootha.Comparison.{
  Call, queue_call, compact_call, Runtime, ComparisonError, settled, is_rejected, is_balanced,
  sum_balanced, settle_wave, is_late, has_budget, wave, waves, M23ComparisonWorkerSummary, compact,
  run_m23_comparison_worker,
}

-- Whether an answer of the queue gives three counts that add up.
abbrev pub is_good : Option Totals → Bool
is_good none = false
is_good (some t) = is_balanced t

abbrev pub counts : Option Totals → Totals
counts none = no_totals
counts (some t) = t

-- Over all calls of a run: whether each answer of the queue is good, their sum, how many there are, and
-- how many compactions.
unfoldable pub all_good : List Call → Bool
unfolding settled
all_good [] = true
all_good (queue_call answer ∷ calls) = is_good (settled answer) && all_good calls
all_good (compact_call answer ∷ calls) = all_good calls

unfoldable pub totals_of : List Call → Totals
unfolding settled
totals_of [] = no_totals
totals_of (queue_call answer ∷ calls) = add_totals (totals_of calls) (counts (settled answer))
totals_of (compact_call answer ∷ calls) = totals_of calls

abbrev pub count_queue : List Call → ℕ
count_queue [] = 0
count_queue (queue_call answer ∷ calls) = suc (count_queue calls)
count_queue (compact_call answer ∷ calls) = count_queue calls

abbrev pub count_compact : List Call → ℕ
count_compact [] = 0
count_compact (queue_call answer ∷ calls) = count_compact calls
count_compact (compact_call answer ∷ calls) = suc (count_compact calls)

every_good : List (Option Totals) → Bool
every_good [] = true
every_good (r ∷ rs) = is_good r && every_good rs

sum_of : List (Option Totals) → Totals
sum_of [] = no_totals
sum_of (r ∷ rs) = add_totals (counts r) (sum_of rs)

add_totals_assoc : (r s t : Totals) → add_totals (add_totals r s) t ≡ add_totals r (add_totals s t)
add_totals_assoc r s t = ground arith

-- Whether what a wave comes to is an error, and its sum.
abbrev Settles : List (Option Totals) → Result ComparisonError Totals → Type 0
Settles results (ok t) = (every_good results ≡ true) × (t ≡ sum_of results)
Settles results (err e) = every_good results ≡ false

sum_balanced-Settles : (results : List (Option Totals)) → Settles results (sum_balanced results)
unfolding sum_balanced every_good sum_of
sum_balanced-Settles [] = (refl, refl)
sum_balanced-Settles (none ∷ rest) = refl
sum_balanced-Settles (some t ∷ rest) = elim (Bool-cases (is_balanced t)) [
  | inl e ↦ rw e (added e (sum_balanced rest) (sum_balanced-Settles rest))
  | inr e ↦ rw e (ap (λ b. b && every_good rest) e)
]
  where
    added :
        is_balanced t ≡ true
        → (r : Result ComparisonError Totals) → Settles rest r
        → Settles (some t ∷ rest) (r >>= λ s. ok (add_totals t s))
    added e (ok s) h = (ap (λ b. b && every_good rest) e ∙ h.0, ap (add_totals t) h.1)
    added e (err x) h = ap (λ b. b && every_good rest) e ∙ h

rejected-every_good :
    (results : List (Option Totals)) → any is_rejected results ≡ true → every_good results ≡ false
unfolding any every_good
rejected-every_good [] h = absurd (ground (arith, h))
rejected-every_good (none ∷ rest) h = refl
rejected-every_good (some t ∷ rest) h = ground (arith, rejected-every_good rest h)

settle_wave-Settles : (results : List (Option Totals)) → Settles results (settle_wave results)
unfolding settle_wave
settle_wave-Settles results = elim (Bool-cases (any is_rejected results)) [
  | inl e ↦ rw e (rejected-every_good results e)
  | inr e ↦ rw e (sum_balanced-Settles results)
]

and_shuffle : (a b c : Bool) → (a && (b && c)) ≡ ((b && a) && c)
and_shuffle a b c = ground arith

module _ (runtime : Runtime) where
  -- What a wave adds to the calls.
  wave-adds :
      (n : ℕ) (calls : List Call)
      → let (results, calls') = wave runtime n calls in
        (all_good calls' ≡ (every_good results && all_good calls))
        × (totals_of calls' ≡ add_totals (totals_of calls) (sum_of results))
        × (count_queue calls' ≡ n + count_queue calls)
        × (count_compact calls' ≡ count_compact calls)
  unfolding wave every_good sum_of all_good totals_of
  wave-adds zero calls = (refl, ground arith, omega arith, refl)
  wave-adds (suc n) calls =
      let answer = runtime.process_comparison_queue calls in
      let (good, sum, queue, compacted) = wave-adds n (queue_call answer ∷ calls) in
      (
        good ∙ and_shuffle _ (is_good (settled answer)) (all_good calls),
        sum ∙ add_totals_assoc (totals_of calls) (counts (settled answer)) _,
        omega (arith, queue),
        compacted,
      )

  -- What the loop over the waves has done.
  abbrev HasWorked : ℕ → Result ComparisonError Totals × List Call → Type 0
  HasWorked limit (ok totals, calls) =
      (all_good calls ≡ true)
      × (totals ≡ totals_of calls)
      × (count_queue calls ≤ limit)
      × (count_compact calls ≡ 0)
  HasWorked limit (err e, calls) =
      (all_good calls ≡ false) × (count_queue calls ≤ limit) × (count_compact calls ≡ 0)

  waves-HasWorked :
      (left : ℕ) (totals : Totals) (calls : List Call) (limit : ℕ)
      → HasWorked limit (ok totals, calls)
      → count_queue calls + 5 * left ≤ limit
      → HasWorked limit (waves runtime left totals calls)
  unfolding waves
  waves-HasWorked zero totals calls limit h k = h
  waves-HasWorked (suc left) totals calls limit h k =
      elim (Bool-cases (is_late (runtime.elapsed calls))) [
        | inl e ↦ rw (e, waves) h
        | inr e ↦
            rw (e, waves)
              (worked
                (λ t after.
                  waves-HasWorked left (add_totals totals t) made.1 limit after
                    (omega (arith, k, (wave-adds 5 calls).2)))
                (settle_wave made.0) (settle_wave-Settles made.0))
      ]
    where
      made : List (Option Totals) × List Call
      made = wave runtime 5 calls

      worked :
          ((t : Totals)
            → HasWorked limit (ok (add_totals totals t), made.1)
            → HasWorked limit (waves runtime left (add_totals totals t) made.1))
          → (r : Result ComparisonError Totals) → Settles made.0 r
          → HasWorked limit (elim r as (λ _. Result ComparisonError Totals × List Call) [
            | err e ↦ (err e, made.1)
            | ok counts ↦
                if ltb counts.claimed 5
                then (ok (add_totals totals counts), made.1)
                else waves runtime left (add_totals totals counts) made.1
          ])
      worked more (err e) s =
          let (good, sum, queue, compacted) = wave-adds 5 calls in
          (good ∙ ap (λ b. b && all_good calls) s, omega (arith, queue, k), compacted ∙ h.3)
      worked more (ok t) s =
          let (good, sum, queue, compacted) = wave-adds 5 calls in
          let after : HasWorked limit (ok (add_totals totals t), made.1) = (
            good ∙ ap₂ (λ a b. a && b) s.0 h.0,
            ap₂ add_totals h.1 s.1 ∙ sym sum,
            omega (arith, queue, k),
            compacted ∙ h.3,
          ) in
          elim (Bool-cases (ltb t.claimed 5)) [ inl e ↦ rw e after | inr e ↦ rw e (more t after) ]

-- What a run is: a summary of the sums of what the queue has answered, each answer with three counts
-- that add up, and `ok` exactly if nothing is to be tried again; or an error, where some answer is
-- missing or has no such counts. A run asks the queue at most 20 times, and compacts at most once, and
-- only after an error-free queue.
abbrev pub IsOutcome : Result ComparisonError M23ComparisonWorkerSummary × List Call → Type 0
IsOutcome (ok s, calls) =
    (all_good calls ≡ true)
    × (s.queue ≡ totals_of calls)
    × (s.worker_ok ≡ ((totals_of calls).retry_or_failed == 0))
    × (count_queue calls ≤ 20)
    × (count_compact calls ≤ 1)
IsOutcome (err e, calls) =
    (all_good calls ≡ false) × (count_queue calls ≤ 20) × (count_compact calls ≡ 0)

-- A run fails exactly if an answer of the queue is missing or does not give three counts that add up,
-- and then nothing is compacted. Else it reports the sums of all answers, and is ok exactly if nothing
-- is to be tried again, whatever the compaction does. It asks the queue at most 20 times, and
-- compacts at most once.
pub run_m23_comparison_worker-IsOutcome :
    (runtime : Runtime) → IsOutcome (run_m23_comparison_worker runtime)
unfolding run_m23_comparison_worker compact all_good totals_of
run_m23_comparison_worker-IsOutcome runtime =
    compacted (waves runtime 4 no_totals [])
      (waves-HasWorked runtime 4 no_totals [] 20 (refl, refl, omega arith, refl) (omega arith))
  where
    compacted :
        (r : Result ComparisonError Totals × List Call)
        → HasWorked runtime 20 r
        → IsOutcome (compact runtime r)
    compacted (err e, calls) h = h
    compacted (ok totals, calls) h = elim (Bool-cases (has_budget (runtime.elapsed calls))) [
      | inl e ↦ rw e (h.0, h.1, ap (λ t. t.retry_or_failed == 0) h.1, h.2, omega (arith, h.3))
      | inr e ↦ rw e (h.0, h.1, ap (λ t. t.retry_or_failed == 0) h.1, h.2, omega (arith, h.3))
    ]
