-- ===== src/Driver/Buffer/Tests.antt =====
-- The offline buffer of locationProof.ts at concrete points.
use kootha.Prelude.{
  arith, IsDistinct, ℕ, ◌*◌, ◌≤◌, ◌<◌, ◌≡◌, refl, ◌⊎◌, true, false, not, ◌&&◌, ◌||◌, String, none,
  some, List, [], ◌∷◌, ◌++◌, map, length, All, Perm, filter, includes, str_eq,
}
use kootha.Prelude.Number.{integer, fraction, pos}
use kootha.Prelude.Sort.{sort}
use kootha.Driver.Buffer.{
  BufferedLocationPoint, SyncReply, pending, accepted, failed, LocationPointScope, client_ids,
  merge_buffered_location_point, select_location_points_for_sync, is_retryable,
  is_point_for_location_scope, batch_for, sync_round, is_empty, after_reply,
  mark_location_points_failed, remove_accepted_location_points, get_unaccepted_location_points,
}
use kootha.Driver.Buffer.Laws.{released, merge-includes, sync_round-includes}
use kootha.Driver.Buffer.Retry.{select_is_fair, batch_for_bounds}
use kootha.Driver.Buffer.Drain.{accepted_rounds, batch_for-accepted_rounds}
use kootha.Driver.Buffer.Budget.{batches_sent, makes_progress, batches_sent_bounded}

abbrev point : String → ℕ → BufferedLocationPoint
point id retries = record {
  local_id = id;
  client_point_id = id;
  tracking_session_id = "session";
  ad_work_id = "work";
  ad_work_day_id = "day";
  assignment_id = "assignment";
  driver_id = "driver";
  vehicle_id = none;
  latitude = fraction 0;
  longitude = fraction 1;
  accuracy = some (integer (pos 8));
  speed = none;
  heading = none;
  captured_at = "2026-08-07T08:00:00.000Z";
  sync_status = pending;
  retry_count = retries;
  last_sync_attempt_at = none;
}

abbrev scope : LocationPointScope
scope = record {
  tracking_session_id = "session";
  ad_work_id = "work";
  ad_work_day_id = "day";
  assignment_id = "assignment";
  driver_id = "driver";
  vehicle_id = none;
}

abbrev stored : List BufferedLocationPoint
stored = point "a" 2 ∷ point "b" 0 ∷ point "c" 5 ∷ []

abbrev takes_first : List BufferedLocationPoint → SyncReply
takes_first [] = failed true
takes_first (p ∷ ps) = accepted (p.client_point_id ∷ [])

-- "b" was tried least, so it goes first; "c" has no tries left.
batch_order : client_ids (batch_for scope false stored) ≡ "b" ∷ "a" ∷ []
unfolding batch_for select_location_points_for_sync filter is_point_for_location_scope sort
batch_order = refl

round_result :
    map (λ p. p.retry_count) (sync_round scope false "now" takes_first stored) ≡ 3 ∷ 5 ∷ []
unfolding sync_round batch_for select_location_points_for_sync sort filter
    is_point_for_location_scope after_reply mark_location_points_failed
    remove_accepted_location_points includes get_unaccepted_location_points
round_result = refl

merge-includes_example :
    IsDistinct (client_ids (merge_buffered_location_point stored (point "b" 0)))
    × (includes "b" (client_ids (merge_buffered_location_point stored (point "b" 0)))
        ≡ (str_eq "b" "b" || includes "b" (client_ids stored)))
unfolding includes
merge-includes_example = merge-includes stored (point "b" 0) "b" (refl, (refl, (refl, tt)))

sync_round-includes_example :
    includes "a" (client_ids (sync_round scope false "now" takes_first stored)) ≡ (
      includes "a" (client_ids stored)
      && not (
          not (is_empty (batch_for scope false stored))
          && released (takes_first (batch_for scope false stored)) "a"))
sync_round-includes_example = sync_round-includes scope false "now" takes_first stored "a"

select_is_fair_example :
    (left_out : List BufferedLocationPoint) × Perm
      (select_location_points_for_sync stored false ++ left_out)
      (filter (is_retryable false) stored)
    × All
        (λ p. All (λ q. p.retry_count ≤ q.retry_count) left_out)
        (select_location_points_for_sync stored false)
    × ((left_out ≡ []) ⊎ (length (select_location_points_for_sync stored false) ≡ 100))
select_is_fair_example = select_is_fair stored false

batch_for_bounds_example :
    (length (batch_for scope false stored) ≤ 100)
    × All
        (λ p. (is_point_for_location_scope p scope ≡ true) × (false ≡ false → p.retry_count < 5))
        (batch_for scope false stored)
batch_for_bounds_example = batch_for_bounds scope false stored

abbrev fails : List BufferedLocationPoint → SyncReply
fails batch = failed true

progress : (batch : List BufferedLocationPoint) → makes_progress (takes_first batch) ≡ true
progress [] = refl
progress (p ∷ ps) = refl

batches_sent_bounded_example :
    batches_sent scope (("t1", fails) ∷ ("t2", takes_first) ∷ []) stored ≤ 5 * length stored
batches_sent_bounded_example =
    batches_sent_bounded scope (("t1", fails) ∷ ("t2", takes_first) ∷ []) stored
      ((λ b. refl), (progress, tt))

-- One forced round is enough for three points, also for that without tries left.
batch_for-accepted_rounds_example :
    batch_for scope true (accepted_rounds scope true ("2026-08-07T09:00:00.000Z" ∷ []) stored) ≡ []
unfolding is_point_for_location_scope
batch_for-accepted_rounds_example =
    batch_for-accepted_rounds scope true ("2026-08-07T09:00:00.000Z" ∷ []) stored (omega arith)
