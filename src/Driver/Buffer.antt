-- ===== src/Driver/Buffer.antt =====
-- apps/driver/src/locationProof.ts: the buffer of location points that wait for the server, and the
-- round in which apps/driver/App.tsx tries to send them. The device's storage is the list that each
-- operation takes and returns.
pub mod Laws
pub mod Retry
pub mod Budget
pub mod Drain
mod Tests
use kootha.Prelude.{
  ℕ, ◌+◌, ◌-◌, Bool, true, false, not, ◌&&◌, ◌||◌, String, Option, none, some, List, [], ◌∷◌, ◌++◌,
  map, if◌then◌else◌, ltb, leb, str_eq, includes, any, filter, take, length,
}
use kootha.Prelude.Number.{Number}
use kootha.Prelude.Sort.{sort}

abbrev pub max_location_sync_retries : ℕ
max_location_sync_retries = 5

abbrev pub max_location_sync_batch_size : ℕ
max_location_sync_batch_size = 100

pub data SyncStatus : Type 0 where
  pending sync_failed : SyncStatus

pub record BufferedLocationPoint : Type 0 where
  pub local_id : String
  pub client_point_id : String
  pub tracking_session_id : String
  pub ad_work_id : String
  pub ad_work_day_id : String
  pub assignment_id : String
  pub driver_id : String
  pub vehicle_id : Option String
  pub latitude : Number
  pub longitude : Number
  pub accuracy : Option Number
  pub speed : Option Number
  pub heading : Option Number
  pub captured_at : String
  pub sync_status : SyncStatus
  pub retry_count : ℕ
  pub last_sync_attempt_at : Option String

pub record LocationPointScope : Type 0 where
  pub tracking_session_id : String
  pub ad_work_id : String
  pub ad_work_day_id : String
  pub assignment_id : String
  pub driver_id : String
  pub vehicle_id : Option String

-- `===` on values that may be `null`.
abbrev option_str_eq : Option String → Option String → Bool
option_str_eq none none = true
option_str_eq none (some b) = false
option_str_eq (some a) none = false
option_str_eq (some a) (some b) = str_eq a b

unfoldable pub is_point_for_location_scope : BufferedLocationPoint → LocationPointScope → Bool
is_point_for_location_scope point scope =
    str_eq point.tracking_session_id scope.tracking_session_id
    && (str_eq point.ad_work_id scope.ad_work_id
        && (str_eq point.ad_work_day_id scope.ad_work_day_id
            && (str_eq point.assignment_id scope.assignment_id
                && (str_eq point.driver_id scope.driver_id
                    && option_str_eq point.vehicle_id scope.vehicle_id))))

-- The buffer keeps the point that it has when the same client id is captured again.
unfoldable pub merge_buffered_location_point :
    List BufferedLocationPoint → BufferedLocationPoint → List BufferedLocationPoint
merge_buffered_location_point points point =
    if any (λ existing. str_eq existing.client_point_id point.client_point_id) points
    then points
    else points ++ point ∷ []

abbrev pub mark_failed : String → BufferedLocationPoint → BufferedLocationPoint
mark_failed attempted_at point = record point {
  sync_status = sync_failed;
  retry_count = point.retry_count + 1;
  last_sync_attempt_at = some attempted_at;
}

unfoldable pub mark_location_points_failed :
    List BufferedLocationPoint → List String → String → List BufferedLocationPoint
mark_location_points_failed points client_point_ids attempted_at =
    map
      (λ point.
        if includes point.client_point_id client_point_ids
        then mark_failed attempted_at point
        else point)
      points

unfoldable pub remove_accepted_location_points :
    List BufferedLocationPoint → List String → List BufferedLocationPoint
remove_accepted_location_points points accepted =
    filter (λ point. not (includes point.client_point_id accepted)) points

unfoldable pub get_unaccepted_location_points :
    List BufferedLocationPoint → List String → List BufferedLocationPoint
get_unaccepted_location_points points accepted =
    filter (λ point. not (includes point.client_point_id accepted)) points

-- The comparator `left.retry_count - right.retry_count`, and the filter's test.
abbrev pub by_retry_count : BufferedLocationPoint → BufferedLocationPoint → Bool
by_retry_count left right = leb left.retry_count right.retry_count

abbrev pub is_retryable : Bool → BufferedLocationPoint → Bool
is_retryable force point = force || ltb point.retry_count max_location_sync_retries

unfoldable pub select_location_points_for_sync :
    List BufferedLocationPoint → Bool → List BufferedLocationPoint
select_location_points_for_sync points force =
    take max_location_sync_batch_size (sort by_retry_count (filter (is_retryable force) points))

abbrev pub client_ids : List BufferedLocationPoint → List String
client_ids = map λ point. point.client_point_id

-- What the server says to a batch: which client ids it took, or an error, which is retryable or not.
pub data SyncReply : Type 0 where
  accepted : List String → SyncReply
  failed : Bool → SyncReply

-- What a reply does to the stored points: those that it accepts go, and those that were sent and are
-- not accepted, or all that were sent if the request failed and may be repeated, count one more try.
unfoldable pub after_reply :
    SyncReply
    → List BufferedLocationPoint
    → String
    → List BufferedLocationPoint
    → List BufferedLocationPoint
after_reply (accepted ids) batch attempted_at stored =
    mark_location_points_failed (remove_accepted_location_points stored ids)
      (client_ids (get_unaccepted_location_points batch ids)) attempted_at
after_reply (failed again) batch attempted_at stored =
    if again then mark_location_points_failed stored (client_ids batch) attempted_at else stored

abbrev pub is_empty : List BufferedLocationPoint → Bool
is_empty [] = true
is_empty (point ∷ points) = false

-- The batch that `syncBufferedLocationPointsForWork` of App.tsx takes from the stored points.
unfoldable pub batch_for :
    LocationPointScope → Bool → List BufferedLocationPoint → List BufferedLocationPoint
batch_for scope force stored =
    select_location_points_for_sync
      (filter (λ point. is_point_for_location_scope point scope) stored) force

-- `syncBufferedLocationPointsForWork`, as far as it reads and writes the buffer. The scope holds
-- still meanwhile (`isCurrentSync()` is true throughout), and `server` answers the batch.
unfoldable pub sync_round :
    LocationPointScope
    → Bool
    → String
    → (List BufferedLocationPoint → SyncReply)
    → List BufferedLocationPoint
    → List BufferedLocationPoint
sync_round scope force attempted_at server stored =
    let batch = batch_for scope force stored in
    if is_empty batch then stored else after_reply (server batch) batch attempted_at stored
