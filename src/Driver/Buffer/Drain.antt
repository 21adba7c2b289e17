-- ===== src/Driver/Buffer/Drain.antt =====
-- That a server which accepts what it is sent gets all points, a full batch in each round.
use kootha.Prelude.{
  ◌+◌, ◌*◌, ◌≤◌, ◌≡◌, refl, ap, inl, inr, Bool, true, ◌&&◌, String, List, [], ◌∷◌, ◌++◌, arith,
  str_eq_refl, includes, filter, take, drop, length, count, take-append-drop, length-take, min,
  Bool-cases,
}
use kootha.Prelude.Sort.{sort, count-sort, length-sort}
use kootha.Driver.Buffer.{
  BufferedLocationPoint, SyncReply, accepted, LocationPointScope, is_point_for_location_scope,
  is_retryable, by_retry_count, client_ids, mark_location_points_failed,
  remove_accepted_location_points, get_unaccepted_location_points, select_location_points_for_sync,
  batch_for, after_reply, sync_round, is_empty,
}

abbrev pub accept_all : List BufferedLocationPoint → SyncReply
accept_all batch = accepted (client_ids batch)

-- A row of rounds, one at each of some times, with a server that accepts all it is sent.
unfoldable pub accepted_rounds :
    LocationPointScope
    → Bool
    → List String
    → List BufferedLocationPoint
    → List BufferedLocationPoint
accepted_rounds scope force [] stored = stored
accepted_rounds scope force (at ∷ times) stored =
    accepted_rounds scope force times (sync_round scope force at accept_all stored)

abbrev accepts : List String → BufferedLocationPoint → Bool
accepts ids point = includes point.client_point_id ids

module _ (scope : LocationPointScope) (force : Bool) where
  -- The points that may be sent.
  abbrev pub is_waiting : BufferedLocationPoint → Bool
  is_waiting point = is_point_for_location_scope point scope && is_retryable force point

  abbrev waiting : List BufferedLocationPoint → List BufferedLocationPoint
  waiting stored =
      filter (is_retryable force) (filter (λ p. is_point_for_location_scope p scope) stored)

  -- How many of the waiting points have an id out of some ids.
  count-waiting :
      (p : BufferedLocationPoint → Bool) (stored : List BufferedLocationPoint)
      → count p (waiting stored) ≡ count (λ q. is_waiting q && p q) stored
  unfolding filter
  count-waiting p [] = refl
  count-waiting p (q ∷ stored) = ground (arith, count-waiting p stored)

  length-waiting :
      (stored : List BufferedLocationPoint) → length (waiting stored) ≡ count is_waiting stored
  unfolding filter
  length-waiting [] = refl
  length-waiting (q ∷ stored) = ground (arith, length-waiting stored)

  mark_failed_le :
      (ids : List String) (at : String) (stored : List BufferedLocationPoint)
      → count is_waiting (mark_location_points_failed stored ids at) ≤ count is_waiting stored
  unfolding mark_location_points_failed is_point_for_location_scope
  mark_failed_le ids at [] = omega arith
  mark_failed_le ids at (p ∷ stored) = ground (arith, mark_failed_le ids at stored)

  removed :
      (ids : List String) (stored : List BufferedLocationPoint)
      → count is_waiting (remove_accepted_location_points stored ids)
          + count (λ q. is_waiting q && accepts ids q) stored
        ≡ count is_waiting stored
  unfolding remove_accepted_location_points filter
  removed ids [] = refl
  removed ids (p ∷ stored) = ground (arith, removed ids stored)

-- Of a list, all points have an id out of those of the list.
accepts_own :
    (ids : List String) (batch : List BufferedLocationPoint)
    → ((i : String) → includes i (client_ids batch) ≡ true → includes i ids ≡ true)
    → count (accepts ids) batch ≡ length batch
unfolding includes
accepts_own ids [] h = refl
accepts_own ids (p ∷ batch) h =
    let here = h p.client_point_id (ground (arith, str_eq_refl p.client_point_id)) in
    let later = accepts_own ids batch (λ i k. h i (ground (arith, k))) in
    ground (arith, here, later)

count_append :
    (p : BufferedLocationPoint → Bool) (xs ys : List BufferedLocationPoint)
    → count p (xs ++ ys) ≡ count p xs + count p ys
count_append p [] ys = omega arith
count_append p (x ∷ xs) ys = omega (arith, count_append p xs ys)

accepts_batch :
    (points : List BufferedLocationPoint)
    → let batch = take 100 (sort by_retry_count points) in
      length batch ≤ count (accepts (client_ids batch)) points
accepts_batch points =
    let sorted = sort by_retry_count points in
    let batch = take 100 sorted in
    let ids = client_ids batch in
    let split = count_append (accepts ids) batch (drop 100 sorted) in
    let own = accepts_own ids batch (λ i k. k) in
    omega (
      arith,
      split,
      own,
      ap (count (accepts ids)) (take-append-drop 100 sorted),
      count-sort by_retry_count (accepts ids) points,
    )

module _ (scope : LocationPointScope) (force : Bool) where
  -- A round sends a full batch, or all that wait.
  round_drains :
      (at : String) (stored : List BufferedLocationPoint)
      → count (is_waiting scope force) (sync_round scope force at accept_all stored)
          + min 100 (count (is_waiting scope force) stored)
        ≤ count (is_waiting scope force) stored
  unfolding sync_round batch_for select_location_points_for_sync after_reply
  round_drains at stored =
      let points = waiting scope force stored in
      let batch = take 100 (sort by_retry_count points) in
      let ids = client_ids batch in
      let size = length-take 100 (sort by_retry_count points) in
      let total = length-sort by_retry_count points in
      let all = length-waiting scope force stored in
      elim (Bool-cases (is_empty batch)) [
        | inl e ↦ rw e (omega (arith, size, total, all, empty batch e))
        | inr e ↦ rw e (
            omega (
              arith,
              size,
              total,
              all,
              accepts_batch points,
              count-waiting scope force (accepts ids) stored,
              removed scope force ids stored,
              mark_failed_le scope force (client_ids (get_unaccepted_location_points batch ids)) at
                  (remove_accepted_location_points stored ids),
            ))
      ]
    where
      empty : (ps : List BufferedLocationPoint) → is_empty ps ≡ true → length ps ≡ 0
      empty [] e = refl
      empty (p ∷ ps) e = absurd (ground (arith, e))

  rounds_drain :
      (times : List String) (stored : List BufferedLocationPoint)
      → count (is_waiting scope force) stored ≤ 100 * length times
      → count (is_waiting scope force) (accepted_rounds scope force times stored) ≡ 0
  unfolding accepted_rounds
  rounds_drain [] stored h = omega (arith, h)
  rounds_drain (at ∷ times) stored h =
      rounds_drain times (sync_round scope force at accept_all stored)
        (omega (arith, h, round_drains at stored))

  -- If the server accepts all it is sent, then after a round for each hundred points that may be sent, or
  -- part of a hundred, there is no batch left to send: the rounds do not leave a point out for good.
  pub batch_for-accepted_rounds :
      (times : List String) (stored : List BufferedLocationPoint)
      → count (is_waiting scope force) stored ≤ 100 * length times
      → batch_for scope force (accepted_rounds scope force times stored) ≡ []
  unfolding batch_for select_location_points_for_sync
  batch_for-accepted_rounds times stored h =
      let left = accepted_rounds scope force times stored in
      let sorted = sort by_retry_count (waiting scope force left) in
      no_points (take 100 sorted) (
        omega (
          arith,
          rounds_drain times stored h,
          length-take 100 sorted,
          length-sort by_retry_count (waiting scope force left),
          length-waiting scope force left,
        ))
    where
      no_points : (ps : List BufferedLocationPoint) → length ps ≡ 0 → ps ≡ []
      no_points [] e = refl
      no_points (p ∷ ps) e = absurd (omega (arith, e))
