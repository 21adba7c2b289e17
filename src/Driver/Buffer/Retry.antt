-- ===== src/Driver/Buffer/Retry.antt =====
-- Which points a round sends, and how often a point is tried.
use kootha.Prelude.{
  ℕ, zero, suc, ◌≤◌, ◌<◌, ◌≡◌, refl, ap, inl, inr, ◌⊎◌, Bool, true, false, List, [], ◌∷◌, ◌++◌,
  arith, filter, take, drop, length, All, Perm, All-filter, All-filter_of, All-take, length-take,
  take-append-drop, All-map_imp,
}
use kootha.Prelude.Sort.{sort, IsSorted, sort-perm, sort-IsSorted, All-sort}
use kootha.Driver.Buffer.{
  BufferedLocationPoint, by_retry_count, is_retryable, select_location_points_for_sync, batch_for,
  LocationPointScope, is_point_for_location_scope,
}

-- In a list sorted by retries, what stands in front was tried no more often than what follows.
sorted_split :
    (n : ℕ) (ps : List BufferedLocationPoint)
    → IsSorted by_retry_count ps
    → All (λ p. All (λ q. p.retry_count ≤ q.retry_count) (drop n ps)) (take n ps)
sorted_split zero ps h = tt
sorted_split (suc n) [] h = tt
sorted_split (suc n) (p ∷ ps) h =
    (All-drop n ps (All-map_imp ps (λ q k. ground arith) h.0), sorted_split n ps h.1)
  where
    All-drop :
        (m : ℕ) (qs : List BufferedLocationPoint)
        → All (λ q. p.retry_count ≤ q.retry_count) qs
        → All (λ q. p.retry_count ≤ q.retry_count) (drop m qs)
    All-drop zero qs k = k
    All-drop (suc m) [] k = tt
    All-drop (suc m) (q ∷ qs) k = All-drop m qs k.1

-- A selection and what it leaves out are together the points that may be tried; those left out were
-- tried at least as often as any selected one, and are left out only when a batch of 100 is full.
pub select_is_fair :
    (points : List BufferedLocationPoint) (force : Bool)
    → let chosen = select_location_points_for_sync points force in
      (left_out : List BufferedLocationPoint) × Perm
        (chosen ++ left_out)
        (filter (is_retryable force) points)
      × All (λ p. All (λ q. p.retry_count ≤ q.retry_count) left_out) chosen
      × ((left_out ≡ []) ⊎ (length chosen ≡ 100))
unfolding select_location_points_for_sync
select_is_fair points force =
    let eligible = filter (is_retryable force) points in
    let sorted = sort by_retry_count eligible in
    (
      drop 100 sorted,
      rw (take-append-drop 100 sorted) (sort-perm by_retry_count eligible),
      sorted_split 100 sorted (
          sort-IsSorted by_retry_count (λ a b h. ground arith) (λ a b c h k. ground arith)
            eligible),
      full 100 sorted,
    )
  where
    full : (n : ℕ) (ps : List BufferedLocationPoint) → (drop n ps ≡ []) ⊎ (length (take n ps) ≡ n)
    full zero ps = inr refl
    full (suc n) [] = inl refl
    full (suc n) (p ∷ ps) = elim (full n ps) [ inl e ↦ inl e | inr e ↦ inr (ap suc e) ]

-- A round sends at most 100 points, all in the scope and, unless it is forced, tried under 5 times.
pub batch_for_bounds :
    (scope : LocationPointScope) (force : Bool) (stored : List BufferedLocationPoint)
    → (length (batch_for scope force stored) ≤ 100)
      × All
          (λ p. (is_point_for_location_scope p scope ≡ true) × (force ≡ false → p.retry_count < 5))
          (batch_for scope force stored)
unfolding batch_for select_location_points_for_sync
batch_for_bounds scope force stored =
    let scoped = filter (λ p. is_point_for_location_scope p scope) stored in
    let eligible = filter (is_retryable force) scoped in
    (
      omega (arith, length-take 100 (sort by_retry_count eligible)),
      All-take _ 100 (sort by_retry_count eligible) (
          All-sort by_retry_count _ eligible (
            both eligible
              (All-filter_of _ (is_retryable force) scoped
                (All-filter (λ p. is_point_for_location_scope p scope) stored))
              (All-filter (is_retryable force) scoped))),
    )
  where
    both :
        (ps : List BufferedLocationPoint)
        → All (λ p. is_point_for_location_scope p scope ≡ true) ps
        → All (λ p. is_retryable force p ≡ true) ps
        → All
            (λ p.
              (is_point_for_location_scope p scope ≡ true) × (force ≡ false → p.retry_count < 5))
            ps
    both [] h k = tt
    both (p ∷ ps) h k = ((h.0, λ e. ground arith), both ps h.1 k.1)
