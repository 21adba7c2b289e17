-- ===== src/Driver/Buffer/Budget.antt =====
-- A bound on the rounds that send anything: each uses up tries that the stored points have left.
use kootha.Prelude.{
  ℕ, ◌+◌, ◌-◌, ◌*◌, ◌≤◌, ◌<◌, ◌≡◌, refl, ap, sym, subst, inl, inr, ◌⊎◌, Bool, true, false, String,
  List, [], ◌∷◌, arith, if◌then◌else◌, includes, filter, length, Bool-cases, str_eq_refl, All,
  All-filter_of, All-take, All-map_imp,
}
use kootha.Prelude.Sort.{All-sort}
use kootha.Driver.Buffer.{
  BufferedLocationPoint, SyncReply, accepted, failed, by_retry_count, is_retryable,
  mark_location_points_failed, remove_accepted_location_points, get_unaccepted_location_points,
  select_location_points_for_sync, client_ids, after_reply, sync_round, batch_for,
  LocationPointScope, is_empty, is_point_for_location_scope,
}
use kootha.Driver.Buffer.Retry.{batch_for_bounds}

-- The tries that the unforced rounds may still make, over all stored points.
abbrev pub tries_left : List BufferedLocationPoint → ℕ
tries_left [] = 0
tries_left (p ∷ ps) = (5 - p.retry_count) + tries_left ps

abbrev In : BufferedLocationPoint → List BufferedLocationPoint → Type 0
In p [] = ⊥
In p (x ∷ xs) = (p ≡ x) ⊎ In p xs

All-In : (ps : List BufferedLocationPoint) → All (λ p. In p ps) ps
All-In [] = tt
All-In (p ∷ ps) = (inl refl, All-map_imp ps (λ q k. inr k) (All-In ps))

batch_for-In :
    (scope : LocationPointScope) (force : Bool) (stored : List BufferedLocationPoint)
    → All (λ p. In p stored) (batch_for scope force stored)
unfolding batch_for select_location_points_for_sync
batch_for-In scope force stored = All-take _ 100 _ (
    All-sort by_retry_count _ _ (
      All-filter_of _ (is_retryable force) _
        (All-filter_of _ (λ p. is_point_for_location_scope p scope) stored (All-In stored))))

tries_left-mark_le :
    (ps : List BufferedLocationPoint) (ids : List String) (at : String)
    → tries_left (mark_location_points_failed ps ids at) ≤ tries_left ps
unfolding mark_location_points_failed
tries_left-mark_le [] ids at = omega arith
tries_left-mark_le (p ∷ ps) ids at = elim (Bool-cases (includes p.client_point_id ids)) [
  | inl e ↦ rw e (omega (arith, tries_left-mark_le ps ids at))
  | inr e ↦ rw e (omega (arith, tries_left-mark_le ps ids at))
]

-- Marking a stored point that has tries left uses one up.
tries_left-mark_lt :
    (p : BufferedLocationPoint) (ps : List BufferedLocationPoint) (ids : List String) (at : String)
    → In p ps
    → p.retry_count < 5
    → includes p.client_point_id ids ≡ true
    → tries_left (mark_location_points_failed ps ids at) < tries_left ps
unfolding mark_location_points_failed
tries_left-mark_lt p [] ids at i h k = elim i [ ]
tries_left-mark_lt p (x ∷ ps) ids at (inl e) h k =
    rw (subst (λ (y : BufferedLocationPoint). includes y.client_point_id ids ≡ true) e k) (
      omega
        (arith, tries_left-mark_le ps ids at, ap (λ (y : BufferedLocationPoint). y.retry_count) e))
tries_left-mark_lt p (x ∷ ps) ids at (inr i) h k =
    elim (Bool-cases (includes x.client_point_id ids)) [
      | inl e ↦ rw e (omega (arith, tries_left-mark_lt p ps ids at i h k))
      | inr e ↦ rw e (omega (arith, tries_left-mark_lt p ps ids at i h k))
    ]

tries_left-remove_le :
    (ps : List BufferedLocationPoint) (ids : List String)
    → tries_left (remove_accepted_location_points ps ids) ≤ tries_left ps
unfolding remove_accepted_location_points filter
tries_left-remove_le [] ids = omega arith
tries_left-remove_le (p ∷ ps) ids = elim (Bool-cases (includes p.client_point_id ids)) [
  | inl e ↦ rw e (omega (arith, tries_left-remove_le ps ids))
  | inr e ↦ rw e (omega (arith, tries_left-remove_le ps ids))
]

-- A stored point with tries left either goes, and its tries with it, or is still stored.
tries_left-remove_lt :
    (p : BufferedLocationPoint) (ps : List BufferedLocationPoint) (ids : List String)
    → In p ps
    → p.retry_count < 5
    → (tries_left (remove_accepted_location_points ps ids) < tries_left ps)
      ⊎ ((includes p.client_point_id ids ≡ false) × In p (remove_accepted_location_points ps ids))
unfolding remove_accepted_location_points filter
tries_left-remove_lt p [] ids i h = elim i [ ]
tries_left-remove_lt p (x ∷ ps) ids (inl e) h = elim (Bool-cases (includes x.client_point_id ids)) [
  | inl f ↦ inl (
      rw f (
        omega (
          arith,
          tries_left-remove_le ps ids,
          ap (λ (y : BufferedLocationPoint). y.retry_count) e,
        )))
  | inr f ↦ inr (
    subst (λ (y : BufferedLocationPoint). includes y.client_point_id ids ≡ false) (sym e) f,
    rw f (inl e),
  )
]
tries_left-remove_lt p (x ∷ ps) ids (inr i) h = elim (Bool-cases (includes x.client_point_id ids)) [
  | inl f ↦ elim (tries_left-remove_lt p ps ids i h) [
    | inl k ↦ inl (rw f (omega arith))
    | inr k ↦ inr (k.0, rw f (k.1))
  ]
  | inr f ↦ elim (tries_left-remove_lt p ps ids i h) [
    | inl k ↦ inl (rw f (omega arith))
    | inr k ↦ inr (k.0, rw f (inr k.1))
  ]
]

-- The replies after which a round counts: all but the refusal that may not be repeated.
abbrev pub makes_progress : SyncReply → Bool
makes_progress (accepted ids) = true
makes_progress (failed again) = again

includes_head :
    (p : BufferedLocationPoint) (ps : List BufferedLocationPoint)
    → includes p.client_point_id (client_ids (p ∷ ps)) ≡ true
unfolding includes
includes_head p ps = rw (str_eq_refl p.client_point_id)

unaccepted_head :
    (p : BufferedLocationPoint) (ps : List BufferedLocationPoint) (ids : List String)
    → includes p.client_point_id ids ≡ false
    → includes p.client_point_id (client_ids (get_unaccepted_location_points (p ∷ ps) ids)) ≡ true
unfolding get_unaccepted_location_points filter includes
unaccepted_head p ps ids e = rw (e, str_eq_refl p.client_point_id)

after_reply_lt :
    (reply : SyncReply) (p : BufferedLocationPoint) (ps stored : List BufferedLocationPoint)
    (at : String)
    → makes_progress reply ≡ true
    → In p stored
    → p.retry_count < 5
    → tries_left (after_reply reply (p ∷ ps) at stored) < tries_left stored
unfolding after_reply
after_reply_lt (accepted ids) p ps stored at m i h = elim (tries_left-remove_lt p stored ids i h) [
  | inl k ↦ omega (
    arith,
    tries_left-mark_le (remove_accepted_location_points stored ids)
        (client_ids (get_unaccepted_location_points (p ∷ ps) ids)) at,
  )
  | inr k ↦ omega (
    arith,
    tries_left-remove_le stored ids,
    tries_left-mark_lt p (remove_accepted_location_points stored ids)
        (client_ids (get_unaccepted_location_points (p ∷ ps) ids)) at k.1 h
        (unaccepted_head p ps ids k.0),
  )
]
after_reply_lt (failed again) p ps stored at m i h =
    rw m (tries_left-mark_lt p stored (client_ids (p ∷ ps)) at i h (includes_head p ps))

-- An unforced round that sends a batch, and is answered otherwise than by a refusal that may not be
-- repeated, uses up tries.
pub sync_round_lt :
    (scope : LocationPointScope) (at : String) (server : List BufferedLocationPoint → SyncReply)
    (stored : List BufferedLocationPoint)
    → is_empty (batch_for scope false stored) ≡ false
    → makes_progress (server (batch_for scope false stored)) ≡ true
    → tries_left (sync_round scope false at server stored) < tries_left stored
unfolding sync_round
sync_round_lt scope at server stored e m =
    go (batch_for scope false stored) (batch_for-In scope false stored)
      (batch_for_bounds scope false stored).1 e m
  where
    go :
        (batch : List BufferedLocationPoint)
        → All (λ p. In p stored) batch
        → All
            (λ p.
              (is_point_for_location_scope p scope ≡ true) × (false ≡ false → p.retry_count < 5))
            batch
        → is_empty batch ≡ false
        → makes_progress (server batch) ≡ true
        → tries_left (if is_empty batch then stored else after_reply (server batch) batch at stored)
          < tries_left stored
    go [] i h k n = cc
    go (p ∷ ps) i h k n = after_reply_lt (server (p ∷ ps)) p ps stored at n i.0 (h.0.1 refl)

-- The batches that a row of unforced rounds sends, one answer for each round.
unfoldable pub batches_sent :
    LocationPointScope
    → List (String × (List BufferedLocationPoint → SyncReply))
    → List BufferedLocationPoint
    → ℕ
batches_sent scope [] stored = 0
batches_sent scope ((at, server) ∷ rounds) stored =
    (if is_empty (batch_for scope false stored) then 0 else 1)
    + batches_sent scope rounds (sync_round scope false at server stored)

abbrev pub AllProgress : List (String × (List BufferedLocationPoint → SyncReply)) → Type 0
AllProgress [] = Unit
AllProgress ((at, server) ∷ rounds) =
    ((batch : List BufferedLocationPoint) → makes_progress (server batch) ≡ true)
    × AllProgress rounds

sync_round_idle :
    (scope : LocationPointScope) (at : String) (server : List BufferedLocationPoint → SyncReply)
    (stored : List BufferedLocationPoint)
    → is_empty (batch_for scope false stored) ≡ true
    → sync_round scope false at server stored ≡ stored
unfolding sync_round
sync_round_idle scope at server stored e = rw e

batches_sent-le-tries_left :
    (scope : LocationPointScope) (rounds : List (String × (List BufferedLocationPoint → SyncReply)))
    (stored : List BufferedLocationPoint)
    → AllProgress rounds
    → batches_sent scope rounds stored ≤ tries_left stored
unfolding batches_sent
batches_sent-le-tries_left scope [] stored h = omega arith
batches_sent-le-tries_left scope ((at, server) ∷ rounds) stored h =
    elim (Bool-cases (is_empty (batch_for scope false stored))) [
      | inl e ↦ rw e (
          rw (sync_round_idle scope at server stored e)
            (omega (arith, batches_sent-le-tries_left scope rounds stored h.1)))
      | inr e ↦ rw e (
          omega (
            arith,
            sync_round_lt scope at server stored e (h.0 (batch_for scope false stored)),
            batches_sent-le-tries_left scope rounds (sync_round scope false at server stored) h.1,
          ))
    ]

tries_left-le : (ps : List BufferedLocationPoint) → tries_left ps ≤ 5 * length ps
tries_left-le [] = omega arith
tries_left-le (p ∷ ps) = omega (arith, tries_left-le ps)

-- However many unforced rounds follow one another with no new capture, if none is answered by a
-- refusal that may not be repeated, at most five batches for each stored point are sent in all.
pub batches_sent_bounded :
    (scope : LocationPointScope) (rounds : List (String × (List BufferedLocationPoint → SyncReply)))
    (stored : List BufferedLocationPoint)
    → AllProgress rounds
    → batches_sent scope rounds stored ≤ 5 * length stored
batches_sent_bounded scope rounds stored h =
    omega (arith, batches_sent-le-tries_left scope rounds stored h, tries_left-le stored)
