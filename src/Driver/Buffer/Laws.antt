-- ===== src/Driver/Buffer/Laws.antt =====
-- What the operations of the buffer keep, and that no round of sending loses a point.
use kootha.Prelude.{
  IsDistinct, ◌≡◌, refl, ap, inl, inr, Bool, false, not, ◌&&◌, ◌||◌, String, List, [], ◌∷◌, ◌++◌,
  arith, str_eq, includes, any, filter, Bool-cases, str_eq_refl,
}
use text.Mathlib.TextEquality.{eq_iff}
use kootha.Driver.Buffer.{
  BufferedLocationPoint, SyncReply, accepted, failed, merge_buffered_location_point,
  mark_location_points_failed, remove_accepted_location_points, client_ids, after_reply, sync_round,
  batch_for, LocationPointScope, is_empty,
}

includes-append :
    (i : String) (xs ys : List String) → includes i (xs ++ ys) ≡ (includes i xs || includes i ys)
unfolding includes
includes-append i [] ys = refl
includes-append i (x ∷ xs) ys = ground (arith, includes-append i xs ys)

client_ids-append :
    (xs ys : List BufferedLocationPoint) → client_ids (xs ++ ys) ≡ client_ids xs ++ client_ids ys
client_ids-append [] ys = refl
client_ids-append (x ∷ xs) ys = ap (◌∷◌ x.client_point_id) (client_ids-append xs ys)

any-includes :
    (i : String) (points : List BufferedLocationPoint)
    → any (λ p. str_eq p.client_point_id i) points ≡ includes i (client_ids points)
unfolding any includes
any-includes i [] = refl
any-includes i (p ∷ ps) =
    ground (arith, any-includes i ps, eq_iff i p.client_point_id, eq_iff p.client_point_id i)

IsDistinct-append :
    (xs : List String) (i : String)
    → IsDistinct xs
    → includes i xs ≡ false
    → IsDistinct (xs ++ i ∷ [])
unfolding includes
IsDistinct-append [] i h k = (refl, tt)
IsDistinct-append (x ∷ xs) i h k =
    ground
      (arith, IsDistinct-append xs i h.1, includes-append x xs (i ∷ []), eq_iff i x, eq_iff x i)

-- Capturing a point keeps the client ids distinct, loses none, and has the new one afterwards.
pub merge-includes :
    (points : List BufferedLocationPoint) (point : BufferedLocationPoint) (i : String)
    → IsDistinct (client_ids points)
    → IsDistinct (client_ids (merge_buffered_location_point points point))
      × (includes i (client_ids (merge_buffered_location_point points point))
          ≡ (str_eq i point.client_point_id || includes i (client_ids points)))
unfolding merge_buffered_location_point includes
merge-includes points point i d = ground (
  arith,
  any-includes point.client_point_id points,
  client_ids-append points (point ∷ []),
  IsDistinct-append (client_ids points) point.client_point_id d,
  includes-append i (client_ids points) (point.client_point_id ∷ []),
  eq_iff i point.client_point_id,
)

-- Marking points as failed changes no client id.
pub client_ids-mark_failed :
    (points : List BufferedLocationPoint) (ids : List String) (at : String)
    → client_ids (mark_location_points_failed points ids at) ≡ client_ids points
unfolding mark_location_points_failed
client_ids-mark_failed [] ids at = refl
client_ids-mark_failed (p ∷ ps) ids at = elim (Bool-cases (includes p.client_point_id ids)) [
  | inl e ↦ rw e (ap (◌∷◌ p.client_point_id) (client_ids-mark_failed ps ids at))
  | inr e ↦ rw e (ap (◌∷◌ p.client_point_id) (client_ids-mark_failed ps ids at))
]

-- What is left after a removal is what the server did not accept.
pub includes-remove_accepted :
    (points : List BufferedLocationPoint) (ids : List String) (i : String)
    → includes i (client_ids (remove_accepted_location_points points ids))
      ≡ (includes i (client_ids points) && not (includes i ids))
unfolding remove_accepted_location_points filter includes
includes-remove_accepted [] ids i = refl
includes-remove_accepted (p ∷ ps) ids i = elim (Bool-cases (str_eq i p.client_point_id)) [
  | inl e ↦
      rw ((eq_iff i p.client_point_id).0 e, str_eq_refl)
        (ground
          (arith, includes-remove_accepted ps ids p.client_point_id, str_eq_refl p.client_point_id))
  | inr e ↦ ground (arith, e, includes-remove_accepted ps ids i)
]

-- The client ids that a reply lets go of.
abbrev pub released : SyncReply → String → Bool
released (accepted ids) i = includes i ids
released (failed again) i = false

after_reply-includes :
    (reply : SyncReply) (batch stored : List BufferedLocationPoint) (at i : String)
    → includes i (client_ids (after_reply reply batch at stored))
      ≡ (includes i (client_ids stored) && not (released reply i))
unfolding after_reply
after_reply-includes (accepted ids) batch stored at i =
    rw (client_ids-mark_failed (remove_accepted_location_points stored ids) _ at)
      (includes-remove_accepted stored ids i)
after_reply-includes (failed again) batch stored at i =
    ground (arith, client_ids-mark_failed stored (client_ids batch) at)

-- No round of sending loses a point: a client id leaves the stored points only if a batch was sent and
-- the server accepted that id, and none is added.
pub sync_round-includes :
    (scope : LocationPointScope) (force : Bool) (at : String)
    (server : List BufferedLocationPoint → SyncReply) (stored : List BufferedLocationPoint)
    (i : String)
    → let batch = batch_for scope force stored in
      includes i (client_ids (sync_round scope force at server stored))
      ≡ (includes i (client_ids stored) && not (not (is_empty batch) && released (server batch) i))
unfolding sync_round
sync_round-includes scope force at server stored i = ground (
  arith,
  after_reply-includes (server (batch_for scope force stored)) (batch_for scope force stored) stored
      at i,
)
