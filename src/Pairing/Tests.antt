-- ===== src/Pairing/Tests.antt =====
-- Pairs of three phone points with two device points.
use kootha.Prelude.{ℕ, ◌≡◌, refl, Bool, true, List, [], ◌∷◌, String, filter, includes}
use kootha.Prelude.Number.{integer, pos, negsuc}
use kootha.Prelude.Result.{ok, err}
use kootha.Prelude.Sort.{sort}
use kootha.Pairing.{
  M23PairingOraclePoint, M23PairingOracleResult, captured_before, nearer, candidates, pair_loop,
  pair_m23_points, invalid_pairing_window,
}
use kootha.Pairing.Matching.{IsPairing, pair_m23_points-IsPairing}

abbrev at : String → ℕ → M23PairingOraclePoint
at id t = record { id = id; captured_at_milliseconds = t }

-- The order of the ids does not matter here.
abbrev any_order : String → String → Bool
any_order i j = true

abbrev phones : List M23PairingOraclePoint
phones = at "p2" 1500 ∷ at "p1" 1000 ∷ at "p3" 9000 ∷ []

abbrev devices : List M23PairingOraclePoint
devices = at "d1" 1300 ∷ at "d2" 1600 ∷ []

abbrev pairs : List M23PairingOracleResult
pairs =
    record { phone_point_id = "p1"; physical_point_id = "d1"; time_difference_milliseconds = 300 }
    ∷ record { phone_point_id = "p2"; physical_point_id = "d2"; time_difference_milliseconds = 100 }
    ∷ []

two_pairs : pair_m23_points any_order phones devices (integer (pos 500)) ≡ ok pairs
unfolding pair_m23_points pair_loop candidates nearer captured_before sort filter includes
two_pairs = refl

no_window :
    pair_m23_points any_order phones devices (integer (negsuc 0)) ≡ err invalid_pairing_window
unfolding pair_m23_points
no_window = refl

pair_m23_points-IsPairing_example : IsPairing 500 phones devices pairs
pair_m23_points-IsPairing_example =
    pair_m23_points-IsPairing any_order phones devices 500 pairs two_pairs
