-- ===== src/Pairing.antt =====
-- packages/shared/src/physicalTelemetry/m23PairingOracle.ts: each phone point is paired with the nearest
-- device point in the window that is not used yet. `id_le` stands for the order of `localeCompare`; the
-- instants are whole milliseconds from 1970 on.
pub mod Matching
mod Tests
use kootha.Prelude.{
  ℕ, ◌+◌, ◌-◌, ◌^◌, ◌≡◌, Bool, true, false, not, ◌&&◌, ◌||◌, List, [], ◌∷◌, String, if◌then◌else◌,
  ltb, leb, ◌==◌, filter, includes,
}
use kootha.Prelude.Number.{ℤ, pos, negsuc, Number, integer}
use kootha.Prelude.Result.{Result, ok, err}
use kootha.Prelude.Sort.{sort}

pub record M23PairingOraclePoint : Type 0 where
  pub id : String
  pub captured_at_milliseconds : ℕ

pub record M23PairingOracleResult : Type 0 where
  pub phone_point_id : String
  pub physical_point_id : String
  pub time_difference_milliseconds : ℕ

pub data PairingError : Type 0 where
  invalid_pairing_window : PairingError

-- `Math.abs` of the difference of two instants.
abbrev pub difference : M23PairingOraclePoint → M23PairingOraclePoint → ℕ
difference p q =
    p.captured_at_milliseconds
    - q.captured_at_milliseconds
    + (q.captured_at_milliseconds - p.captured_at_milliseconds)

module _ (id_le : String → String → Bool) where
  unfoldable pub captured_before : M23PairingOraclePoint → M23PairingOraclePoint → Bool
  captured_before p q =
      ltb p.captured_at_milliseconds q.captured_at_milliseconds
      || (p.captured_at_milliseconds == q.captured_at_milliseconds && id_le p.id q.id)

  -- The order of the candidates of a phone point: by difference, then by instant, then by id.
  unfoldable pub nearer :
      M23PairingOraclePoint → M23PairingOraclePoint → M23PairingOraclePoint → Bool
  nearer phone p q =
      ltb (difference p phone) (difference q phone)
      || (difference p phone == difference q phone && captured_before p q)

  abbrev pub is_candidate : ℕ → List String → M23PairingOraclePoint → M23PairingOraclePoint → Bool
  is_candidate window used phone point =
      not (includes point.id used) && leb (difference point phone) window

  unfoldable pub candidates :
      ℕ
      → List String
      → List M23PairingOraclePoint
      → M23PairingOraclePoint
      → List M23PairingOraclePoint
  candidates window used physical phone =
      sort (nearer phone) (filter (is_candidate window used phone) physical)

  abbrev pub result_of : M23PairingOraclePoint → M23PairingOraclePoint → M23PairingOracleResult
  result_of phone point = record {
    phone_point_id = phone.id;
    physical_point_id = point.id;
    time_difference_milliseconds = difference point phone;
  }

  -- The loop over the phone points, with the ids that are used.
  unfoldable pub pair_loop :
      ℕ
      → List M23PairingOraclePoint
      → List M23PairingOraclePoint
      → List String
      → List M23PairingOracleResult
  pair_loop window physical [] used = []
  pair_loop window physical (phone ∷ phones) used = elim (candidates window used physical phone) [
    | [] ↦ pair_loop window physical phones used
    | point ∷ others ↦ result_of phone point ∷ pair_loop window physical phones (point.id ∷ used)
  ]

  unfoldable pub pair_m23_points :
      List M23PairingOraclePoint
      → List M23PairingOraclePoint
      → Number
      → Result PairingError (List M23PairingOracleResult)
  pair_m23_points phone_points physical_points (integer (pos window)) =
      if ltb window (2 ^ 53)
      then ok (
          pair_loop window (sort captured_before physical_points)
            (sort captured_before phone_points) [])
      else err invalid_pairing_window
  pair_m23_points phone_points physical_points _ = err invalid_pairing_window
