-- ===== src/Pairing/Matching.antt =====
-- What the pairs of m23PairingOracle.ts have in common, and that none is missing.
use kootha.Prelude.{
  IsDistinct, ℕ, ◌≤◌, ◌≡◌, refl, sym, ap, ◌∙◌, subst, inl, inr, ◌⊎◌, Bool, true, false, ◌||◌, List,
  [], ◌∷◌, String, arith, leb, filter, includes, str_eq, str_eq_refl, str_eq-same, length, All,
  All-map_imp, Bool-cases,
}
use kootha.Prelude.Number.{pos, integer}
use kootha.Prelude.Result.{ok}
use kootha.Prelude.Sort.{sort, All-sort, All-of_sort, length-sort}
use kootha.Pairing.{
  M23PairingOraclePoint, M23PairingOracleResult, difference, captured_before, nearer, is_candidate,
  candidates, result_of, pair_loop, pair_m23_points,
}

abbrev pub physical_ids : List M23PairingOracleResult → List String
physical_ids [] = []
physical_ids (p ∷ ps) = p.physical_point_id ∷ physical_ids ps

abbrev pub phone_ids : List M23PairingOracleResult → List String
phone_ids [] = []
phone_ids (p ∷ ps) = p.phone_point_id ∷ phone_ids ps

filter-All : {A : Type 0} → (p : A → Bool) (xs : List A) → All (λ a. p a ≡ true) (filter p xs)
unfolding filter
filter-All p [] = tt
filter-All p (x ∷ xs) = elim (Bool-cases (p x)) [
  | inl e ↦ rw e (e, filter-All p xs)
  | inr e ↦ rw e (filter-All p xs)
]

filter-none :
    {A : Type 0}
    → (p : A → Bool) (xs : List A) → length (filter p xs) ≡ 0
    → All (λ a. p a ≡ false) xs
unfolding filter
filter-none p [] h = tt
filter-none p (x ∷ xs) h = elim (Bool-cases (p x)) [
  | inl e ↦ absurd (ground (arith, e, h))
  | inr e ↦ (e, filter-none p xs (ground (arith, e, h)))
]

other_id :
    (i j : String) (used : List String)
    → includes i used ≡ true
    → includes j used ≡ false
    → str_eq i j ≡ false
other_id i j used h k = elim (Bool-cases (str_eq i j)) [
  | inl e ↦ absurd (clash (ap (λ x. includes x used) (str_eq-same i j e)))
  | inr e ↦ e
]
  where
    clash : includes i used ≡ includes j used → ⊥
    clash s = ground (arith, s, h, k)

-- A phone point is paired, or no physical point within the window is free.
abbrev pub IsSettled :
    ℕ
    → List String
    → List M23PairingOracleResult
    → List M23PairingOraclePoint
    → M23PairingOraclePoint
    → Type 0
IsSettled window used pairs physical phone =
    (includes phone.id (phone_ids pairs) ≡ true)
    ⊎ All
        (λ point.
          leb (difference point phone) window ≡ true
          → includes point.id used || includes point.id (physical_ids pairs) ≡ true)
        physical

-- What the loop makes of some phone points.
record IsMatching (window : ℕ) (used : List String) (physical phones : List M23PairingOraclePoint)
    (pairs : List M23PairingOracleResult) : Type 0 where
  near : All (λ p. p.time_difference_milliseconds ≤ window) pairs
  fresh : (i : String) → includes i used ≡ true → includes i (physical_ids pairs) ≡ false
  distinct : IsDistinct (physical_ids pairs)
  settled : All (IsSettled window used pairs physical) phones

module _ (id_le : String → String → Bool) where
  chosen :
      (window : ℕ) (used : List String) (physical : List M23PairingOraclePoint)
      (phone point : M23PairingOraclePoint) (others : List M23PairingOraclePoint)
      → candidates id_le window used physical phone ≡ point ∷ others
      → is_candidate id_le window used phone point ≡ true
  unfolding candidates
  chosen window used physical phone point others e =
      (subst (All (λ p. is_candidate id_le window used phone p ≡ true)) e (
        All-sort (nearer id_le phone) _ (filter (is_candidate id_le window used phone) physical)
          (filter-All (is_candidate id_le window used phone) physical))).0

  none_left :
      (window : ℕ) (used : List String) (physical : List M23PairingOraclePoint)
      (phone : M23PairingOraclePoint)
      → candidates id_le window used physical phone ≡ []
      → All (λ p. is_candidate id_le window used phone p ≡ false) physical
  unfolding candidates
  none_left window used physical phone e =
      filter-none (is_candidate id_le window used phone) physical (
        sym (
          length-sort (nearer id_le phone) (filter (is_candidate id_le window used phone) physical))
        ∙ ap length e)

  idle :
      (window : ℕ) (used : List String) (physical phones : List M23PairingOraclePoint)
      (phone : M23PairingOraclePoint) (pairs : List M23PairingOracleResult)
      → All (λ p. is_candidate id_le window used phone p ≡ false) physical
      → IsMatching window used physical phones pairs
      → IsMatching window used physical (phone ∷ phones) pairs
  idle window used physical phones phone pairs h m = record {
    near = m.near;
    fresh = m.fresh;
    distinct = m.distinct;
    settled = (inr (All-map_imp physical (λ point k l. ground (arith, k, l)) h), m.settled);
  }

  result_of-IsSettled :
      (window : ℕ) (used : List String) (physical : List M23PairingOraclePoint)
      (phone point other : M23PairingOraclePoint) (pairs : List M23PairingOracleResult)
      → IsSettled window (point.id ∷ used) pairs physical other
      → IsSettled window used (result_of id_le phone point ∷ pairs) physical other
  unfolding includes
  result_of-IsSettled window used physical phone point other pairs (inl h) = inl (ground (arith, h))
  result_of-IsSettled window used physical phone point other pairs (inr h) =
      inr (All-map_imp physical (λ q k l. ground (arith, k l)) h)

  paired :
      (window : ℕ) (used : List String) (physical phones : List M23PairingOraclePoint)
      (phone point : M23PairingOraclePoint) (pairs : List M23PairingOracleResult)
      → is_candidate id_le window used phone point ≡ true
      → IsMatching window (point.id ∷ used) physical phones pairs
      → IsMatching window used physical (phone ∷ phones) (result_of id_le phone point ∷ pairs)
  unfolding includes
  paired window used physical phones phone point pairs h m = record {
    near = (ground (arith, h), m.near);
    fresh = λ i k. ground (arith, m.fresh i, k, other_id i point.id used k (ground (arith, h)));
    distinct = (m.fresh point.id (ground (arith, str_eq_refl point.id)), m.distinct);
    settled = (
      inl (ground (arith, str_eq_refl phone.id)),
      All-map_imp phones
          (λ other k. result_of-IsSettled window used physical phone point other pairs k) m.settled,
    );
  }

  looped :
      (window : ℕ) (physical phones : List M23PairingOraclePoint) (used : List String)
      → IsMatching window used physical phones (pair_loop id_le window physical phones used)
  unfolding pair_loop includes
  looped window physical [] used = record {
    near = tt;
    fresh = λ i k. refl;
    distinct = tt;
    settled = tt;
  }
  looped window physical (phone ∷ phones) used =
      with_candidates (candidates id_le window used physical phone) refl
        (looped window physical phones used) (λ i. looped window physical phones (i ∷ used))
    where
      with_candidates :
          (cs : List M23PairingOraclePoint)
          → candidates id_le window used physical phone ≡ cs
          → IsMatching window used physical phones (pair_loop id_le window physical phones used)
          → ((i : String)
              → IsMatching window
                  (i ∷ used)
                  physical
                  phones
                  (pair_loop id_le window physical phones (i ∷ used)))
          → IsMatching window used physical
              (phone ∷ phones)
              (elim cs as (λ x. List M23PairingOracleResult) [
                | [] ↦ pair_loop id_le window physical phones used
                | point ∷ others ↦
                    result_of id_le phone point
                    ∷ pair_loop id_le window physical phones (point.id ∷ used)
              ])
      with_candidates [] e m n =
          idle window used physical phones phone _ (none_left window used physical phone e) m
      with_candidates (point ∷ others) e m n =
          paired window used physical phones phone point _
            (chosen window used physical phone point others e) (n point.id)

-- The pairs are near, distinct, and none is missing.
pub record IsPairing (window : ℕ) (phones physical : List M23PairingOraclePoint)
    (pairs : List M23PairingOracleResult) : Type 0 where
  pub near : All (λ p. p.time_difference_milliseconds ≤ window) pairs
  pub distinct : IsDistinct (physical_ids pairs)
  pub settled : All (IsSettled window [] pairs physical) phones

-- Every pair is within the window; no physical point is used twice; and a phone point stays without a
-- partner only if each physical point within its window is used by another.
pub pair_m23_points-IsPairing :
    (id_le : String → String → Bool) (phone_points physical_points : List M23PairingOraclePoint)
    (window : ℕ) (pairs : List M23PairingOracleResult)
    → pair_m23_points id_le phone_points physical_points (integer (pos window)) ≡ ok pairs
    → IsPairing window phone_points physical_points pairs
unfolding pair_m23_points
pair_m23_points-IsPairing id_le phone_points physical_points window pairs h =
    subst (IsPairing window phone_points physical_points) (returned h) (record {
      near = m.near;
      distinct = m.distinct;
      settled =
          All-of_sort (captured_before id_le) _ phone_points
            (All-map_imp phones (λ phone k. unsorted phone k) m.settled);
    })
  where
    phones : List M23PairingOraclePoint
    phones = sort (captured_before id_le) phone_points

    physical : List M23PairingOraclePoint
    physical = sort (captured_before id_le) physical_points

    m : IsMatching window [] physical phones (pair_loop id_le window physical phones [])
    m = looped id_le window physical phones []

    returned :
        pair_m23_points id_le phone_points physical_points (integer (pos window)) ≡ ok pairs
        → pair_loop id_le window physical phones [] ≡ pairs
    returned e = ground (arith, e)

    unsorted :
        (phone : M23PairingOraclePoint)
        → IsSettled window [] (pair_loop id_le window physical phones []) physical phone
        → IsSettled window [] (pair_loop id_le window physical phones []) physical_points phone
    unsorted phone (inl k) = inl k
    unsorted phone (inr k) = inr (All-of_sort (captured_before id_le) _ physical_points k)
