-- ===== src/Prelude/Lists.antt =====
-- Lists measured by native numbers, and the array methods that the source calls: `some`, `every`,
-- `filter`, `includes` and `slice(0, n)`, with a Boolean test.
use Prim.Native.Nat.{ℕ, zero, suc, ◌+◌, min}
use Prim.Native.Char.{code}
use Prim.Native.String.{String}
use mathlib.Core.Path.{◌≡◌, refl, ap}
use mathlib.Core.Logic.{inl, inr}
use mathlib.Core.Bool.{Bool, true, false, not, ◌&&◌, ◌||◌}
use mathlib.Core.List.{List, [], ◌∷◌, ◌++◌}
use native.Mathlib.Omega.{arith}
use text.Mathlib.Text.{◌==◌}
use text.Mathlib.TextEquality.{eq_iff}
use kootha.Prelude.Tests.{if◌then◌else◌, Bool-cases}

abbrev pub str_eq : String → String → Bool
str_eq a b = a == b

-- `Set<string>.has` and `Array<string>.includes`.
unfoldable pub includes : String → List String → Bool
includes a [] = false
includes a (x ∷ xs) = str_eq a x || includes a xs

pub str_eq_refl : (a : String) → str_eq a a ≡ true
str_eq_refl a = (eq_iff a a).1 refl

pub str_eq-same : (a b : String) → str_eq a b ≡ true → a ≡ b
str_eq-same a b = (eq_iff a b).0

-- No string stands twice in the list.
abbrev pub IsDistinct : List String → Type 0
IsDistinct [] = Unit
IsDistinct (x ∷ xs) = (includes x xs ≡ false) × IsDistinct xs

-- The code points of a text.
abbrev pub codes : String → List ℕ
codes String.[] = []
codes (String.◌∷◌ c s) = code c ∷ codes s

-- A predicate that holds of every item, as nested pairs.
abbrev pub All {α π} : {A : Type α} (P : A → Type π) → List A → Type π
All P [] = Unit
All P (a ∷ rest) = P a × All P rest

module _ {ℓ} {A : Type ℓ} where
  abbrev pub length : List A → ℕ
  length [] = 0
  length (x ∷ xs) = suc (length xs)

  abbrev pub take : ℕ → List A → List A
  take zero xs = []
  take (suc n) [] = []
  take (suc n) (x ∷ xs) = x ∷ take n xs

  abbrev pub drop : ℕ → List A → List A
  drop zero xs = xs
  drop (suc n) [] = []
  drop (suc n) (x ∷ xs) = drop n xs

  -- `xs.some(p)`, `xs.every(p)` and `xs.filter(p)`.
  unfoldable pub any : (A → Bool) → List A → Bool
  any p [] = false
  any p (x ∷ xs) = p x || any p xs

  unfoldable pub every : (A → Bool) → List A → Bool
  every p [] = true
  every p (x ∷ xs) = p x && every p xs

  unfoldable pub filter : (A → Bool) → List A → List A
  filter p [] = []
  filter p (x ∷ xs) = if p x then x ∷ filter p xs else filter p xs

  -- How many items pass the test.
  abbrev pub count : (A → Bool) → List A → ℕ
  count p [] = 0
  count p (x ∷ xs) = (if p x then 1 else 0) + count p xs

  pub length-append : (xs ys : List A) → length (xs ++ ys) ≡ length xs + length ys
  length-append [] ys = omega arith
  length-append (x ∷ xs) ys = omega (arith, length-append xs ys)

  pub length-take : (n : ℕ) (xs : List A) → length (take n xs) ≡ min n (length xs)
  length-take zero xs = omega arith
  length-take (suc n) [] = omega arith
  length-take (suc n) (x ∷ xs) = omega (arith, length-take n xs)

  pub take-append-drop : (n : ℕ) (xs : List A) → take n xs ++ drop n xs ≡ xs
  take-append-drop zero xs = refl
  take-append-drop (suc n) [] = refl
  take-append-drop (suc n) (x ∷ xs) = ap (◌∷◌ x) (take-append-drop n xs)

  pub All-append {π} :
      (P : A → Type π) (xs ys : List A) (all_xs : All P xs) (all_ys : All P ys) → All P (xs ++ ys)
  All-append P [] ys all_xs all_ys = all_ys
  All-append P (x ∷ xs) ys all_xs all_ys = (all_xs.0, All-append P xs ys all_xs.1 all_ys)

  pub All-of_append {κ} : (P : A → Type κ) (xs ys : List A) → All P (xs ++ ys) → All P xs × All P ys
  All-of_append P [] ys h = (tt, h)
  All-of_append P (x ∷ xs) ys h = let (l, r) = All-of_append P xs ys h.1 in ((h.0, l), r)

  pub All-take {κ} : (P : A → Type κ) (n : ℕ) (xs : List A) → All P xs → All P (take n xs)
  All-take P zero xs h = tt
  All-take P (suc n) [] h = tt
  All-take P (suc n) (x ∷ xs) h = (h.0, All-take P n xs h.1)

  pub All-map_imp {κ ι} :
      {P : A → Type κ} {Q : A → Type ι} (xs : List A) → ((a : A) → P a → Q a) → All P xs → All Q xs
  All-map_imp [] f h = tt
  All-map_imp (x ∷ xs) f h = (f x h.0, All-map_imp xs f h.1)

  -- What a filter keeps passes its test, and every passing item is kept.
  pub All-filter : (p : A → Bool) (xs : List A) → All (λ a. p a ≡ true) (filter p xs)
  unfolding filter
  All-filter p [] = tt
  All-filter p (x ∷ xs) = elim (Bool-cases (p x)) [
    | inl e ↦ rw e (e, All-filter p xs)
    | inr e ↦ rw e (All-filter p xs)
  ]

  pub All-filter_of {κ} :
      (P : A → Type κ) (p : A → Bool) (xs : List A) → All P xs → All P (filter p xs)
  unfolding filter
  All-filter_of P p [] h = tt
  All-filter_of P p (x ∷ xs) h = elim (Bool-cases (p x)) [
    | inl e ↦ rw e (h.0, All-filter_of P p xs h.1)
    | inr e ↦ rw e (All-filter_of P p xs h.1)
  ]

  pub length-filter-count : (p : A → Bool) (xs : List A) → length (filter p xs) ≡ count p xs
  unfolding filter
  length-filter-count p [] = refl
  length-filter-count p (x ∷ xs) = ground (arith, length-filter-count p xs)

  pub count-not : (p : A → Bool) (xs : List A) → count p xs + count (λ a. not (p a)) xs ≡ length xs
  count-not p [] = omega arith
  count-not p (x ∷ xs) = elim (Bool-cases (p x)) [
    | inl e ↦ rw e (omega (arith, count-not p xs))
    | inr e ↦ rw e (omega (arith, count-not p xs))
  ]

  pub any-append : (p : A → Bool) (xs ys : List A) → any p (xs ++ ys) ≡ (any p xs || any p ys)
  unfolding any
  any-append p [] ys = refl
  any-append p (x ∷ xs) ys = ground (arith, any-append p xs ys)
