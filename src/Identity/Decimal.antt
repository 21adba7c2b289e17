-- ===== src/Identity/Decimal.antt =====
-- One way to print and read numbers that Identity/Reader.antt asks for: integers in decimal, and the k-th
-- other number as a point and k.
use kootha.Prelude.{
  ℕ, zero, suc, ◌+◌, ◌-◌, ◌*◌, ◌/◌, ◌%◌, ◌<◌, ◌≡◌, refl, ap, ◌∙◌, inl, inr, Bool, true, false, ◌&&◌,
  Option, none, some, [], ◌∷◌, arith, if◌then◌else◌, ltb, leb, ◌==◌, every, Bool-cases,
}
use kootha.Prelude.Number.{pos, negsuc, Number, integer, fraction, infinity, nan, is_finite}
use kootha.Prelude.Json.{Text}
use kootha.Prelude.Print.{decimal_onto, decimal, number_text}
use kootha.Identity.Reader.{is_number_unit, IsNumberText}

abbrev value : ℕ → Text → ℕ
value n [] = n
value n (c ∷ cs) = value (n * 10 + (c - 48)) cs

value-decimal_onto :
    (fuel n : ℕ) (rest : Text) → n < fuel → value 0 (decimal_onto fuel n rest) ≡ value n rest
unfolding decimal_onto
value-decimal_onto zero n rest h = absurd (omega (arith, h))
value-decimal_onto (suc fuel) n rest h = elim (Bool-cases (ltb n 10)) [
  | inl e ↦ rw e (ap (λ m. value m rest) (ground (arith, e)))
  | inr e ↦ rw e (
      value-decimal_onto fuel (n / 10) ((48 + n % 10) ∷ rest) (ground (arith, h, e))
      ∙ ap (λ m. value m rest) (omega arith))
]

value-decimal : (n : ℕ) → value 0 (decimal n) ≡ n
unfolding decimal
value-decimal n = value-decimal_onto (suc n) n [] (omega arith)

abbrev is_digit : ℕ → Bool
is_digit c = leb 48 c && leb c 57

abbrev starts_with_digit : Text → Bool
starts_with_digit [] = false
starts_with_digit (c ∷ cs) = is_digit c

decimal_onto-digit :
    (fuel n : ℕ) (rest : Text)
    → starts_with_digit rest ≡ true
    → every is_number_unit rest ≡ true
    → (starts_with_digit (decimal_onto fuel n rest) ≡ true)
      × (every is_number_unit (decimal_onto fuel n rest) ≡ true)
unfolding decimal_onto every
decimal_onto-digit zero n rest h k = (h, k)
decimal_onto-digit (suc fuel) n rest h k = elim (Bool-cases (ltb n 10)) [
  | inl e ↦ rw e (ground (arith, e), ground (arith, e, k))
  | inr e ↦
      rw e
        (decimal_onto-digit fuel (n / 10) ((48 + n % 10) ∷ rest) (ground arith) (ground (arith, k)))
]

decimal-digit :
    (n : ℕ) → (starts_with_digit (decimal n) ≡ true) × (every is_number_unit (decimal n) ≡ true)
unfolding decimal decimal_onto every
decimal-digit n = elim (Bool-cases (ltb n 10)) [
  | inl e ↦ rw e (ground (arith, e), ground (arith, e))
  | inr e ↦ rw e (decimal_onto-digit n (n / 10) ((48 + n % 10) ∷ []) (ground arith) (ground arith))
]

abbrev pub point_text : ℕ → Text
point_text k = b'.' ∷ decimal k

abbrev pub number_of : Text → Option Number
number_of [] = none
number_of (c ∷ cs) =
    if c == b'.'
    then some (fraction (value 0 cs))
    else if c == b'-'
    then some (integer (negsuc (value 0 cs - 1)))
    else some (integer (pos (value 0 (c ∷ cs))))

number_of-digits :
    (t : Text) → starts_with_digit t ≡ true → number_of t ≡ some (integer (pos (value 0 t)))
number_of-digits [] h = absurd (ground (arith, h))
number_of-digits (c ∷ cs) h = ground (arith, h)

abbrev first_of : Text → ℕ
first_of [] = 0
first_of (c ∷ cs) = c

abbrev others_of : Text → Text
others_of [] = []
others_of (c ∷ cs) = cs

started : (t : Text) → starts_with_digit t ≡ true → t ≡ first_of t ∷ others_of t
started [] h = absurd (ground (arith, h))
started (c ∷ cs) h = refl

reads : (n : Number) → is_finite n ≡ true → number_of (number_text point_text n) ≡ some n
unfolding number_text
reads (integer (pos n)) h =
    number_of-digits (decimal n) (decimal-digit n).0
    ∙ ap (λ m. some (integer (pos m))) (value-decimal n)
reads (integer (negsuc n)) h =
    ap (λ m. some (integer (negsuc (m - 1)))) (value-decimal (suc n))
    ∙ ap (λ m. some (integer (negsuc m))) (omega arith)
reads (fraction k) h = ap (λ m. some (fraction m)) (value-decimal k)
reads infinity h = absurd (ground (arith, h))
reads nan h = absurd (ground (arith, h))

are_units :
    (n : Number) → is_finite n ≡ true → every is_number_unit (number_text point_text n) ≡ true
unfolding number_text every
are_units (integer (pos n)) h = (decimal-digit n).1
are_units (integer (negsuc n)) h = (decimal-digit (suc n)).1
are_units (fraction k) h = (decimal-digit k).1
are_units infinity h = absurd (ground (arith, h))
are_units nan h = absurd (ground (arith, h))

is_started :
    (n : Number)
    → is_finite n ≡ true
    → number_text point_text n
      ≡ first_of (number_text point_text n) ∷ others_of (number_text point_text n)
unfolding number_text
is_started (integer (pos n)) h = started (decimal n) (decimal-digit n).0
is_started (integer (negsuc n)) h = refl
is_started (fraction k) h = refl
is_started infinity h = absurd (ground (arith, h))
is_started nan h = absurd (ground (arith, h))

pub point_text-IsNumberText : IsNumberText point_text number_of
point_text-IsNumberText = record {
  reads = reads;
  are_units = are_units;
  first_unit = λ n. first_of (number_text point_text n);
  other_units = λ n. others_of (number_text point_text n);
  is_started = is_started;
}
