-- ===== src/Identity/Strings.antt =====
-- A reader of the strings of JSON, and that it reads what JSON.stringify writes.
use kootha.Prelude.{
  ℕ, zero, suc, ◌+◌, ◌*◌, ◌-◌, ◌/◌, ◌%◌, ◌<◌, ◌≡◌, refl, ap, ◌∙◌, inl, inr, Bool, true, false, not,
  ◌&&◌, ◌||◌, Option, none, some, [], ◌∷◌, ◌++◌, append_assoc, arith, if◌then◌else◌, ltb, leb, ◌==◌,
  ==_iff, Bool-cases,
}
use kootha.Prelude.Json.{Text}
use kootha.Prelude.Print.{
  hex_digit, escape_hex, escape_control, escape_unit, escape_units, is_lead, is_trail,
  starts_with_trail, quote,
}

abbrev pub Read : Type 0 → Type 0
Read A = Option (A × Text)

-- In a string, after a backslash, or in the digits of a code: how many follow this one, and the value so
-- far.
pub data Mode : Type 0 where
  normal escaped : Mode
  hex : ℕ → ℕ → Mode

abbrev pub push : ℕ → Read Text → Read Text
push c none = none
push c (some (text, rest)) = some (c ∷ text, rest)

abbrev pub hex_value : ℕ → Option ℕ
hex_value c =
    if leb 48 c && leb c 57
    then some (c - 48)
    else if leb 97 c && leb c 102
    then some (c - 87)
    else none

-- The unit that an escape of one letter stands for.
abbrev pub unescaped : ℕ → Option ℕ
unescaped c =
    if c == b'"'
    then some b'"'
    else if c == b'\\'
    then some b'\\'
    else if c == b'b'
    then some 8
    else if c == b't'
    then some 9
    else if c == b'n'
    then some 10
    else if c == b'f'
    then some 12
    else if c == b'r'
    then some 13
    else none

abbrev pub after_hex : ℕ → ℕ → Option ℕ → Mode
after_hex zero value d = normal
after_hex (suc n) value none = normal
after_hex (suc n) value (some d) = hex n (value * 16 + d)

abbrev pub next_mode : Mode → ℕ → Mode
next_mode normal c = if c == b'\\' then escaped else normal
next_mode escaped c = if c == b'u' then hex 3 0 else normal
next_mode (hex n value) c = after_hex n value (hex_value c)

abbrev pub push_escape : Option ℕ → Read Text → Read Text
push_escape none read = none
push_escape (some c) read = push c read

abbrev pub take_hex : ℕ → ℕ → Option ℕ → Read Text → Read Text
take_hex n value none read = none
take_hex zero value (some d) read = push (value * 16 + d) read
take_hex (suc n) value (some d) read = read

abbrev pub take_unit : Mode → ℕ → Text → Read Text → Read Text
take_unit normal c rest read =
    if c == b'"' then some ([], rest) else if c == b'\\' then read else push c read
take_unit escaped c rest read = if c == b'u' then read else push_escape (unescaped c) read
take_unit (hex n value) c rest read = take_hex n value (hex_value c) read

-- What follows the opening quote.
unfoldable pub read_string : Mode → Text → Read Text
read_string mode [] = none
read_string mode (c ∷ rest) = take_unit mode c rest (read_string (next_mode mode c) rest)

hex_value-hex_digit : (d : ℕ) → d < 16 → hex_value (hex_digit d) ≡ some d
unfolding hex_digit
hex_value-hex_digit d h = ground arith

read_string-hex :
    (n value d : ℕ) (rest : Text)
    → d < 16
    → read_string (hex (suc n) value) (hex_digit d ∷ rest)
      ≡ read_string (hex n (value * 16 + d)) rest
unfolding read_string
read_string-hex n value d rest h = rw (hex_value-hex_digit d h) refl

read_string-last_hex :
    (value d : ℕ) (rest : Text)
    → d < 16
    → read_string (hex zero value) (hex_digit d ∷ rest)
      ≡ push (value * 16 + d) (read_string normal rest)
unfolding read_string
read_string-last_hex value d rest h = rw (hex_value-hex_digit d h) refl

read_string-escape_hex :
    (c : ℕ) (rest : Text)
    → c < 65536
    → read_string normal (escape_hex c ++ rest) ≡ push c (read_string normal rest)
unfolding read_string escape_hex
read_string-escape_hex c rest h =
    read_string-hex 2 0 (c / 4096)
      (hex_digit (c / 256 % 16) ∷ hex_digit (c / 16 % 16) ∷ hex_digit (c % 16) ∷ rest) (omega arith)
    ∙ (read_string-hex 1 (0 * 16 + c / 4096) (c / 256 % 16)
          (hex_digit (c / 16 % 16) ∷ hex_digit (c % 16) ∷ rest) (omega arith)
        ∙ (read_string-hex 0 ((0 * 16 + c / 4096) * 16 + c / 256 % 16) (c / 16 % 16)
              (hex_digit (c % 16) ∷ rest) (omega arith)
            ∙ (read_string-last_hex (((0 * 16 + c / 4096) * 16 + c / 256 % 16) * 16 + c / 16 % 16)
                  (c % 16) rest (omega arith)
                ∙ ap (λ v. push v (read_string normal rest)) (digits c h))))
  where
    digits :
        (n : ℕ)
        → n < 65536
        → (((0 * 16 + n / 4096) * 16 + n / 256 % 16) * 16 + n / 16 % 16) * 16 + n % 16 ≡ n
    digits n k = omega arith

abbrev IsPlain : ℕ → Type 0
IsPlain c = ((c == b'"') ≡ false) × ((c == b'\\') ≡ false)

read_string-plain :
    (c : ℕ) (rest : Text)
    → IsPlain c
    → read_string normal (c ∷ rest) ≡ push c (read_string normal rest)
unfolding read_string
read_string-plain c rest p = rw (p.0, p.1) refl

read_string-coded :
    (c : ℕ) (rest : Text) (test : Bool)
    → IsPlain c
    → (test ≡ true → c < 65536)
    → read_string normal ((if test then escape_hex c else c ∷ []) ++ rest)
      ≡ push c (read_string normal rest)
read_string-coded c rest true p h = read_string-escape_hex c rest (h refl)
read_string-coded c rest false p h = read_string-plain c rest p

read_string-escape_control :
    (c : ℕ) (rest : Text)
    → IsPlain c
    → read_string normal (escape_control c ++ rest) ≡ push c (read_string normal rest)
unfolding read_string escape_control
read_string-escape_control c rest p = elim (Bool-cases (c == 9)) [
  | inl e ↦ rw ((==_iff c 9).0 e) refl
  | inr t ↦ elim (Bool-cases (c == 10)) [
    | inl e ↦ rw ((==_iff c 10).0 e) refl
    | inr n ↦ elim (Bool-cases (c == 12)) [
      | inl e ↦ rw ((==_iff c 12).0 e) refl
      | inr f ↦ elim (Bool-cases (c == 13)) [
        | inl e ↦ rw ((==_iff c 13).0 e) refl
        | inr e ↦
            rw (t, n, f, e)
              (read_string-coded c rest (ltb c 32 || (is_lead c || is_trail c)) p
                (λ h. ground (arith, h)))
      ]
    ]
  ]
]

-- A unit that is written in one of the ways of `escape_unit`.
read_string-escape_unit :
    (c : ℕ) (rest : Text)
    → read_string normal (escape_unit c ++ rest) ≡ push c (read_string normal rest)
unfolding read_string escape_unit
read_string-escape_unit c rest = elim (Bool-cases (c == b'"')) [
  | inl e ↦ rw ((==_iff c b'"').0 e) refl
  | inr q ↦ elim (Bool-cases (c == b'\\')) [
    | inl e ↦ rw ((==_iff c b'\\').0 e) refl
    | inr b ↦ elim (Bool-cases (c == 8)) [
      | inl e ↦ rw ((==_iff c 8).0 e) refl
      | inr e ↦ rw (q, b, e) (read_string-escape_control c rest (q, b))
    ]
  ]
]

read_string-unit :
    (c : ℕ) (rest : Text) (raw : Bool)
    → (raw ≡ true → IsPlain c)
    → read_string normal ((if raw then c ∷ [] else escape_unit c) ++ rest)
      ≡ push c (read_string normal rest)
read_string-unit c rest true h = read_string-plain c rest (h refl)
read_string-unit c rest false h = read_string-escape_unit c rest

surrogate-IsPlain : (c : ℕ) → (is_lead c || is_trail c) ≡ true → IsPlain c
surrogate-IsPlain c h = (ground (arith, h), ground (arith, h))

-- What is left to read of a text, after whose first part a pair of units may be open.
read_string-escape_units :
    (paired : Bool) (text rest : Text)
    → (paired ≡ true → starts_with_trail text ≡ true)
    → read_string normal (escape_units paired text ++ b'"' ∷ rest) ≡ some (text, rest)
unfolding read_string escape_units
read_string-escape_units paired [] rest h = refl
read_string-escape_units paired (c ∷ cs) rest h =
    let pairs = not paired && (is_lead c && starts_with_trail cs) in
    rw
      (append_assoc (if paired || pairs then c ∷ [] else escape_unit c) (escape_units pairs cs)
        (b'"' ∷ rest))
      (read_string-unit c (escape_units pairs cs ++ b'"' ∷ rest) (paired || pairs)
          (λ raw. surrogate-IsPlain c (ground (arith, h, raw)))
        ∙ ap (push c) (read_string-escape_units pairs cs rest (λ e. ground (arith, e))))

-- A quoted text reads back, whatever follows it.
pub read_string-quote :
    (text rest : Text)
    → (quote text ++ rest ≡ b'"' ∷ (escape_units false text ++ b'"' ∷ rest))
      × (read_string normal (escape_units false text ++ b'"' ∷ rest) ≡ some (text, rest))
unfolding quote
read_string-quote text rest = (
  ap (◌∷◌ b'"') (append_assoc (escape_units false text) (b'"' ∷ []) rest),
  read_string-escape_units false text rest (λ e. ground (arith, e)),
)
