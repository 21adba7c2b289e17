-- ===== src/Prelude/Print.antt =====
-- How values are printed: `String(n)`, `JSON.stringify(value)` and `Array.prototype.join`. The digits of a
-- number that is no integer are a parameter; an integer is printed in decimal, which is what the
-- language does below 10 ^ 21.
use kootha.Prelude.Tests.{if◌then◌else◌, ltb, leb, ◌==◌}
use kootha.Prelude.Lists.{codes}
use kootha.Prelude.Number.{pos, negsuc, Number, integer, fraction, infinity, nan, is_finite}
use kootha.Prelude.Json.{
  Text, Value, obj, arr, str, num, bool, null, Fields, end, field, Items, no_items, item,
}
use Prim.Native.Nat.{ℕ, zero, suc, ◌+◌, ◌/◌, ◌%◌, ◌-◌}
use Prim.Native.Char.{code}
use Prim.Native.String.{String}
use mathlib.Core.Bool.{Bool, true, false, not, ◌&&◌, ◌||◌}
use mathlib.Core.Path.{◌≡◌, refl}
use mathlib.Core.List.{List, [], ◌∷◌, ◌++◌}

-- The UTF-16 code units of a code point and of a string.
unfoldable pub units_of : ℕ → Text
units_of c =
    if ltb c 65536 then c ∷ [] else (55296 + (c - 65536) / 1024) ∷ (56320 + (c - 65536) % 1024) ∷ []

unfoldable pub units : String → Text
unfolding units_of
units String.[] = []
units (String.◌∷◌ c s) = units_of (code c) ++ units s

-- The decimal digits of a number below 10 ^ fuel, before a text.
unfoldable pub decimal_onto : ℕ → ℕ → Text → Text
decimal_onto zero n rest = rest
decimal_onto (suc fuel) n rest =
    let longer = decimal_onto fuel (n / 10) ((48 + n % 10) ∷ rest) in
    if ltb n 10 then (48 + n) ∷ rest else longer

unfoldable pub decimal : ℕ → Text
unfolding decimal_onto
decimal n = decimal_onto (suc n) n []

unfoldable pub number_text : (ℕ → Text) → Number → Text
unfolding decimal
number_text fraction_text (integer (pos n)) = decimal n
number_text fraction_text (integer (negsuc n)) = b'-' ∷ decimal (suc n)
number_text fraction_text (fraction k) = fraction_text k
number_text fraction_text infinity = codes "Infinity"
number_text fraction_text nan = codes "NaN"

unfoldable pub join : Text → List Text → Text
join separator [] = []
join separator (t ∷ []) = t
join separator (t ∷ u ∷ ts) = t ++ (separator ++ join separator (u ∷ ts))

abbrev pub bool_text : Bool → Text
bool_text true = codes "true"
bool_text false = codes "false"

unfoldable pub hex_digit : ℕ → ℕ
hex_digit d = if ltb d 10 then 48 + d else 87 + d

-- What `JSON.stringify` writes for one code unit that stands alone.
abbrev pub is_lead : ℕ → Bool
is_lead c = leb 55296 c && leb c 56319

abbrev pub is_trail : ℕ → Bool
is_trail c = leb 56320 c && leb c 57343

abbrev pub starts_with_trail : Text → Bool
starts_with_trail [] = false
starts_with_trail (c ∷ cs) = is_trail c

unfoldable pub escape_hex : ℕ → Text
unfolding hex_digit
escape_hex c =
    b'\\'
    ∷ b'u'
    ∷ hex_digit (c / 4096)
    ∷ hex_digit (c / 256 % 16)
    ∷ hex_digit (c / 16 % 16)
    ∷ hex_digit (c % 16)
    ∷ []

unfoldable pub escape_control : ℕ → Text
unfolding escape_hex
escape_control c =
    if c == 9
    then b'\\' ∷ b't' ∷ []
    else if c == 10
    then b'\\' ∷ b'n' ∷ []
    else if c == 12
    then b'\\' ∷ b'f' ∷ []
    else if c == 13
    then b'\\' ∷ b'r' ∷ []
    else if ltb c 32 || (is_lead c || is_trail c)
    then escape_hex c
    else c ∷ []

unfoldable pub escape_unit : ℕ → Text
unfolding escape_control
escape_unit c =
    if c == b'"'
    then b'\\' ∷ b'"' ∷ []
    else if c == b'\\'
    then b'\\' ∷ b'\\' ∷ []
    else if c == 8
    then b'\\' ∷ b'b' ∷ []
    else escape_control c

-- `paired`: the unit before is the lead of a pair, which ends with this unit.
unfoldable pub escape_units : Bool → Text → Text
unfolding escape_unit
escape_units paired [] = []
escape_units paired (c ∷ cs) =
    let pairs = not paired && (is_lead c && starts_with_trail cs) in
    let rest = escape_units pairs cs in (if paired || pairs then c ∷ [] else escape_unit c) ++ rest

unfoldable pub quote : Text → Text
unfolding escape_units
quote text = b'"' ∷ (escape_units false text ++ b'"' ∷ [])

-- A number that is not finite is printed as null.
abbrev pub json_number : (ℕ → Text) → Number → Text
json_number fraction_text n = if is_finite n then number_text fraction_text n else codes "null"

-- `JSON.stringify(value)`.
unfoldable mutual
  unfolding quote units join number_text

  pub stringify : (ℕ → Text) → Value → Text
  stringify fraction_text (obj fields) =
      b'{' ∷ (join (b',' ∷ []) (stringify_fields fraction_text fields) ++ b'}' ∷ [])
  stringify fraction_text (arr items) =
      b'[' ∷ (join (b',' ∷ []) (stringify_items fraction_text items) ++ b']' ∷ [])
  stringify fraction_text (str text) = quote text
  stringify fraction_text (num n) = json_number fraction_text n
  stringify fraction_text (bool b) = bool_text b
  stringify fraction_text null = codes "null"

  pub stringify_fields : (ℕ → Text) → Fields → List Text
  stringify_fields fraction_text end = []
  stringify_fields fraction_text (field key value rest) =
      (quote (units key) ++ b':' ∷ stringify fraction_text value)
      ∷ stringify_fields fraction_text rest

  pub stringify_items : (ℕ → Text) → Items → List Text
  stringify_items fraction_text no_items = []
  stringify_items fraction_text (item value rest) =
      stringify fraction_text value ∷ stringify_items fraction_text rest

printed :
    stringify
      (λ k. codes "0.5")
      (obj (
        field "a\n"
          (arr (item (num (integer (negsuc 41))) (item (num (fraction 0)) no_items)))
          (field "b" (str (34 ∷ 55357 ∷ 56832 ∷ 55357 ∷ [])) end)))
    ≡ codes "{\"a\\n\":[-42,0.5],\"b\":\"\\\"" ++ (55357 ∷ 56832 ∷ codes "\\ud83d\"}")
unfolding stringify
printed = refl
