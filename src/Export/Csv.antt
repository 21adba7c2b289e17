-- ===== src/Export/Csv.antt =====
-- operationsExport.ts: the limit of an export, and the CSV file that it writes. `fraction_text` prints a
-- number that is no integer, `to_number` is the language's `Number(value)`.
use kootha.Prelude.{
  ℕ, Bool, false, ◌||◌, Option, none, some, String, List, [], ◌∷◌, ◌++◌, map, min, max,
  if◌then◌else◌, ◌==◌, codes, any,
}
use kootha.Prelude.Number.{ℤ, pos, negsuc, Number, integer}
use kootha.Prelude.Json.{Text, Value, Fields, obj, arr, str, num, bool, null, get_field}
use kootha.Prelude.Print.{number_text, bool_text, stringify, join}

abbrev pub as_number : (Option Value → Number) → Option Value → Number
as_number to_number (some (num n)) = n
as_number to_number value = to_number value

-- `Math.min(500, Math.max(1, n))`.
abbrev pub within_limits : ℤ → ℤ
within_limits (pos n) = pos (min 500 (max 1 n))
within_limits (negsuc n) = pos 1

unfoldable pub normalize_operations_export_limit :
    (Option Value → Number) → Option Value → Number → Number
normalize_operations_export_limit to_number value fallback = elim (as_number to_number value) [
  | integer n ↦ integer (within_limits n)
  | _ ↦ fallback
]

unfoldable pub stringify_export_cell : (ℕ → Text) → Option Value → Text
unfolding number_text stringify
stringify_export_cell fraction_text none = []
stringify_export_cell fraction_text (some null) = []
stringify_export_cell fraction_text (some (str text)) = text
stringify_export_cell fraction_text (some (num n)) = number_text fraction_text n
stringify_export_cell fraction_text (some (bool b)) = bool_text b
stringify_export_cell fraction_text (some (obj fields)) = stringify fraction_text (obj fields)
stringify_export_cell fraction_text (some (arr items)) = stringify fraction_text (arr items)

-- `/^[=+\-@\t\r]/u.test(text)`.
abbrev pub is_formula_start : ℕ → Bool
is_formula_start c = c == b'=' || (c == b'+' || (c == b'-' || (c == b'@' || (c == 9 || c == 13))))

abbrev pub is_formula : Text → Bool
is_formula [] = false
is_formula (c ∷ cs) = is_formula_start c

unfoldable pub neutralize_spreadsheet_formula : Text → Text
neutralize_spreadsheet_formula text = if is_formula text then b'\'' ∷ text else text

-- `/[",\r\n]/u.test(text)` and `text.replaceAll('"', '""')`.
abbrev pub is_special : ℕ → Bool
is_special c = c == b'"' || (c == b',' || (c == 13 || c == 10))

unfoldable pub double_quotes : Text → Text
double_quotes [] = []
double_quotes (c ∷ cs) =
    let rest = double_quotes cs in if c == b'"' then b'"' ∷ b'"' ∷ rest else c ∷ rest

-- The cell of a text that is neutralised already.
unfoldable pub enclose : Text → Text
unfolding double_quotes any
enclose text = if any is_special text then b'"' ∷ (double_quotes text ++ b'"' ∷ []) else text

unfoldable pub neutral_cell : (ℕ → Text) → Option Value → Text
unfolding stringify_export_cell neutralize_spreadsheet_formula
neutral_cell fraction_text value =
    neutralize_spreadsheet_formula (stringify_export_cell fraction_text value)

unfoldable pub escape_csv_cell : (ℕ → Text) → Option Value → Text
unfolding enclose neutral_cell
escape_csv_cell fraction_text value = enclose (neutral_cell fraction_text value)

abbrev pub comma : Text
comma = b',' ∷ []

abbrev pub line_break : Text
line_break = 13 ∷ 10 ∷ []

abbrev pub text_value : String → Option Value
text_value text = some (str (codes text))

unfoldable pub csv_header : (ℕ → Text) → List String → Text
unfolding escape_csv_cell join
csv_header fraction_text columns =
    join comma (map (λ column. escape_csv_cell fraction_text (text_value column)) columns)

unfoldable pub csv_row : (ℕ → Text) → List String → Fields → Text
unfolding escape_csv_cell join get_field
csv_row fraction_text columns row =
    join comma (map (λ column. escape_csv_cell fraction_text (get_field column row)) columns)

unfoldable pub serialize_operations_csv : (ℕ → Text) → List String → List Fields → Text
unfolding csv_header csv_row join
serialize_operations_csv fraction_text columns rows =
    65279
    ∷ (join line_break (csv_header fraction_text columns ∷ map (csv_row fraction_text columns) rows)
        ++ line_break)
