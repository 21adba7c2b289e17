-- ===== src/Export/Reader.antt =====
-- A reader of CSV after RFC 4180, and that it reads back what operationsExport.ts writes.
use kootha.Prelude.{
  ℕ, ◌≡◌, refl, sym, subst, ap, ◌∙◌, inl, inr, Bool, true, false, ◌||◌, Option, some, String, List,
  [], ◌∷◌, ◌++◌, map, append_assoc, append-nil, arith, ◌==◌, any, All, Bool-cases,
}
use mathlib.Core.Option.{some_inj}
use kootha.Prelude.Json.{Text, Value, Fields, get_field}
use kootha.Prelude.Print.{join}
use kootha.Export.Csv.{
  is_formula, is_special, double_quotes, enclose, neutral_cell, escape_csv_cell, comma, line_break,
  text_value, csv_header, csv_row, serialize_operations_csv, neutralize_spreadsheet_formula,
  stringify_export_cell,
}
use kootha.Export.Rfc4180.{
  at_row, at_cell, plain, quoted, after_quote, after_return, Rows, Mode, push, new_cell, new_row,
  read_csv, read_file,
}

abbrev pub push_all : Text → Rows → Rows
push_all [] rows = rows
push_all (c ∷ cs) rows = push c (push_all cs rows)

push_all-cell :
    (text : Text) (cells : List Text) (rows : List (List Text))
    → push_all text (some (([] ∷ cells) ∷ rows)) ≡ some ((text ∷ cells) ∷ rows)
push_all-cell [] cells rows = refl
push_all-cell (c ∷ cs) cells rows = ap (push c) (push_all-cell cs cells rows)

-- A text without special units, outside of quotes and after some unit of its cell.
read_csv-plain :
    (text rest : Text)
    → any is_special text ≡ false
    → read_csv plain (text ++ rest) ≡ push_all text (read_csv plain rest)
unfolding read_csv any
read_csv-plain [] rest h = refl
read_csv-plain (c ∷ cs) rest h = ground (arith, h, read_csv-plain cs rest)

read_csv-quoted :
    (text rest : Text)
    → read_csv quoted (double_quotes text ++ b'"' ∷ rest)
      ≡ push_all text (read_csv after_quote rest)
unfolding read_csv double_quotes
read_csv-quoted [] rest = refl
read_csv-quoted (c ∷ cs) rest = elim (Bool-cases (c == b'"')) [
  | inl e ↦ ground (arith, e, read_csv-quoted cs rest)
  | inr e ↦ rw (e, e) (ap (push c) (read_csv-quoted cs rest))
]

abbrev is_delimiter : ℕ → Bool
is_delimiter d = d == b',' || d == 13

abbrev is_start : Mode → Bool
is_start at_row = true
is_start at_cell = true
is_start _ = false

read_csv-start :
    (mode : Mode) (text : Text) (d : ℕ) (rest : Text)
    → is_start mode ≡ true
    → is_delimiter d ≡ true
    → any is_special text ≡ false
    → read_csv mode (text ++ d ∷ rest) ≡ push_all text (read_csv plain (d ∷ rest))
unfolding read_csv any
read_csv-start at_row [] d rest s k h = ground (arith, k)
read_csv-start at_row (c ∷ cs) d rest s k h = ground (arith, h, read_csv-plain cs (d ∷ rest))
read_csv-start at_cell [] d rest s k h = ground (arith, k)
read_csv-start at_cell (c ∷ cs) d rest s k h = ground (arith, h, read_csv-plain cs (d ∷ rest))
read_csv-start plain text d rest s k h = absurd (ground (arith, s))
read_csv-start quoted text d rest s k h = absurd (ground (arith, s))
read_csv-start after_quote text d rest s k h = absurd (ground (arith, s))
read_csv-start after_return text d rest s k h = absurd (ground (arith, s))

-- A cell that the source has written.
read_csv-enclose :
    (mode : Mode) (text : Text) (d : ℕ) (rest : Text)
    → is_start mode ≡ true
    → is_delimiter d ≡ true
    → read_csv mode (enclose text ++ d ∷ rest) ≡ push_all text (read_csv plain (d ∷ rest))
unfolding read_csv enclose
read_csv-enclose mode text d rest s k = elim (Bool-cases (any is_special text)) [
  | inl e ↦
      rw (e, append_assoc (double_quotes text) (b'"' ∷ []) (d ∷ rest))
        (opened mode s ∙ read_csv-quoted text (d ∷ rest) ∙ ap (push_all text) closed)
  | inr e ↦ rw e (read_csv-start mode text d rest s k e)
]
  where
    opened :
        (start : Mode)
        → is_start start ≡ true
        → read_csv start (b'"' ∷ (double_quotes text ++ b'"' ∷ d ∷ rest))
          ≡ read_csv quoted (double_quotes text ++ b'"' ∷ d ∷ rest)
    opened at_row i = refl
    opened at_cell i = refl
    opened plain i = absurd (ground (arith, i))
    opened quoted i = absurd (ground (arith, i))
    opened after_quote i = absurd (ground (arith, i))
    opened after_return i = absurd (ground (arith, i))

    closed : read_csv after_quote (d ∷ rest) ≡ read_csv plain (d ∷ rest)
    closed = ground (arith, k)

-- A row and its line break.
read_csv-row :
    (mode : Mode) (text : Text) (cells : List Text) (rest : Text) (rows : List (List Text))
    → is_start mode ≡ true
    → read_csv at_row rest ≡ some rows
    → read_csv mode (join comma (map enclose (text ∷ cells)) ++ (line_break ++ rest))
      ≡ some ((text ∷ cells) ∷ rows)
unfolding read_csv join
read_csv-row mode text [] rest rows s h =
    read_csv-enclose mode text 13 (10 ∷ rest) s refl
    ∙ (ap (λ r. push_all text (new_row r)) h ∙ push_all-cell text [] rows)
read_csv-row mode text (next ∷ cells) rest rows s h =
    rw
      (append_assoc (enclose text) (b',' ∷ join comma (map enclose (next ∷ cells)))
        (line_break ++ rest))
      (read_csv-enclose mode text b',' _ s refl
        ∙ (ap (λ r. push_all text (new_cell r)) (read_csv-row at_cell next cells rest rows refl h)
            ∙ push_all-cell text (next ∷ cells) rows))

-- The cells of a row as they stand in the file: texts that are neutralised.
unfoldable pub row_cells : (ℕ → Text) → List String → Fields → List Text
unfolding neutral_cell get_field
row_cells fraction_text columns row =
    map (λ column. neutral_cell fraction_text (get_field column row)) columns

unfoldable pub header_cells : (ℕ → Text) → List String → List Text
unfolding neutral_cell
header_cells fraction_text columns =
    map (λ column. neutral_cell fraction_text (text_value column)) columns

abbrev pub IsInert : Text → Type 0
IsInert cell = is_formula cell ≡ false

neutral_cell-IsInert :
    (fraction_text : ℕ → Text) (value : Option Value) → IsInert (neutral_cell fraction_text value)
unfolding neutral_cell neutralize_spreadsheet_formula
neutral_cell-IsInert fraction_text value =
    elim (Bool-cases (is_formula (stringify_export_cell fraction_text value))) [
      | inl e ↦ rw e refl
      | inr e ↦ rw e e
    ]

map-map :
    {A B C : Type 0}
    → (f : B → C) (g : A → B) (xs : List A) → map (λ x. f (g x)) xs ≡ map f (map g xs)
map-map f g [] = refl
map-map f g (x ∷ xs) = ap (◌∷◌ (f (g x))) (map-map f g xs)

module _ (fraction_text : ℕ → Text) (first : String) (others : List String) where
  -- The rows after the header.
  read_csv-rows :
      (rows : List Fields) (line : Text) (header : Text) (cells : List Text)
      → line ≡ join comma (map enclose (header ∷ cells))
      → read_csv at_row
          (join line_break (line ∷ map (csv_row fraction_text (first ∷ others)) rows) ++ line_break)
        ≡ some ((header ∷ cells) ∷ map (row_cells fraction_text (first ∷ others)) rows)
  unfolding read_csv join csv_row row_cells escape_csv_cell
  read_csv-rows [] line header cells h =
      rw (h, sym (append-nil line_break)) (read_csv-row at_row header cells [] [] refl refl)
  read_csv-rows (row ∷ rows) line header cells h =
      rw (append_assoc line (line_break ++ _) line_break, append_assoc line_break _ line_break)
        (ap
            (λ t. read_csv at_row (
              t
              ++ (line_break
                  ++ (join line_break (map (csv_row fraction_text (first ∷ others)) (row ∷ rows))
                      ++ line_break))))
            h
          ∙ read_csv-row at_row header cells _ _ refl (read_csv-rows rows _ _ _ (map_cells row)))
    where
      map_cells :
          (r : Fields)
          → csv_row fraction_text (first ∷ others) r
            ≡ join comma (map enclose (row_cells fraction_text (first ∷ others) r))
      map_cells r = ap (join comma) (
          map-map enclose (λ column. neutral_cell fraction_text (get_field column r))
            (first ∷ others))

  -- A CSV file reads back: its rows are the header and the rows, each cell the text of its value after
  -- the neutralization of formulas. There must be a column.
  pub read_file-serialize_operations_csv :
      (rows : List Fields)
      → read_file (serialize_operations_csv fraction_text (first ∷ others) rows)
        ≡ some (
            header_cells fraction_text (first ∷ others)
            ∷ map (row_cells fraction_text (first ∷ others)) rows)
  unfolding read_file serialize_operations_csv csv_header header_cells escape_csv_cell
  read_file-serialize_operations_csv rows = read_csv-rows rows _ _ _ (
      ap (join comma) (
        map-map enclose (λ column. neutral_cell fraction_text (text_value column))
          (first ∷ others)))

  -- No cell that a reader of the file gets starts with a formula's first unit. There must be a column.
  pub serialize_operations_csv-IsInert :
      (rows : List Fields) (found : List (List Text))
      → read_file (serialize_operations_csv fraction_text (first ∷ others) rows) ≡ some found
      → All (All IsInert) found
  unfolding header_cells row_cells
  serialize_operations_csv-IsInert rows found h =
      subst (All (All IsInert)) (some_inj.0 (sym (read_file-serialize_operations_csv rows) ∙ h))
        (All-neutral text_value (first ∷ others), All-rows rows)
    where
      All-neutral :
          (value : String → Option Value) (columns : List String)
          → All IsInert (map (λ column. neutral_cell fraction_text (value column)) columns)
      All-neutral value [] = tt
      All-neutral value (c ∷ cs) =
          (neutral_cell-IsInert fraction_text (value c), All-neutral value cs)

      All-rows :
          (rs : List Fields) → All (All IsInert) (map (row_cells fraction_text (first ∷ others)) rs)
      All-rows [] = tt
      All-rows (r ∷ rs) = (All-neutral (λ column. get_field column r) (first ∷ others), All-rows rs)
