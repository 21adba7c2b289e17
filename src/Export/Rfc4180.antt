-- ===== src/Export/Rfc4180.antt =====
-- A reader of CSV after RFC 4180.
use kootha.Prelude.{
  ℕ, ◌≡◌, refl, Bool, Option, none, some, List, [], ◌∷◌, ◌++◌, if◌then◌else◌, ◌==◌, codes,
}
use kootha.Prelude.Json.{Text}

abbrev pub Rows : Type 0
Rows = Option (List (List Text))

-- Where the reader stands: before a row, before a cell, in a cell, in a quoted cell, after a quote in
-- one, and after a carriage return.
pub data Mode : Type 0 where
  at_row at_cell plain quoted after_quote after_return : Mode

abbrev pub push : ℕ → Rows → Rows
push c (some ((cell ∷ cells) ∷ rows)) = some (((c ∷ cell) ∷ cells) ∷ rows)
push c _ = none

abbrev pub new_cell : Rows → Rows
new_cell (some (cells ∷ rows)) = some (([] ∷ cells) ∷ rows)
new_cell _ = none

abbrev pub new_row : Rows → Rows
new_row (some rows) = some (([] ∷ []) ∷ rows)
new_row none = none

-- What a unit outside of quotes is.
abbrev pub is_quote : ℕ → Bool
is_quote c = c == b'"'

abbrev pub next_mode : Mode → ℕ → Mode
next_mode quoted c = if is_quote c then after_quote else quoted
next_mode after_return c = at_row
next_mode after_quote c =
    if is_quote c
    then quoted
    else if c == b','
    then at_cell
    else if c == 13
    then after_return
    else plain
next_mode plain c = if c == b',' then at_cell else if c == 13 then after_return else plain
next_mode at_row c =
    if is_quote c
    then quoted
    else if c == b','
    then at_cell
    else if c == 13
    then after_return
    else plain
next_mode at_cell c =
    if is_quote c
    then quoted
    else if c == b','
    then at_cell
    else if c == 13
    then after_return
    else plain

abbrev pub outside : ℕ → Rows → Rows
outside c rest =
    if c == b','
    then new_cell rest
    else if c == 13
    then rest
    else if c == 10
    then none
    else push c rest

abbrev pub take_unit : Mode → ℕ → Rows → Rows
take_unit quoted c rest = if is_quote c then rest else push c rest
take_unit after_return c rest = if c == 10 then new_row rest else none
take_unit after_quote c rest =
    if is_quote c
    then push c rest
    else if c == b','
    then new_cell rest
    else if c == 13
    then rest
    else none
take_unit plain c rest = if is_quote c then none else outside c rest
take_unit at_row c rest = if is_quote c then rest else outside c rest
take_unit at_cell c rest = if is_quote c then rest else outside c rest

abbrev pub at_end : Mode → Rows
at_end at_row = some []
at_end quoted = none
at_end after_return = none
at_end _ = some (([] ∷ []) ∷ [])

unfoldable pub read_csv : Mode → Text → Rows
read_csv mode [] = at_end mode
read_csv mode (c ∷ cs) = take_unit mode c (read_csv (next_mode mode c) cs)

-- The file starts with a byte order mark.
unfoldable pub read_file : Text → Rows
unfolding read_csv
read_file [] = none
read_file (c ∷ cs) = if c == 65279 then read_csv at_row cs else none

pub sample :
    read_file (65279 ∷ (codes "a,\"b\"\"\",\r\n" ++ codes "\",\",,-\r\n"))
    ≡ some ((codes "a" ∷ codes "b\"" ∷ [] ∷ []) ∷ (codes "," ∷ [] ∷ codes "-" ∷ []) ∷ [])
unfolding read_file
sample = refl
