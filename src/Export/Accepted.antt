-- ===== src/Export/Accepted.antt =====
-- What an envelope has that operationsExport.ts accepts.
use mathlib.Core.List.{Perm}
use kootha.Prelude.{
  ℕ, ◌≤◌, ◌≡◌, refl, ap, ap₂, ◌∙◌, inl, inr, Bool, true, ◌&&◌, Option, none, some, String, List, [],
  ◌∷◌, map, arith, codes, every, All, Bool-cases, IsDistinct,
}
use kootha.Prelude.Number.{pos, integer}
use kootha.Prelude.Json.{
  Text, Value, obj, arr, str, num, bool, null, Fields, Items, no_items, item, get_field,
  count_items, items_list,
}
use kootha.Prelude.Distinct.{every-perm, are_distinct, are_distinct-IsDistinct}
use kootha.Prelude.Text.{is_text, text_eq, text_eq-same}
use kootha.Export.Envelope.{
  OperationsExportScope, enquiries, ad_works, drivers, vehicles, devices, audit, scope_text,
  operations_export_scope_contains_pii, operations_export_scope_columns, find_scope,
  operations_export_scopes, operations_export_scope, array, keys, are_columns, has_columns,
  check_rows, row_count, boolean, is_pii_flag, check_scope, with_scope,
  validate_operations_export_envelope, is_some, is_operations_export_format, is_receipt_id,
  is_date_text, is_object,
}

-- What a field holds that passes its test.
row_count-some :
    (value : Option Value) (n : ℕ)
    → row_count value ≡ some n
    → (value ≡ some (num (integer (pos n)))) × (n ≤ 500)
row_count-some value n h = ground arith

array-some :
    (value : Option Value) (items : Items) → array value ≡ some items → value ≡ some (arr items)
array-some value items h = ground arith

is_pii_flag-true :
    (scope : OperationsExportScope) (value : Option Value)
    → is_pii_flag scope (boolean value) ≡ true
    → value ≡ some (bool (operations_export_scope_contains_pii scope))
is_pii_flag-true scope value h = ground arith

find_scope-some :
    (text : Text) (scopes : List OperationsExportScope) (scope : OperationsExportScope)
    → find_scope text scopes ≡ some scope
    → text ≡ scope_text scope
find_scope-some text [] scope h = absurd (ground (arith, h))
find_scope-some text (s ∷ scopes) scope h = elim (Bool-cases (text_eq text (scope_text s))) [
  | inl e ↦ text_eq-same text (scope_text s) e ∙ ap scope_text (ground (arith, h, e))
  | inr e ↦ find_scope-some text scopes scope (ground (arith, h, e))
]

operations_export_scope-some :
    (value : Option Value) (scope : OperationsExportScope)
    → operations_export_scope value ≡ some scope
    → value ≡ some (str (scope_text scope))
unfolding operations_export_scope
operations_export_scope-some (some (str text)) scope h =
    ap (λ t. some (str t)) (find_scope-some text operations_export_scopes scope h)
operations_export_scope-some none scope h = absurd (ground (arith, h))
operations_export_scope-some (some (obj f)) scope h = absurd (ground (arith, h))
operations_export_scope-some (some (arr f)) scope h = absurd (ground (arith, h))
operations_export_scope-some (some (num f)) scope h = absurd (ground (arith, h))
operations_export_scope-some (some (bool f)) scope h = absurd (ground (arith, h))
operations_export_scope-some (some null) scope h = absurd (ground (arith, h))

is_text-some :
    (expected : String) (value : Value)
    → is_text expected (some value) ≡ true
    → value ≡ str (codes expected)
unfolding is_text
is_text-some expected (str text) h = ap str (text_eq-same text (codes expected) h)
is_text-some expected (obj f) h = absurd (ground (arith, h))
is_text-some expected (arr f) h = absurd (ground (arith, h))
is_text-some expected (num f) h = absurd (ground (arith, h))
is_text-some expected (bool f) h = absurd (ground (arith, h))
is_text-some expected null h = absurd (ground (arith, h))

are_columns-same :
    (columns : List String) (items : Items)
    → are_columns columns items ≡ true
    → items_list items ≡ map (λ column. str (codes column)) columns
unfolding are_columns
are_columns-same [] no_items h = refl
are_columns-same [] (item v vs) h = absurd (ground (arith, h))
are_columns-same (c ∷ cs) no_items h = absurd (ground (arith, h))
are_columns-same (c ∷ cs) (item v vs) h =
    ap₂ ◌∷◌ (is_text-some c v (ground (arith, h))) (are_columns-same cs vs (ground (arith, h)))

-- An object whose keys are the columns, each once, in some order.
abbrev pub HasColumns : List String → Value → Type 0
HasColumns columns value = (row : Fields) × (value ≡ obj row) × Perm (keys row) columns

are_distinct-columns :
    (scope : OperationsExportScope) → are_distinct (operations_export_scope_columns scope) ≡ true
unfolding are_distinct
are_distinct-columns enquiries = refl
are_distinct-columns ad_works = refl
are_distinct-columns drivers = refl
are_distinct-columns vehicles = refl
are_distinct-columns devices = refl
are_distinct-columns audit = refl

has_columns-HasColumns :
    (columns : List String) (value : Value)
    → IsDistinct columns
    → has_columns columns value ≡ true
    → HasColumns columns value
unfolding has_columns
has_columns-HasColumns columns (obj row) d h =
    (row, refl, every-perm columns (keys row) d (ground (arith, h)) (ground (arith, h)))
has_columns-HasColumns columns (str f) d h = absurd (ground (arith, h))
has_columns-HasColumns columns (arr f) d h = absurd (ground (arith, h))
has_columns-HasColumns columns (num f) d h = absurd (ground (arith, h))
has_columns-HasColumns columns (bool f) d h = absurd (ground (arith, h))
has_columns-HasColumns columns null d h = absurd (ground (arith, h))

every-All :
    {A : Type 0}
    → {P : A → Type 0} → (p : A → Bool) (xs : List A) → ((a : A) → p a ≡ true → P a)
    → every p xs ≡ true
    → All P xs
unfolding every
every-All p [] f h = tt
every-All p (x ∷ xs) f h = (f x (ground (arith, h)), every-All p xs f (ground (arith, h)))

-- What an accepted envelope has.
pub record IsAccepted (candidate : Fields) : Type 0 where
  pub scope : OperationsExportScope
  pub columns : Items
  pub rows : Items
  pub has_scope : get_field "scope" candidate ≡ some (str (scope_text scope))
  pub has_pii :
      get_field "containsPii" candidate ≡ some (bool (operations_export_scope_contains_pii scope))
  pub has_count : get_field "rowCount" candidate ≡ some (num (integer (pos (count_items rows))))
  pub is_bounded : count_items rows ≤ 500
  pub found_columns : get_field "columns" candidate ≡ some (arr columns)
  pub are_columns :
      items_list columns ≡ map (λ c. str (codes c)) (operations_export_scope_columns scope)
  pub found_rows : get_field "rows" candidate ≡ some (arr rows)
  pub have_columns : All (HasColumns (operations_export_scope_columns scope)) (items_list rows)

check_rows-parts :
    (scope : OperationsExportScope) (count : Option ℕ) (columns rows : Option Items)
    → check_rows scope count columns rows ≡ true
    → (c : Items) × (r : Items) × (count ≡ some (count_items r))
      × (columns ≡ some c)
      × (rows ≡ some r)
      × (are_columns (operations_export_scope_columns scope) c ≡ true)
      × (every (has_columns (operations_export_scope_columns scope)) (items_list r) ≡ true)
unfolding check_rows
check_rows-parts scope (some n) (some c) (some r) h =
    (c, r, ground (arith, h), refl, refl, ground (arith, h), ground (arith, h))
check_rows-parts scope none c r h = absurd (ground (arith, h))
check_rows-parts scope (some n) none r h = absurd (ground (arith, h))
check_rows-parts scope (some n) (some c) none h = absurd (ground (arith, h))

check_scope-parts :
    (scope : OperationsExportScope) (is_date : Text → Bool) (candidate : Fields)
    → check_scope scope is_date candidate ≡ true
    → (is_pii_flag scope (boolean (get_field "containsPii" candidate)) ≡ true)
      × (check_rows scope
            (row_count (get_field "rowCount" candidate))
            (array (get_field "columns" candidate))
            (array (get_field "rows" candidate))
          ≡ true)
unfolding check_scope
check_scope-parts scope is_date candidate h =
    seven (is_operations_export_format (get_field "format" candidate))
      (is_receipt_id (get_field "receiptId" candidate))
      (is_some (boolean (get_field "truncated" candidate))) _
      (is_date_text is_date (get_field "generatedAt" candidate))
      (is_object (get_field "filters" candidate)) _ h
  where
    seven :
        (a b c d e f g : Bool)
        → (a && (b && (c && (d && (e && (f && g)))))) ≡ true
        → (d ≡ true) × (g ≡ true)
    seven a b c d e f g k = ground (arith, k)

-- An accepted envelope names a scope and has just this scope's columns, in order; says what the scope
-- says on personal data; its count is that of its rows, at most 500; and the keys of each row are the
-- scope's columns, each once. So no row of an export carries a field that its scope does not have.
pub validate_operations_export_envelope-IsAccepted :
    (is_date : Text → Bool) (candidate : Fields)
    → validate_operations_export_envelope is_date (obj candidate) ≡ true
    → IsAccepted candidate
unfolding validate_operations_export_envelope
validate_operations_export_envelope-IsAccepted is_date candidate h =
    accepted (operations_export_scope (get_field "scope" candidate)) refl (ground (arith, h))
  where
    accepted :
        (found : Option OperationsExportScope)
        → operations_export_scope (get_field "scope" candidate) ≡ found
        → with_scope found is_date candidate ≡ true
        → IsAccepted candidate
    accepted none e k = absurd (ground (arith, k))
    accepted (some s) e k =
        let (pii, checked) = check_scope-parts s is_date candidate k in
        let (cs, rs, count, has_cs, has_rs, same, every_row) = check_rows-parts s _ _ _ checked in
        let (counted, bounded) = row_count-some _ _ count in
        record {
          scope = s;
          columns = cs;
          rows = rs;
          has_scope = operations_export_scope-some _ s e;
          has_pii = is_pii_flag-true s _ pii;
          has_count = counted;
          is_bounded = bounded;
          found_columns = array-some _ cs has_cs;
          are_columns = are_columns-same _ cs same;
          found_rows = array-some _ rs has_rs;
          have_columns =
              every-All (has_columns (operations_export_scope_columns s)) (items_list rs)
                (λ v.
                  has_columns-HasColumns (operations_export_scope_columns s) v
                    (are_distinct-IsDistinct _ (are_distinct-columns s)))
                every_row;
        }
