-- ===== src/Identity/Canonical.antt =====
-- identity.ts: the canonical text of a value. A value is what `JSON.parse` returns, a tree: it has no
-- cycles, accessors, symbols or holes, which the source refuses as well. `fraction_text` prints a number
-- that is no integer. The depth is counted down: `levels` is how many levels are left.
use kootha.Prelude.{
  ℕ, zero, suc, Bool, true, false, ◌&&◌, ◌||◌, ◌≡◌, refl, Option, none, some, String, List, [], ◌∷◌,
  ◌++◌, if◌then◌else◌, ltb, leb, ◌==◌, codes, every, length,
}
use kootha.Prelude.Number.{is_finite}
use kootha.Prelude.Json.{
  Text, Value, obj, arr, str, num, bool, null, Fields, end, field, Items, count_items, items_list,
}
use kootha.Prelude.Print.{units, number_text, bool_text, quote, join}
use kootha.Prelude.Result.{Result, ok, err}
use kootha.Prelude.Sort.{sort}
use kootha.Telemetry.Issue.{ValidationIssue, invalid_value}
use kootha.Telemetry.Timestamp.{and_then}

abbrev pub invalid_material : ValidationIssue
invalid_material = record { path = codes "$"; code = invalid_value }

abbrev pub Entry : Type 0
Entry = String × Value

abbrev pub entries : Fields → List Entry
entries end = []
entries (field key value rest) = (key, value) ∷ entries rest

-- `left <= right` on strings: by their code units.
unfoldable pub text_le : Text → Text → Bool
text_le [] ds = true
text_le (c ∷ cs) [] = false
text_le (c ∷ cs) (d ∷ ds) = ltb c d || (c == d && text_le cs ds)

unfoldable pub by_key : Entry → Entry → Bool
unfolding text_le units
by_key e f = text_le (units e.0) (units f.0)

abbrev pub max_canonical_nodes : ℕ
max_canonical_nodes = 512

abbrev pub max_canonical_collection_items : ℕ
max_canonical_collection_items = 64

abbrev pub max_canonical_string_length : ℕ
max_canonical_string_length = 1024

abbrev pub max_canonical_key_length : ℕ
max_canonical_key_length = 128

abbrev pub max_canonical_output_length : ℕ
max_canonical_output_length = 65536

-- The levels of the depths from 0 to the source's 16.
abbrev pub canonical_levels : ℕ
canonical_levels = 17

-- What is written, and the count of nodes after it.
abbrev pub Written : Type 0 → Type 0
Written A = Option (A × ℕ)

-- The loop over the items of an array and over the entries of an object.
unfoldable pub canonical_list :
    {A : Type 0} → (A → ℕ → Written Text) → List A → ℕ → Written (List Text)
canonical_list write [] count = some ([], count)
canonical_list write (a ∷ rest) count = and_then (write a count) (λ first.
    and_then (canonical_list write rest first.1) (λ others. some (first.0 ∷ others.0, others.1)))

unfoldable pub canonical_entry : (Value → ℕ → Written Text) → Entry → ℕ → Written Text
unfolding quote units
canonical_entry write e count =
    and_then (write e.1 count) (λ r. some (quote (units e.0) ++ b':' ∷ r.0, r.1))

abbrev pub enclosed : ℕ → ℕ → Written (List Text) → Written Text
enclosed left right none = none
enclosed left right (some (texts, count)) =
    some (left ∷ (join (b',' ∷ []) texts ++ right ∷ []), count)

unfoldable pub is_short_key : Entry → Bool
unfolding units
is_short_key e = leb (length (units e.0)) max_canonical_key_length

-- A node that is counted already; `write` is for the level below.
unfoldable pub canonical_node : (ℕ → Text) → (Value → ℕ → Written Text) → Value → ℕ → Written Text
unfolding canonical_list canonical_entry quote number_text is_short_key sort by_key every join
canonical_node fraction_text write null count = some (codes "null", count)
canonical_node fraction_text write (str text) count =
    if leb (length text) max_canonical_string_length then some (quote text, count) else none
canonical_node fraction_text write (bool b) count = some (bool_text b, count)
canonical_node fraction_text write (num n) count =
    if is_finite n then some (number_text fraction_text n, count) else none
canonical_node fraction_text write (arr items) count =
    let written = canonical_list write (items_list items) count in
    if leb (count_items items) max_canonical_collection_items
    then enclosed b'[' b']' written
    else none
canonical_node fraction_text write (obj fields) count =
    let written = canonical_list (canonical_entry write) (sort by_key (entries fields)) count in
    if leb (length (entries fields)) max_canonical_collection_items
      && every is_short_key (entries fields)
    then enclosed b'{' b'}' written
    else none

unfoldable pub canonicalize_value : (ℕ → Text) → ℕ → Value → ℕ → Written Text
unfolding canonical_node
canonicalize_value fraction_text zero value count = none
canonicalize_value fraction_text (suc levels) value count =
    let written =
      canonical_node fraction_text (canonicalize_value fraction_text levels) value (suc count) in
    if ltb max_canonical_nodes (suc count) then none else written

abbrev pub canonical_result : Written Text → Result ValidationIssue Text
canonical_result none = err invalid_material
canonical_result (some (text, count)) =
    if ltb max_canonical_output_length (length text) then err invalid_material else ok text

unfoldable pub canonicalize_stable_json : (ℕ → Text) → Value → Result ValidationIssue Text
unfolding canonicalize_value
canonicalize_stable_json fraction_text value =
    canonical_result (canonicalize_value fraction_text canonical_levels value 0)

sample :
    canonicalize_stable_json
      (λ k. codes "0.5")
      (obj (field "b" (arr (Items.item null Items.no_items)) (field "a" (str (codes "x\"")) end)))
    ≡ ok (codes "{\"a\":\"x\\\"\",\"b\":[null]}")
unfolding canonicalize_stable_json
sample = refl
