-- ===== src/Identity/Limits.antt =====
-- The canonical text of a value by what the value is: whether it is within the limits of identity.ts, and
-- JSON.stringify of the value with its keys sorted.
use kootha.Prelude.{
  ℕ, zero, suc, ◌+◌, ◌≤◌, max, ◌≡◌, refl, ap, ◌∙◌, inl, inr, Bool, false, ◌&&◌, none, some, List,
  [], ◌∷◌, ◌++◌, map, arith, if◌then◌else◌, ltb, leb, every, length, Bool-cases,
}
use kootha.Prelude.Number.{is_finite}
use kootha.Prelude.Json.{
  Text, Value, obj, arr, str, num, bool, null, Fields, end, field, Items, no_items, item,
  items_list,
}
use kootha.Prelude.Print.{units, quote, stringify, stringify_fields, stringify_items, join}
use kootha.Prelude.Result.{ok, err}
use kootha.Prelude.Sort.{sort, insert}
use kootha.Identity.Canonical.{
  invalid_material, canonical_levels, max_canonical_output_length, canonical_result,
  canonicalize_stable_json, Entry, entries, by_key, max_canonical_nodes, Written, canonical_list,
  canonical_entry, canonical_node, canonicalize_value, enclosed,
}
use kootha.Identity.Measure.{
  nodes, nodes_fields, nodes_items, height, height_fields, height_items, fits, fits_fields,
  fits_items, fields_of, items_of, sorted,
}

abbrev total : {A : Type 0} → (A → ℕ) → List A → ℕ
total size [] = 0
total size (a ∷ rest) = size a + total size rest

module _ {A : Type 0} (write : A → ℕ → Written Text) (text : A → Text) (size : A → ℕ)
    (good : A → Bool)
    (each : (a : A) (c : ℕ)
      → write a c ≡ (
          if good a && leb (c + size a) max_canonical_nodes
          then some (text a, c + size a)
          else none)) where
  canonical_list-settled :
      (xs : List A) (c : ℕ)
      → c ≤ max_canonical_nodes
      → canonical_list write xs c ≡ (
          if every good xs && leb (c + total size xs) max_canonical_nodes
          then some (map text xs, c + total size xs)
          else none)
  unfolding canonical_list every
  canonical_list-settled [] c h = ground arith
  canonical_list-settled (x ∷ xs) c h = elim (Bool-cases (good x)) [
    | inr e ↦ rw (each x c, e) refl
    | inl e ↦ elim (Bool-cases (leb (c + size x) max_canonical_nodes)) [
      | inr f ↦ ground (arith, each x c, e, f)
      | inl f ↦
          rw (each x c, e, f, canonical_list-settled xs (c + size x) (ground (arith, f)))
            (ground arith)
    ]
  ]

-- Sorting changes neither a sum nor a test of all items.
total-insert :
    {A : Type 0}
    → (le : A → A → Bool) (size : A → ℕ) (x : A) (ys : List A)
    → total size (insert le x ys) ≡ size x + total size ys
unfolding insert
total-insert le size x [] = refl
total-insert le size x (y ∷ ys) = ground (arith, total-insert le size x ys)

total-sort :
    {A : Type 0}
    → (le : A → A → Bool) (size : A → ℕ) (xs : List A) → total size (sort le xs) ≡ total size xs
unfolding sort
total-sort le size [] = refl
total-sort le size (x ∷ xs) =
    omega (arith, total-insert le size x (sort le xs), total-sort le size xs)

every-insert :
    {A : Type 0}
    → (le : A → A → Bool) (p : A → Bool) (x : A) (ys : List A)
    → every p (insert le x ys) ≡ (p x && every p ys)
unfolding insert every
every-insert le p x [] = refl
every-insert le p x (y ∷ ys) = ground (arith, every-insert le p x ys)

every-sort :
    {A : Type 0}
    → (le : A → A → Bool) (p : A → Bool) (xs : List A) → every p (sort le xs) ≡ every p xs
unfolding sort every
every-sort le p [] = refl
every-sort le p (x ∷ xs) =
    every-insert le p x (sort le xs) ∙ ap (λ b. p x && b) (every-sort le p xs)

-- Whether a value may be written where so many levels are left.
abbrev is_writable : ℕ → Value → Bool
is_writable levels value = leb (height value) levels && fits value

abbrev is_writable_entry : ℕ → Entry → Bool
is_writable_entry levels e = is_writable levels e.1

both_writable :
    (levels m n : ℕ) (a b : Bool)
    → ((leb m levels && a) && (leb n levels && b)) ≡ (leb (max m n) levels && (a && b))
both_writable levels m n a b = ground arith

is_writable-items :
    (levels : ℕ) (items : Items)
    → every (is_writable levels) (items_list items)
      ≡ (leb (height_items items) levels && fits_items items)
unfolding every height fits
is_writable-items levels no_items = ground arith
is_writable-items levels (item v rest) =
    ap (λ b. is_writable levels v && b) (is_writable-items levels rest)
    ∙ both_writable levels (height v) (height_items rest) (fits v) (fits_items rest)

is_writable-fields :
    (levels : ℕ) (fields : Fields)
    → every (is_writable_entry levels) (entries fields)
      ≡ (leb (height_fields fields) levels && fits_fields fields)
unfolding every height fits
is_writable-fields levels end = ground arith
is_writable-fields levels (field k v rest) =
    ap (λ b. is_writable levels v && b) (is_writable-fields levels rest)
    ∙ both_writable levels (height v) (height_fields rest) (fits v) (fits_fields rest)

total-items : (items : Items) → total nodes (items_list items) ≡ nodes_items items
unfolding nodes
total-items no_items = refl
total-items (item v rest) = omega (arith, total-items rest)

total-fields : (fields : Fields) → total (λ e. nodes e.1) (entries fields) ≡ nodes_fields fields
unfolding nodes
total-fields end = refl
total-fields (field k v rest) = omega (arith, total-fields rest)

module _ (fraction_text : ℕ → Text) where
  abbrev value_text : ℕ → Value → Text
  value_text levels value = stringify fraction_text (sorted levels value)

  abbrev entry_text : ℕ → Entry → Text
  entry_text levels e = quote (units e.0) ++ b':' ∷ value_text levels e.1

  stringify-fields_of :
      (levels : ℕ) (es : List Entry)
      → stringify_fields fraction_text (fields_of (map (λ e. (e.0, sorted levels e.1)) es))
        ≡ map (entry_text levels) es
  unfolding stringify
  stringify-fields_of levels [] = refl
  stringify-fields_of levels (e ∷ es) =
      ap (◌∷◌ (entry_text levels e)) (stringify-fields_of levels es)

  stringify-items_of :
      (levels : ℕ) (vs : List Value)
      → stringify_items fraction_text (items_of (map (sorted levels) vs))
        ≡ map (value_text levels) vs
  unfolding stringify
  stringify-items_of levels [] = refl
  stringify-items_of levels (v ∷ vs) = ap (◌∷◌ (value_text levels v)) (stringify-items_of levels vs)

  positive-height : (value : Value) → 1 ≤ height value
  unfolding height
  positive-height value = ground arith

  abbrev outcome : ℕ → Value → ℕ → Written Text
  outcome levels value count =
      if is_writable levels value && leb (count + nodes value) max_canonical_nodes
      then some (value_text levels value, count + nodes value)
      else none

  positive-nodes : (value : Value) → 1 ≤ nodes value
  unfolding nodes
  positive-nodes value = ground arith

  -- The tests of a collection in the order of the code, and in that of `fits`.
  collection :
      (left right : ℕ) (texts : List Text) (levels h n n' : ℕ) (limit k : Bool)
      → n ≡ n'
      → (if limit
          then enclosed left right
              (if (leb h levels && k) && leb n max_canonical_nodes then some (texts, n) else none)
          else none)
        ≡ (if (leb (suc h) (suc levels) && (limit && k)) && leb n' max_canonical_nodes
            then some (left ∷ (join (b',' ∷ []) texts ++ right ∷ []), n')
            else none)
  collection left right texts levels h n n' limit k e = ground arith

  module _ (levels count : ℕ) (room : ltb max_canonical_nodes (suc count) ≡ false)
      (below : (v : Value) (c : ℕ)
        → canonicalize_value fraction_text levels v c ≡ outcome levels v c) where
    entry-outcome :
        (e : Entry) (c : ℕ)
        → canonical_entry (canonicalize_value fraction_text levels) e c ≡ (
            if is_writable_entry levels e && leb (c + nodes e.1) max_canonical_nodes
            then some (entry_text levels e, c + nodes e.1)
            else none)
    unfolding canonical_entry
    entry-outcome e c = rw (below e.1 c) (ground arith)

    node-outcome :
        (v : Value)
        → canonical_node fraction_text (canonicalize_value fraction_text levels) v (suc count)
          ≡ outcome (suc levels) v count
    unfolding canonical_node height fits nodes stringify sorted
    node-outcome null = ground (arith, room)
    node-outcome (bool b) = ground (arith, room)
    node-outcome (str t) = ground (arith, room)
    node-outcome (num n) = elim (Bool-cases (is_finite n)) [
      | inl e ↦ ground (arith, room, e)
      | inr e ↦ ground (arith, room, e)
    ]
    node-outcome (arr items) =
        rw
          (
            canonical_list-settled (canonicalize_value fraction_text levels) (value_text levels)
                nodes (is_writable levels) below (items_list items) (suc count)
                (ground (arith, room)),
            is_writable-items levels items,
            total-items items,
            stringify-items_of levels (items_list items),
          )
          (collection _ _ _ levels (height_items items) _ _ _ (fits_items items) (omega arith))
    node-outcome (obj fields) =
        rw
          (
            canonical_list-settled (canonical_entry (canonicalize_value fraction_text levels))
                (entry_text levels) (λ e. nodes e.1) (is_writable_entry levels) entry-outcome
                (sort by_key (entries fields)) (suc count) (ground (arith, room)),
            every-sort by_key (is_writable_entry levels) (entries fields),
            total-sort by_key (λ e. nodes e.1) (entries fields),
            is_writable-fields levels fields,
            total-fields fields,
            stringify-fields_of levels (sort by_key (entries fields)),
          )
          (collection _ _ _ levels (height_fields fields) _ _ _ (fits_fields fields) (omega arith))

  canonicalize_value-outcome :
      (levels : ℕ) (value : Value) (count : ℕ)
      → canonicalize_value fraction_text levels value count ≡ outcome levels value count
  unfolding canonicalize_value
  canonicalize_value-outcome zero value count = ground (arith, positive-height value)
  canonicalize_value-outcome (suc levels) value count =
      elim (Bool-cases (ltb max_canonical_nodes (suc count))) [
        | inl e ↦ rw e (ground (arith, e, positive-nodes value))
        | inr e ↦ rw e (node-outcome levels count e (canonicalize_value-outcome levels) value)
      ]

-- Whether a value has at most 17 levels and 512 nodes, and everything in it is short enough.
abbrev pub is_within_limits : Value → Bool
is_within_limits value =
    (leb (height value) canonical_levels && fits value) && leb (nodes value) max_canonical_nodes

abbrev pub canonical_text : (ℕ → Text) → Value → Text
canonical_text fraction_text value = stringify fraction_text (sorted canonical_levels value)

-- The canonical text is JSON.stringify of the value with the keys of its objects sorted, and there is one
-- exactly if the value is within the limits and the text has at most 65536 units: counting nodes on
-- the way refuses neither more nor less, whatever the order of the visits.
pub canonicalize_stable_json_lem :
    (fraction_text : ℕ → Text) (value : Value)
    → canonicalize_stable_json fraction_text value ≡ (
        if is_within_limits value
          && leb (length (canonical_text fraction_text value)) max_canonical_output_length
        then ok (canonical_text fraction_text value)
        else err invalid_material)
unfolding canonicalize_stable_json
canonicalize_stable_json_lem fraction_text value =
    rw (canonicalize_value-outcome fraction_text canonical_levels value 0) (
      result (leb (height value) canonical_levels && fits value)
        (canonical_text fraction_text value) (0 + nodes value) (nodes value) (omega arith))
  where
    result :
        (within : Bool) (text : Text) (m n : ℕ)
        → m ≡ n
        → canonical_result (if within && leb m max_canonical_nodes then some (text, m) else none)
          ≡ (if (within && leb n max_canonical_nodes)
                && leb (length text) max_canonical_output_length
              then ok text
              else err invalid_material)
    result within text m n e = ground arith
