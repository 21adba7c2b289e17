-- ===== src/Identity/Measure.antt =====
-- What a value of JSON has: its nodes, its levels, whether everything in it is within the limits of identity.ts,
-- and the same value with the keys of its objects sorted.
use kootha.Prelude.{
  ℕ, zero, suc, ◌+◌, max, Bool, true, ◌&&◌, List, [], ◌∷◌, map, leb, every, length,
}
use kootha.Prelude.Number.{is_finite}
use kootha.Prelude.Json.{
  Value, obj, arr, str, num, bool, null, Fields, end, field, Items, no_items, item, count_items,
  items_list,
}
use kootha.Prelude.Sort.{sort}
use kootha.Identity.Canonical.{
  Entry, entries, by_key, is_short_key, max_canonical_collection_items, max_canonical_string_length,
}

-- How many nodes a value has, and how many levels.
unfoldable mutual
  pub nodes : Value → ℕ
  nodes (obj fields) = suc (nodes_fields fields)
  nodes (arr items) = suc (nodes_items items)
  nodes _ = 1

  pub nodes_fields : Fields → ℕ
  nodes_fields end = 0
  nodes_fields (field key value rest) = nodes value + nodes_fields rest

  pub nodes_items : Items → ℕ
  nodes_items no_items = 0
  nodes_items (item value rest) = nodes value + nodes_items rest

unfoldable mutual
  pub height : Value → ℕ
  height (obj fields) = suc (height_fields fields)
  height (arr items) = suc (height_items items)
  height _ = 1

  pub height_fields : Fields → ℕ
  height_fields end = 0
  height_fields (field key value rest) = max (height value) (height_fields rest)

  pub height_items : Items → ℕ
  height_items no_items = 0
  height_items (item value rest) = max (height value) (height_items rest)

-- Whether texts, keys and collections are short enough and numbers finite, everywhere in a value.
unfoldable mutual
  unfolding is_short_key every

  pub fits : Value → Bool
  fits (obj fields) =
      (leb (length (entries fields)) max_canonical_collection_items
        && every is_short_key (entries fields))
      && fits_fields fields
  fits (arr items) = leb (count_items items) max_canonical_collection_items && fits_items items
  fits (str text) = leb (length text) max_canonical_string_length
  fits (num n) = is_finite n
  fits (bool b) = true
  fits null = true

  pub fits_fields : Fields → Bool
  fits_fields end = true
  fits_fields (field key value rest) = fits value && fits_fields rest

  pub fits_items : Items → Bool
  fits_items no_items = true
  fits_items (item value rest) = fits value && fits_items rest

abbrev pub fields_of : List Entry → Fields
fields_of [] = end
fields_of (e ∷ es) = field e.0 e.1 (fields_of es)

abbrev pub items_of : List Value → Items
items_of [] = no_items
items_of (v ∷ vs) = item v (items_of vs)

-- The value with the keys of its objects sorted, down to the given level.
unfoldable pub sorted : ℕ → Value → Value
unfolding sort by_key
sorted zero value = value
sorted (suc levels) (obj fields) =
    obj (fields_of (map (λ e. (e.0, sorted levels e.1)) (sort by_key (entries fields))))
sorted (suc levels) (arr items) = arr (items_of (map (sorted levels) (items_list items)))
sorted (suc levels) value = value
