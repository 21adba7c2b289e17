-- ===== src/Identity/Order.antt =====
-- The order in which an object's keys stand does not change the canonical text of identity.ts.
use kootha.Prelude.{
  ◌++◌, ℕ, zero, suc, ◌≡◌, refl, subst, ap, ◌∙◌, inl, inr, Bool, true, false, ◌&&◌, Option, none,
  some, String, List, [], ◌∷◌, arith, leb, every, length, Bool-cases,
}
use kootha.Prelude.Json.{
  Text, Value, obj, arr, Fields, end, field, Items, no_items, item, count_items, items_list,
}
use kootha.Prelude.Print.{units, quote}
use kootha.Prelude.Sort.{sort, insert}
use kootha.Telemetry.Timestamp.{and_then}
use kootha.Identity.Canonical.{
  Entry, entries, text_le, by_key, is_short_key, Written, canonical_list, canonical_entry,
  canonical_node, canonicalize_value, canonicalize_stable_json, canonical_levels, canonical_result,
  max_canonical_collection_items,
}

-- The same value, with the fields of objects in another order at any depth. Two fields that change
-- places have different keys.
mutual
  pub data Reordered : Value → Value → Type 0 where
    same : (v : Value) → Reordered v v
    object : {fs gs : Fields} → ReorderedFields fs gs → Reordered (obj fs) (obj gs)
    array : {xs ys : Items} → ReorderedItems xs ys → Reordered (arr xs) (arr ys)

  pub data ReorderedFields : Fields → Fields → Type 0 where
    at_end : ReorderedFields end end
    next :
        (key : String) {v w : Value} {fs gs : Fields}
        → Reordered v w
        → ReorderedFields fs gs
        → ReorderedFields (field key v fs) (field key w gs)
    swapped :
        (k l : String) (v w : Value) (fs : Fields)
        → (text_le (units k) (units l) && text_le (units l) (units k)) ≡ false
        → ReorderedFields (field k v (field l w fs)) (field l w (field k v fs))
    joined :
        {fs gs hs : Fields} → ReorderedFields fs gs → ReorderedFields gs hs → ReorderedFields fs hs

  pub data ReorderedItems : Items → Items → Type 0 where
    no_more : ReorderedItems no_items no_items
    then_item :
        {v w : Value} {xs ys : Items}
        → Reordered v w
        → ReorderedItems xs ys
        → ReorderedItems (item v xs) (item w ys)

text_le_total : (s t : Text) → text_le s t ≡ false → text_le t s ≡ true
unfolding text_le
text_le_total [] t h = absurd (ground (arith, h))
text_le_total (c ∷ cs) [] h = refl
text_le_total (c ∷ cs) (d ∷ ds) h = ground (arith, h, text_le_total cs ds)

text_le_trans : (s t u : Text) → text_le s t ≡ true → text_le t u ≡ true → text_le s u ≡ true
unfolding text_le
text_le_trans [] t u h k = refl
text_le_trans (c ∷ cs) [] u h k = absurd (ground (arith, h))
text_le_trans (c ∷ cs) (d ∷ ds) [] h k = absurd (ground (arith, k))
text_le_trans (c ∷ cs) (d ∷ ds) (e ∷ es) h k = ground (arith, h, k, text_le_trans cs ds es)

and_then-ap :
    {A B : Type 0}
    → (o : Option A) (g h : A → Option B) → ((a : A) → g a ≡ h a)
    → and_then o g ≡ and_then o h
and_then-ap none g h e = refl
and_then-ap (some a) g h e = e a

swapped_tests : (a b c : Bool) → (a && (b && c)) ≡ (b && (a && c))
swapped_tests a b c = ground arith

abbrev before : Text → Written (List Text) → Written (List Text)
before first others = and_then others (λ more. some (first ∷ more.0, more.1))

abbrev entry_after : String → Written Text → Written Text
entry_after key o = and_then o (λ r. some (quote (units key) ++ b':' ∷ r.0, r.1))

-- Entries that cannot be told apart by the code at a level: the same keys, and values that are written
-- alike.
module _ (fraction_text : ℕ → Text) where
  abbrev IsAlike : Value → Value → Type 0
  IsAlike v w =
      (levels count : ℕ)
      → canonicalize_value fraction_text levels v count
        ≡ canonicalize_value fraction_text levels w count

  data AlikeEntries : List Entry → List Entry → Type 0 where
    empty : AlikeEntries [] []
    entry :
        (key : String) {v w : Value} {es fs : List Entry}
        → IsAlike v w
        → AlikeEntries es fs
        → AlikeEntries ((key, v) ∷ es) ((key, w) ∷ fs)

  AlikeEntries-refl : (es : List Entry) → AlikeEntries es es
  AlikeEntries-refl [] = empty
  AlikeEntries-refl (e ∷ es) = entry e.0 (λ levels count. refl) (AlikeEntries-refl es)

  insert-AlikeEntries :
      (key : String) (v w : Value) {es fs : List Entry}
      → IsAlike v w
      → AlikeEntries es fs
      → AlikeEntries (insert by_key (key, v) es) (insert by_key (key, w) fs)
  unfolding insert by_key
  insert-AlikeEntries key v w a empty = entry key a empty
  insert-AlikeEntries key v w a (entry l b rest) =
      elim (Bool-cases (text_le (units key) (units l))) [
        | inl e ↦ rw e (entry key a (entry l b rest))
        | inr e ↦ rw e (entry l b (insert-AlikeEntries key v w a rest))
      ]

  AlikeEntries-trans :
      {es fs gs : List Entry} → AlikeEntries es fs → AlikeEntries fs gs → AlikeEntries es gs
  AlikeEntries-trans empty q = q
  AlikeEntries-trans (entry key a rest) (entry _ b others) =
      entry key (λ levels count. a levels count ∙ b levels count) (AlikeEntries-trans rest others)

  -- Entries with different keys go to the same places, whichever is put in first.
  insert-insert :
      (e f : Entry) (es : List Entry)
      → (by_key e f && by_key f e) ≡ false
      → insert by_key e (insert by_key f es) ≡ insert by_key f (insert by_key e es)
  unfolding insert by_key
  insert-insert e f [] h = ground (arith, h, text_le_total (units e.0) (units f.0))
  insert-insert e f (g ∷ es) h = ground (
    arith,
    h,
    text_le_total (units e.0) (units f.0),
    text_le_trans (units e.0) (units f.0) (units g.0),
    text_le_trans (units f.0) (units e.0) (units g.0),
    insert-insert e f es h,
  )

  canonical_list-AlikeEntries :
      (levels : ℕ) {es fs : List Entry} (count : ℕ)
      → AlikeEntries es fs
      → canonical_list (canonical_entry (canonicalize_value fraction_text levels)) es count
        ≡ canonical_list (canonical_entry (canonicalize_value fraction_text levels)) fs count
  unfolding canonical_list canonical_entry
  canonical_list-AlikeEntries levels count empty = refl
  canonical_list-AlikeEntries levels count (entry key {v} {w} a rest) = rw (a levels count) (
      and_then-ap (entry_after key (canonicalize_value fraction_text levels w count)) _ _
        (λ r. ap (before r.0) (canonical_list-AlikeEntries levels r.1 rest)))

  -- Sorting, with fields in another order.
  sort-AlikeEntries :
      (es fs : List Entry) → AlikeEntries es fs → AlikeEntries (sort by_key es) (sort by_key fs)
  unfolding sort
  sort-AlikeEntries [] [] empty = empty
  sort-AlikeEntries _ _ (entry key {v} {w} {es} {fs} a rest) =
      insert-AlikeEntries key v w a (sort-AlikeEntries es fs rest)

  short_keys : List Entry → Bool
  short_keys es = leb (length es) max_canonical_collection_items && every is_short_key es

  abbrev MatchFields : Fields → Fields → Type 0
  MatchFields fs gs =
      AlikeEntries (sort by_key (entries fs)) (sort by_key (entries gs))
      × (length (entries fs) ≡ length (entries gs))
      × (every is_short_key (entries fs) ≡ every is_short_key (entries gs))

  object-IsAlike : (fs gs : Fields) → MatchFields fs gs → IsAlike (obj fs) (obj gs)
  unfolding canonicalize_value canonical_node
  object-IsAlike fs gs m zero count = refl
  object-IsAlike fs gs m (suc levels) count =
      rw (m.1, m.2, canonical_list-AlikeEntries levels (suc count) m.0) refl

  abbrev MatchItems : Items → Items → Type 0
  MatchItems xs ys =
      (count_items xs ≡ count_items ys)
      × ((levels count : ℕ)
          → canonical_list (canonicalize_value fraction_text levels) (items_list xs) count
            ≡ canonical_list (canonicalize_value fraction_text levels) (items_list ys) count)

  array-IsAlike : (xs ys : Items) → MatchItems xs ys → IsAlike (arr xs) (arr ys)
  unfolding canonicalize_value canonical_node
  array-IsAlike xs ys m zero count = refl
  array-IsAlike xs ys m (suc levels) count = rw (m.0, m.1 levels (suc count)) refl

  next_items-match :
      (v w : Value) (xs ys : Items)
      → IsAlike v w
      → MatchItems xs ys
      → MatchItems (item v xs) (item w ys)
  unfolding canonical_list
  next_items-match v w xs ys a m = (
    ap suc m.0,
    λ levels count. rw (a levels count) (
        and_then-ap (canonicalize_value fraction_text levels w count) _ _
          (λ r. ap (before r.0) (m.1 levels r.1))),
  )

  mutual
    unfolding sort every is_short_key by_key

    pub Reordered-IsAlike : (v w : Value) → Reordered v w → IsAlike v w
    Reordered-IsAlike v w (same _) = λ levels count. refl
    Reordered-IsAlike v w (object {fs} {gs} r) =
        object-IsAlike fs gs (ReorderedFields-match fs gs r)
    Reordered-IsAlike v w (array {xs} {ys} r) = array-IsAlike xs ys (ReorderedItems-match xs ys r)

    ReorderedFields-match : (fs gs : Fields) → ReorderedFields fs gs → MatchFields fs gs
    ReorderedFields-match fs gs at_end = (empty, refl, refl)
    ReorderedFields-match _ _ (next key {v} {w} {fs} {gs} r rest) =
        let (alike, long, short) = ReorderedFields-match fs gs rest in
        (
          insert-AlikeEntries key v w (Reordered-IsAlike v w r) alike,
          ap suc long,
          ap (λ b. is_short_key (key, v) && b) short,
        )
    ReorderedFields-match _ _ (swapped k l v w fs apart) = (
      subst (AlikeEntries (insert by_key (k, v) (insert by_key (l, w) (sort by_key (entries fs)))))
          (insert-insert (k, v) (l, w) (sort by_key (entries fs)) apart) (AlikeEntries-refl _),
      refl,
      swapped_tests (is_short_key (k, v)) (is_short_key (l, w)) (every is_short_key (entries fs)),
    )
    ReorderedFields-match _ _ (joined {fs} {gs} {hs} p q) =
        let (a, m, s) = ReorderedFields-match fs gs p in
        let (b, n, t) = ReorderedFields-match gs hs q in (AlikeEntries-trans a b, m ∙ n, s ∙ t)

    ReorderedItems-match : (xs ys : Items) → ReorderedItems xs ys → MatchItems xs ys
    ReorderedItems-match xs ys no_more = (refl, λ levels count. refl)
    ReorderedItems-match _ _ (then_item {v} {w} {xs} {ys} r rest) =
        next_items-match v w xs ys (Reordered-IsAlike v w r) (ReorderedItems-match xs ys rest)

-- Values that differ only in the order in which keys stand in their objects, at any depth, have the
-- same canonical text, or the same refusal.
pub canonicalize_stable_json-Reordered :
    (fraction_text : ℕ → Text) (v w : Value)
    → Reordered v w
    → canonicalize_stable_json fraction_text v ≡ canonicalize_stable_json fraction_text w
unfolding canonicalize_stable_json
canonicalize_stable_json-Reordered fraction_text v w r =
    ap canonical_result (Reordered-IsAlike fraction_text v w r canonical_levels 0)
