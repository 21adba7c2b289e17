-- ===== src/Identity/RoundTrip.antt =====
-- The reader of Identity/Reader.antt reads what JSON.stringify writes; so identity.ts gives different
-- values different canonical texts.
use kootha.Prelude.{
  ℕ, zero, suc, ◌+◌, ◌≤◌, ◌≡◌, refl, sym, ap, ◌∙◌, inl, inr, Bool, true, false, Option, none, some,
  [], ◌∷◌, ◌++◌, append_assoc, arith, if◌then◌else◌, every, Bool-cases,
}
use kootha.Prelude.Number.{Number, is_finite}
use kootha.Prelude.Json.{
  Text, Value, obj, arr, str, num, bool, null, Fields, end, field, Items, no_items, item,
}
use kootha.Prelude.Print.{units, quote, number_text, stringify, stringify_fields, stringify_items}
use kootha.Prelude.Result.{Result, ok, err}
use kootha.Telemetry.Issue.{ValidationIssue}
use kootha.Identity.Canonical.{invalid_material, canonical_levels, canonicalize_stable_json}
use kootha.Identity.Measure.{sorted}
use kootha.Identity.Limits.{canonical_text, canonicalize_stable_json_lem}
use kootha.Identity.Strings.{Read, read_string-quote}
use kootha.Identity.Reader.{
  Tree, Members, members, elements, element, member, text, number, nothing, tree, tree_fields,
  tree_items, is_number_unit, number_part, read_number, read_map, read_then, read_key, colon,
  read_value, read_elements, read_members, IsNumberText, cost, cost_fields, cost_items,
}
use kootha.Identity.Collections.{
  is_boundary, number_part-append, number-start, tail, starts_apart, opened-join, positive-cost,
}

module _ (fraction_text : ℕ → Text) (number_of : Text → Option Number)
    (printed : IsNumberText fraction_text number_of) where
  number_unit : (n : Number) → is_finite n ≡ true → is_number_unit (printed.first_unit n) ≡ true
  unfolding every
  number_unit n h =
      ground
        (arith, ap (every is_number_unit) (sym (printed.is_started n h)) ∙ printed.are_units n h)

  value-start : (value : Value) → starts_apart b']' (stringify fraction_text value) ≡ true
  unfolding stringify quote
  value-start (obj fields) = refl
  value-start (arr items) = refl
  value-start (str t) = refl
  value-start (bool true) = refl
  value-start (bool false) = refl
  value-start null = refl
  value-start (num n) = elim (Bool-cases (is_finite n)) [
    | inl e ↦ rw (e, printed.is_started n e) (ground (arith, number_unit n e))
    | inr e ↦ rw e refl
  ]

  items-start :
      (items : Items) → every (starts_apart b']') (stringify_items fraction_text items) ≡ true
  unfolding every stringify
  items-start no_items = refl
  items-start (item v rest) = rw (value-start v) (items-start rest)

  fields-start :
      (fields : Fields) → every (starts_apart b'}') (stringify_fields fraction_text fields) ≡ true
  unfolding every stringify quote
  fields-start end = refl
  fields-start (field k v rest) = fields-start rest

  items-boundary :
      (items : Items) (rest : Text)
      → is_boundary (tail b']' (stringify_items fraction_text items) rest) ≡ true
  unfolding stringify
  items-boundary no_items rest = refl
  items-boundary (item v more) rest = refl

  fields-boundary :
      (fields : Fields) (rest : Text)
      → is_boundary (tail b'}' (stringify_fields fraction_text fields) rest) ≡ true
  unfolding stringify
  fields-boundary end rest = refl
  fields-boundary (field k v more) rest = refl

  read_value-number :
      (fuel c : ℕ) (cs : Text)
      → is_number_unit c ≡ true
      → read_value number_of (suc fuel) (c ∷ cs) ≡ read_number number_of (number_part (c ∷ cs))
  unfolding read_value
  read_value-number fuel c cs h = rw (number-start c h, read_value) refl

  read_number-digits :
      (n : Number) (digits rest : Text)
      → number_of digits ≡ some n
      → read_number number_of (digits, rest) ≡ some (number n, rest)
  read_number-digits n digits rest h = rw (h, read_number) refl

  read_value-number_text :
      (fuel : ℕ) (n : Number) (rest : Text)
      → is_finite n ≡ true
      → is_boundary rest ≡ true
      → read_value number_of (suc fuel) (number_text fraction_text n ++ rest)
        ≡ some (number n, rest)
  read_value-number_text fuel n rest h k =
      ap (λ t. read_value number_of (suc fuel) (t ++ rest)) (printed.is_started n h)
      ∙ (read_value-number fuel (printed.first_unit n) (printed.other_units n ++ rest)
            (number_unit n h)
          ∙ (ap (λ t. read_number number_of (number_part (t ++ rest)))
                (sym (printed.is_started n h))
              ∙ (ap (read_number number_of) (
                    number_part-append (number_text fraction_text n) rest (printed.are_units n h) k)
                  ∙ read_number-digits n (number_text fraction_text n) rest (printed.reads n h))))

  read_key-quote : (key rest : Text) → read_key (quote key ++ b':' ∷ rest) ≡ some (key, rest)
  read_key-quote key rest =
      let (written, found) = read_string-quote key (b':' ∷ rest) in
      ap read_key written ∙ ap colon found

  abbrev after_value : ℕ → Text → Read Tree → Read Members
  after_value fuel key read =
      read_then read (λ first rest. read_map (member key first) (read_members number_of fuel rest))

  abbrev after_key : ℕ → Read Text → Read Members
  after_key fuel read =
      read_then read (λ key after. after_value fuel key (read_value number_of fuel after))

  mutual
    unfolding read_value stringify tree cost

    pub read_value-stringify :
        (value : Value) (fuel : ℕ) (rest : Text)
        → cost value ≤ fuel
        → is_boundary rest ≡ true
        → read_value number_of fuel (stringify fraction_text value ++ rest)
          ≡ some (tree value, rest)
    read_value-stringify value zero rest h k = absurd (omega (arith, h, positive-cost value))
    read_value-stringify null (suc fuel) rest h k = refl
    read_value-stringify (bool true) (suc fuel) rest h k = refl
    read_value-stringify (bool false) (suc fuel) rest h k = refl
    read_value-stringify (str t) (suc fuel) rest h k =
        let (written, found) = read_string-quote t rest in
        ap (read_value number_of (suc fuel)) written ∙ ap (read_map text) found
    read_value-stringify (num n) (suc fuel) rest h k = elim (Bool-cases (is_finite n)) [
      | inl e ↦ rw e (read_value-number_text fuel n rest e k)
      | inr e ↦ rw e refl
    ]
    read_value-stringify (arr items) (suc fuel) rest h k =
        ap (λ cs. read_map elements (read_elements number_of fuel cs))
          (opened-join b']' (stringify_items fraction_text items) rest (items-start items))
        ∙ ap (read_map elements) (read_elements-items items fuel rest (omega (arith, h)))
    read_value-stringify (obj fields) (suc fuel) rest h k =
        ap (λ cs. read_map members (read_members number_of fuel cs))
          (opened-join b'}' (stringify_fields fraction_text fields) rest (fields-start fields))
        ∙ ap (read_map members) (read_members-fields fields fuel rest (omega (arith, h)))

    read_elements-items :
        (items : Items) (fuel : ℕ) (rest : Text)
        → cost_items items ≤ fuel
        → read_elements number_of fuel (tail b']' (stringify_items fraction_text items) rest)
          ≡ some (tree_items items, rest)
    read_elements-items no_items zero rest h = absurd (omega (arith, h))
    read_elements-items (item v more) zero rest h = absurd (omega (arith, h))
    read_elements-items no_items (suc fuel) rest h = refl
    read_elements-items (item v more) (suc fuel) rest h =
        rw
          (read_value-stringify v fuel (tail b']' (stringify_items fraction_text more) rest)
            (omega (arith, h)) (items-boundary more rest))
          (ap (read_map (element (tree v))) (read_elements-items more fuel rest (omega (arith, h))))

    read_members-fields :
        (fields : Fields) (fuel : ℕ) (rest : Text)
        → cost_fields fields ≤ fuel
        → read_members number_of fuel (tail b'}' (stringify_fields fraction_text fields) rest)
          ≡ some (tree_fields fields, rest)
    read_members-fields end zero rest h = absurd (omega (arith, h))
    read_members-fields (field key v more) zero rest h = absurd (omega (arith, h))
    read_members-fields end (suc fuel) rest h = refl
    read_members-fields (field key v more) (suc fuel) rest h =
        let after = tail b'}' (stringify_fields fraction_text more) rest in
        ap (after_key fuel) (
          ap read_key (append_assoc (quote (units key)) (b':' ∷ stringify fraction_text v) after)
          ∙ read_key-quote (units key) (stringify fraction_text v ++ after))
        ∙ (ap (after_value fuel (units key))
              (read_value-stringify v fuel after (omega (arith, h)) (fields-boundary more rest))
            ∙ ap (read_map (member (units key) (tree v)))
                (read_members-fields more fuel rest (omega (arith, h))))

-- The tree that a canonical text stands for: that of the value with its keys sorted.
abbrev pub canonical_tree : Value → Tree
canonical_tree value = tree (sorted canonical_levels value)

read_ok-text :
    (fraction_text : ℕ → Text) (value : Value) (t : Text)
    → canonicalize_stable_json fraction_text value ≡ ok t
    → canonical_text fraction_text value ≡ t
read_ok-text fraction_text value t h =
    found _ _ (sym (canonicalize_stable_json_lem fraction_text value) ∙ h)
  where
    found :
        (accepted : Bool) (u : Text)
        → Path
            (Result ValidationIssue Text)
            (if accepted then ok u else err invalid_material)
            (ok t)
        → u ≡ t
    found accepted u e = ground (arith, e)

-- Values with the same canonical text are the same but for the order of the keys in objects, if the
-- language prints finite numbers so that they can be read back.
pub canonicalize_stable_json-injective :
    (fraction_text : ℕ → Text) (number_of : Text → Option Number)
    → IsNumberText fraction_text number_of
    → (v w : Value) (t : Text) → canonicalize_stable_json fraction_text v ≡ ok t
    → canonicalize_stable_json fraction_text w ≡ ok t
    → canonical_tree v ≡ canonical_tree w
canonicalize_stable_json-injective fraction_text number_of printed v w t h k =
    let fuel = cost (sorted canonical_levels v) + cost (sorted canonical_levels w) in
    ap tree_of (sym (read_back v fuel h (omega arith)) ∙ read_back w fuel k (omega arith))
  where
    tree_of : Read Tree → Tree
    tree_of none = nothing
    tree_of (some (found, rest)) = found

    read_back :
        (value : Value) (fuel : ℕ)
        → canonicalize_stable_json fraction_text value ≡ ok t
        → cost (sorted canonical_levels value) ≤ fuel
        → read_value number_of fuel (t ++ []) ≡ some (canonical_tree value, [])
    read_back value fuel e enough =
        ap (λ s. read_value number_of fuel (s ++ [])) (sym (read_ok-text fraction_text value t e))
        ∙ read_value-stringify fraction_text number_of printed (sorted canonical_levels value) fuel
            [] enough refl
