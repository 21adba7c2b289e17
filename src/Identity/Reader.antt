-- ===== src/Identity/Reader.antt =====
-- A reader of the values of JSON, and that it reads what JSON.stringify writes. `number_of` stands for the
-- language's reading of a number.
use kootha.Prelude.{
  ℕ, zero, suc, ◌+◌, ◌≡◌, refl, Bool, true, false, ◌&&◌, ◌||◌, Option, none, some, [], ◌∷◌,
  if◌then◌else◌, leb, ◌==◌, codes, every,
}
use kootha.Prelude.Number.{Number, is_finite}
use kootha.Prelude.Json.{
  Text, Value, obj, arr, str, num, bool, null, Fields, end, field, Items, no_items, item,
}
use kootha.Prelude.Print.{units, number_text}
use kootha.Identity.Strings.{Read, normal, read_string}

-- A value of JSON with its keys as texts.
mutual
  pub data Tree : Type 0 where
    members : Members → Tree
    elements : Elements → Tree
    text : Text → Tree
    number : Number → Tree
    truth : Bool → Tree
    nothing : Tree

  pub data Members : Type 0 where
    no_members : Members
    member : Text → Tree → Members → Members

  pub data Elements : Type 0 where
    no_elements : Elements
    element : Tree → Elements → Elements

-- What JSON.stringify writes of a value: a number that is not finite is written as null.
unfoldable mutual
  unfolding units

  pub tree : Value → Tree
  tree (obj fields) = members (tree_fields fields)
  tree (arr items) = elements (tree_items items)
  tree (str t) = text t
  tree (num n) = if is_finite n then number n else nothing
  tree (bool b) = truth b
  tree null = nothing

  pub tree_fields : Fields → Members
  tree_fields end = no_members
  tree_fields (field key value rest) = member (units key) (tree value) (tree_fields rest)

  pub tree_items : Items → Elements
  tree_items no_items = no_elements
  tree_items (item value rest) = element (tree value) (tree_items rest)

-- What a value starts with.
pub data Start : Type 0 where
  quote_start bracket_start brace_start true_start false_start null_start number_start : Start

abbrev pub start_of : ℕ → Start
start_of c =
    if c == b'"'
    then quote_start
    else if c == b'['
    then bracket_start
    else if c == b'{'
    then brace_start
    else if c == b't'
    then true_start
    else if c == b'f'
    then false_start
    else if c == b'n'
    then null_start
    else number_start

abbrev pub read_map : {A B : Type 0} → (A → B) → Read A → Read B
read_map f none = none
read_map f (some (a, rest)) = some (f a, rest)

abbrev pub read_then : {A B : Type 0} → Read A → (A → Text → Read B) → Read B
read_then none next = none
read_then (some (a, rest)) next = next a rest

-- The rest of a text after the expected part.
abbrev pub read_literal : Text → Text → Option Text
read_literal [] rest = some rest
read_literal (e ∷ es) [] = none
read_literal (e ∷ es) (c ∷ cs) = if e == c then read_literal es cs else none

abbrev pub literal : Tree → Option Text → Read Tree
literal t none = none
literal t (some rest) = some (t, rest)

-- Digits, signs, the point and the exponent.
abbrev pub is_number_unit : ℕ → Bool
is_number_unit c =
    leb 48 c && leb c 57 || (c == b'-' || (c == b'+' || (c == b'.' || (c == b'e' || c == b'E'))))

abbrev pub push_left : ℕ → Text × Text → Text × Text
push_left c (left, right) = (c ∷ left, right)

abbrev pub number_part : Text → Text × Text
number_part [] = ([], [])
number_part (c ∷ cs) = if is_number_unit c then push_left c (number_part cs) else ([], c ∷ cs)

abbrev pub read_number : (Text → Option Number) → Text × Text → Read Tree
read_number number_of (digits, rest) = elim (number_of digits) [
  | none ↦ none
  | some n ↦ some (number n, rest)
]

-- The opening of a collection: its items are read as if a comma stood before the first.
abbrev pub opened : ℕ → Text → Text
opened close [] = []
opened close (c ∷ cs) = if c == close then c ∷ cs else b',' ∷ c ∷ cs

abbrev pub colon : Read Text → Read Text
colon none = none
colon (some (key, [])) = none
colon (some (key, c ∷ cs)) = if c == b':' then some (key, cs) else none

abbrev pub read_key : Text → Read Text
read_key [] = none
read_key (c ∷ cs) = if c == b'"' then colon (read_string normal cs) else none

unfoldable mutual
  unfolding read_string

  pub read_value : (Text → Option Number) → ℕ → Text → Read Tree
  read_value number_of zero cs = none
  read_value number_of (suc fuel) [] = none
  read_value number_of (suc fuel) (c ∷ cs) = elim (start_of c) [
    | quote_start ↦ read_map text (read_string normal cs)
    | bracket_start ↦ read_map elements (read_elements number_of fuel (opened b']' cs))
    | brace_start ↦ read_map members (read_members number_of fuel (opened b'}' cs))
    | true_start ↦ literal (truth true) (read_literal (codes "rue") cs)
    | false_start ↦ literal (truth false) (read_literal (codes "alse") cs)
    | null_start ↦ literal nothing (read_literal (codes "ull") cs)
    | number_start ↦ read_number number_of (number_part (c ∷ cs))
  ]

  pub read_elements : (Text → Option Number) → ℕ → Text → Read Elements
  read_elements number_of zero cs = none
  read_elements number_of (suc fuel) [] = none
  read_elements number_of (suc fuel) (c ∷ cs) = elim (c == b',') [
    | false ↦ if c == b']' then some (no_elements, cs) else none
    | true ↦
        read_then (read_value number_of fuel cs)
          (λ first rest. read_map (element first) (read_elements number_of fuel rest))
  ]

  pub read_members : (Text → Option Number) → ℕ → Text → Read Members
  read_members number_of zero cs = none
  read_members number_of (suc fuel) [] = none
  read_members number_of (suc fuel) (c ∷ cs) = elim (c == b',') [
    | false ↦ if c == b'}' then some (no_members, cs) else none
    | true ↦ read_then (read_key cs) (λ key after.
        read_then (read_value number_of fuel after)
          (λ first rest. read_map (member key first) (read_members number_of fuel rest)))
  ]

-- How the language reads and prints a number: what is printed is read as the number it was, and
-- consists of digits, signs, a point and an exponent.
pub record IsNumberText (fraction_text : ℕ → Text) (number_of : Text → Option Number) : Type 0 where
  pub reads : (n : Number) → is_finite n ≡ true → number_of (number_text fraction_text n) ≡ some n
  pub are_units :
      (n : Number) → is_finite n ≡ true → every is_number_unit (number_text fraction_text n) ≡ true
  pub first_unit : Number → ℕ
  pub other_units : Number → Text
  pub is_started :
      (n : Number) → is_finite n ≡ true → number_text fraction_text n ≡ first_unit n ∷ other_units n

-- The fuel that reading a value takes.
unfoldable mutual
  pub cost : Value → ℕ
  cost (obj fields) = suc (cost_fields fields)
  cost (arr items) = suc (cost_items items)
  cost _ = 1

  pub cost_fields : Fields → ℕ
  cost_fields end = 1
  cost_fields (field key value rest) = suc (cost value + cost_fields rest)

  pub cost_items : Items → ℕ
  cost_items no_items = 1
  cost_items (item value rest) = suc (cost value + cost_items rest)

sample :
    read_value (λ digits. none) 20 (codes "{\"a\":[true,null],\"b\":\"x\"}")
    ≡ some (
      members (
          member
            (codes "a")
            (elements (element (truth true) (element nothing no_elements)))
            (member (codes "b") (text (codes "x")) no_members)),
      [],
    )
unfolding read_value
sample = refl
