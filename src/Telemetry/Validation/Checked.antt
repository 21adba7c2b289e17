-- ===== src/Telemetry/Validation/Checked.antt =====
-- What a field of an event has that one check of validation.ts lets pass.
use kootha.Prelude.{
  ℕ, ◌≤◌, ◌≡◌, refl, ap, Bool, true, false, not, Option, none, some, List, [], ◌∷◌, ◌++◌, arith,
  if◌then◌else◌, length, All,
}
use kootha.Prelude.Json.{Text, Value, Fields, obj, arr, str, num, bool, null}
use kootha.Prelude.Text.{text_eq-same}
use kootha.Work.Execution.{is_filled}
use kootha.Telemetry.Timestamp.{parse_strict_utc_iso_timestamp}
use kootha.Telemetry.Issue.{ValidationIssue, IssueCode, issue_if}
use kootha.Telemetry.Validation.{is_empty, is_timestamp, validate_text, validate_iso_timestamp}
use kootha.Telemetry.Validation.Parts.{if_object, is_same}
use kootha.Telemetry.Validation.Event.{concat}

abbrev pub IsNone : List ValidationIssue → Type 0
IsNone issues = issues ≡ []

pub append-IsNone : (xs ys : List ValidationIssue) → IsNone (xs ++ ys) → IsNone xs × IsNone ys
append-IsNone [] ys h = (refl, h)
append-IsNone (x ∷ xs) ys h = absurd (ground (arith, h))

pub concat-IsNone : (parts : List (List ValidationIssue)) → IsNone (concat parts) → All IsNone parts
concat-IsNone [] h = tt
concat-IsNone (part ∷ parts) h =
    let (first, others) = append-IsNone part (concat parts) h in (first, concat-IsNone parts others)

pub issue_if-none :
    (wrong : Bool) (path : Text) (code : IssueCode)
    → IsNone (issue_if wrong path code)
    → wrong ≡ false
issue_if-none true path code h = absurd (ground (arith, h))
issue_if-none false path code h = refl

pub is_same-same : (a b : Option Value) → is_same a b ≡ true → a ≡ b
unfolding is_same
is_same-same none b h = ground (arith, h)
is_same-same (some null) b h = ground (arith, h)
is_same-same (some (bool v)) b h = ground (arith, h)
is_same-same (some (num n)) b h = ground (arith, h)
is_same-same (some (obj f)) b h = absurd (ground (arith, h))
is_same-same (some (arr f)) b h = absurd (ground (arith, h))
is_same-same (some (str t)) (some (str u)) h = ap (λ v. some (str v)) (text_eq-same t u h)
is_same-same (some (str t)) none h = absurd (ground (arith, h))
is_same-same (some (str t)) (some null) h = absurd (ground (arith, h))
is_same-same (some (str t)) (some (bool v)) h = absurd (ground (arith, h))
is_same-same (some (str t)) (some (num v)) h = absurd (ground (arith, h))
is_same-same (some (str t)) (some (obj v)) h = absurd (ground (arith, h))
is_same-same (some (str t)) (some (arr v)) h = absurd (ground (arith, h))

-- A text that is not blank and not too long.
abbrev pub HasText : Option Value → ℕ → Type 0
HasText value maximum =
    (text : Text) × (value ≡ some (str text)) × (is_filled text ≡ true) × (length text ≤ maximum)

pub validate_text-HasText :
    (value : Option Value) (path : Text) (maximum : ℕ)
    → IsNone (validate_text value path maximum)
    → HasText value maximum
unfolding validate_text
validate_text-HasText (some (str t)) path maximum h =
    (t, refl, ground (arith, h), ground (arith, h))
validate_text-HasText none path maximum h = absurd (ground (arith, h))
validate_text-HasText (some null) path maximum h = absurd (ground (arith, h))
validate_text-HasText (some (bool v)) path maximum h = absurd (ground (arith, h))
validate_text-HasText (some (num v)) path maximum h = absurd (ground (arith, h))
validate_text-HasText (some (obj v)) path maximum h = absurd (ground (arith, h))
validate_text-HasText (some (arr v)) path maximum h = absurd (ground (arith, h))

-- A timestamp and its instant.
abbrev pub HasTime : Option Value → Type 0
HasTime value =
    (t : Value) × (n : ℕ) × (value ≡ some t) × (parse_strict_utc_iso_timestamp t ≡ some n)

pub is_timestamp-HasTime : (value : Option Value) → is_timestamp value ≡ true → HasTime value
is_timestamp-HasTime none h = absurd (ground (arith, h))
is_timestamp-HasTime (some t) h = read (parse_strict_utc_iso_timestamp t) refl
  where
    read : (o : Option ℕ) → parse_strict_utc_iso_timestamp t ≡ o → HasTime (some t)
    read none e = absurd (ground (arith, h, e))
    read (some n) e = (t, n, refl, e)

pub validate_iso_timestamp-HasTime :
    (value : Option Value) (path : Text)
    → IsNone (validate_iso_timestamp value path)
    → HasTime value
unfolding validate_iso_timestamp
validate_iso_timestamp-HasTime value path h =
    is_timestamp-HasTime value (checked (validate_text value path 40) h)
  where
    checked :
        (issues : List ValidationIssue)
        → IsNone (
            if is_empty issues
            then issue_if (not (is_timestamp value)) path IssueCode.invalid_value
            else issues)
        → is_timestamp value ≡ true
    checked [] k = ground (arith, k)
    checked (i ∷ is) k = absurd (ground (arith, k))

pub if_object-object :
    (value : Option Value) (path : Text) (check : Fields → List ValidationIssue)
    → IsNone (if_object value path check)
    → (fields : Fields) × (value ≡ some (obj fields))
if_object-object (some (obj fields)) path check h = (fields, refl)
if_object-object none path check h = absurd (ground (arith, h))
if_object-object (some null) path check h = absurd (ground (arith, h))
if_object-object (some (bool v)) path check h = absurd (ground (arith, h))
if_object-object (some (num v)) path check h = absurd (ground (arith, h))
if_object-object (some (str v)) path check h = absurd (ground (arith, h))
if_object-object (some (arr v)) path check h = absurd (ground (arith, h))
