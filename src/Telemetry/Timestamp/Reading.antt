-- ===== src/Telemetry/Timestamp/Reading.antt =====
-- What the pattern of timestamp.ts reads, and the whole of its reading.
use kootha.Prelude.{
  ℕ, zero, suc, ◌+◌, ◌-◌, ◌*◌, ◌≤◌, ◌<◌, ◌≡◌, refl, Bool, true, false, ◌&&◌, Option, none, some, [],
  ◌∷◌, arith, if◌then◌else◌, ltb, leb, length,
}
use kootha.Prelude.Json.{Text, str}
use kootha.Telemetry.Calendar.{DateTime, to_ms}
use kootha.Telemetry.Timestamp.{
  match_strict_utc_iso, Group, after_second, after_minute, after_hour, after_day, after_month,
  after_year, read_digits, read_char, read_field, read_end, read_fraction, first_of, ended, at_end,
  check_date_time, parse_strict_utc_iso_timestamp, and_then,
}
use kootha.Telemetry.Timestamp.Exact.{is_real, checked_real}

-- What holds of the value, if there is one.
abbrev Holds : {A : Type 0} → (A → Type 0) → Option A → Type 0
Holds P none = Unit
Holds P (some a) = P a

and_then-Holds :
    {A B : Type 0} (P : A → Type 0) (Q : B → Type 0) (o : Option A) (f : A → Option B)
    → Holds P o
    → ((a : A) → P a → Holds Q (f a))
    → Holds Q (and_then o f)
and_then-Holds P Q none f h k = tt
and_then-Holds P Q (some a) f h k = k a h

first_of-Holds : (P : ℕ → Type 0) (o p : Option ℕ) → Holds P o → Holds P p → Holds P (first_of o p)
first_of-Holds P none p h k = k
first_of-Holds P (some a) p h k = h

abbrev IsBelow : ℕ → ℕ × Text → Type 0
IsBelow bound r = r.0 < bound

-- The first number that is too large for `n` digits after the number `v`.
abbrev limit : ℕ → ℕ → ℕ
limit zero v = v + 1
limit (suc n) v = limit n (v * 10 + 9)

limit_monotone : (n v w : ℕ) → v ≤ w → limit n v ≤ limit n w
limit_monotone zero v w h = omega arith
limit_monotone (suc n) v w h = limit_monotone n (v * 10 + 9) (w * 10 + 9) (omega arith)

IsBelow-more : (a b : ℕ) (o : Option (ℕ × Text)) → a ≤ b → Holds (IsBelow a) o → Holds (IsBelow b) o
IsBelow-more a b none l h = tt
IsBelow-more a b (some r) l h = omega (arith, h, l)

read_digits-Holds : (n v : ℕ) (text : Text) → Holds (IsBelow (limit n v)) (read_digits n v text)
unfolding read_digits
read_digits-Holds zero v text = omega arith
read_digits-Holds (suc n) v [] = tt
read_digits-Holds (suc n) v (c ∷ text) =
    digit (limit n (v * 10 + 9)) (read_digits n (v * 10 + (c - 48)) text) (leb 48 c && leb c 57)
      (λ e.
        IsBelow-more (limit n (v * 10 + (c - 48))) (limit n (v * 10 + 9)) _
          (limit_monotone n _ _ (ground (arith, e))) (read_digits-Holds n (v * 10 + (c - 48)) text))
  where
    digit :
        (b : ℕ) (o : Option (ℕ × Text)) (is_digit : Bool)
        → (is_digit ≡ true → Holds (IsBelow b) o)
        → Holds (IsBelow b) (if is_digit then o else none)
    digit b o true h = h refl
    digit b o false h = tt

anything : {A : Type 0} → (o : Option A) → Holds (λ a. Unit) o
anything none = tt
anything (some a) = tt

read_field-Holds :
    (n after : ℕ) (text : Text) → Holds (IsBelow (limit n 0)) (read_field n after text)
unfolding read_field
read_field-Holds n after text =
    and_then-Holds (IsBelow (limit n 0)) (IsBelow (limit n 0)) (read_digits n 0 text)
      (λ r. and_then (read_char after r.1) (λ rest. some (r.0, rest))) (read_digits-Holds n 0 text)
      (λ r h.
        and_then-Holds (λ rest. Unit) (IsBelow (limit n 0)) (read_char after r.1)
          (λ rest. some (r.0, rest)) (anything (read_char after r.1)) (λ rest u. h))

ended-Holds :
    (bound scale : ℕ) (o : Option (ℕ × Text))
    → ((n : ℕ) → n < bound → n * scale < 1000)
    → Holds (IsBelow bound) o
    → Holds (λ n. n < 1000) (ended scale o)
ended-Holds bound scale none scaled h = tt
ended-Holds bound scale (some (n, c ∷ rest)) scaled h = tt
ended-Holds bound scale (some (n, [])) scaled h = scaled n h

read_end-Holds : (text : Text) → Holds (λ n. n < 1000) (read_end text)
unfolding read_end read_fraction
read_end-Holds text =
    first_of-Holds (λ n. n < 1000) _ _
      (and_then-Holds (λ rest. Unit) (λ n. n < 1000) (read_char b'Z' text) at_end
        (anything (read_char b'Z' text)) (λ rest u. closed rest))
      (and_then-Holds (λ rest. Unit) (λ n. n < 1000) (read_char b'.' text) read_fraction
        (anything (read_char b'.' text))
        (λ rest u.
          first_of-Holds (λ n. n < 1000) _ _
            (ended-Holds 10 100 (read_field 1 b'Z' rest) (λ n h. omega arith)
              (read_field-Holds 1 b'Z' rest))
            (first_of-Holds (λ n. n < 1000) _ _
              (ended-Holds 100 10 (read_field 2 b'Z' rest) (λ n h. omega arith)
                (read_field-Holds 2 b'Z' rest))
              (ended-Holds 1000 1 (read_field 3 b'Z' rest) (λ n h. omega arith)
                (read_field-Holds 3 b'Z' rest)))))
  where
    closed : (rest : Text) → Holds (λ n. n < 1000) (at_end rest)
    closed [] = omega arith
    closed (c ∷ rest) = tt

abbrev IsShort : DateTime → Type 0
IsShort t = (t.year ≤ 9999) × (t.millisecond < 1000)

ending :
    (year month day hour minute second : Group)
    → IsBelow 10000 year
    → Holds IsShort (after_second year month day hour minute second)
ending year month day hour minute second y =
    and_then-Holds (λ n. n < 1000) IsShort (read_end second.1)
      (λ millisecond. some (record {
        year = year.0;
        month = month.0;
        day = day.0;
        hour = hour.0;
        minute = minute.0;
        second = second.0;
        millisecond = millisecond;
      }))
      (read_end-Holds second.1) (λ ms f. (omega (arith, y), f))

match-Holds : (text : Text) → Holds IsShort (match_strict_utc_iso text)
unfolding match_strict_utc_iso
match-Holds text =
    and_then-Holds (IsBelow 10000) IsShort (read_field 4 b'-' text) after_year
      (read_field-Holds 4 b'-' text)
      (λ year y. next (read_field 2 b'-' year.1) (after_month year) (λ month.
        next (read_field 2 b'T' month.1) (after_day year month) (λ day.
          next (read_field 2 b':' day.1) (after_hour year month day) (λ hour.
            next (read_field 2 b':' hour.1) (after_minute year month day hour) (λ minute.
              next (read_digits 2 0 minute.1) (after_second year month day hour minute)
                (λ second. ending year month day hour minute second y))))))
  where
    next :
        (o : Option (ℕ × Text)) (f : ℕ × Text → Option DateTime)
        → ((r : ℕ × Text) → Holds IsShort (f r))
        → Holds IsShort (and_then o f)
    next o f h = and_then-Holds (λ r. Unit) IsShort o f (anything o) (λ r u. h r)

check-real :
    (o : Option DateTime)
    → Holds IsShort o
    → and_then o check_date_time ≡ and_then o (λ t. if is_real t then some (to_ms t) else none)
unfolding check_date_time
check-real none h = refl
check-real (some t) h = rw (checked_real t h.0 h.1) refl

-- A timestamp is read exactly if it has at most 40 characters, matches the pattern, and is a real instant
-- of the Gregorian calendar: its month has that day, and its hour is below 24. Its value is then the
-- count of milliseconds of that instant.
pub parse_strict_utc_iso_timestamp_lem :
    (text : Text)
    → parse_strict_utc_iso_timestamp (str text) ≡ (
        if ltb 40 (length text)
        then none
        else and_then (match_strict_utc_iso text) (λ t. if is_real t then some (to_ms t) else none))
unfolding parse_strict_utc_iso_timestamp
parse_strict_utc_iso_timestamp_lem text =
    rw (check-real (match_strict_utc_iso text) (match-Holds text)) refl
