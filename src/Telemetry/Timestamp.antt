-- ===== src/Telemetry/Timestamp.antt =====
-- physicalTelemetry/timestamp.ts: the strict reading of a UTC timestamp. `Date.parse` takes any day up to
-- the 31st and 24:00:00, and the printed date is compared with what was read: field by field, which is
-- the same as text by text, since every field is printed in a fixed width.
pub mod Exact
pub mod Reading
use kootha.Prelude.{
  ℕ, zero, suc, ◌+◌, ◌-◌, ◌*◌, ◌%◌, ◌/◌, ◌≤◌, ◌<◌, ◌≡◌, refl, sym, ap, ◌∙◌, subst, inl, inr, Bool,
  true, false, not, ◌&&◌, ◌||◌, Option, none, some, List, [], ◌∷◌, arith, if◌then◌else◌, ltb, leb,
  ◌==◌, length, Bool-cases,
}
use kootha.Prelude.Json.{Text, Value, str}
use kootha.Telemetry.Calendar.{
  DateTime, month_length, month_lengths, days_of_months, days_of_years, find_month, find_year,
  find_month-days, found_year, from_parts, find_month-length, day_of_year_bound, total_months,
  total, year_length, to_ms, from_ms, day_ms, time_ms, days_before,
}

abbrev pub and_then : {A B : Type 0} → Option A → (A → Option B) → Option B
and_then none f = none
and_then (some a) f = f a

-- `n` decimal digits, read onto the number before them.
unfoldable pub read_digits : ℕ → ℕ → Text → Option (ℕ × Text)
read_digits zero value text = some (value, text)
read_digits (suc n) value [] = none
read_digits (suc n) value (c ∷ text) =
    let rest = read_digits n (value * 10 + (c - 48)) text in
    if leb 48 c && leb c 57 then rest else none

unfoldable pub read_char : ℕ → Text → Option Text
read_char expected [] = none
read_char expected (c ∷ text) = if c == expected then some text else none

-- A field: its digits, and the character after them.
unfoldable pub read_field : ℕ → ℕ → Text → Option (ℕ × Text)
unfolding read_digits read_char
read_field n after text =
    and_then (read_digits n 0 text) (λ r. and_then (read_char after r.1) (λ rest. some (r.0, rest)))

-- The milliseconds of a fraction with one to three digits, and the end of the text.
abbrev pub first_of : Option ℕ → Option ℕ → Option ℕ
first_of (some a) o = some a
first_of none o = o

abbrev pub ended : ℕ → Option (ℕ × Text) → Option ℕ
ended scale none = none
ended scale (some (n, [])) = some (n * scale)
ended scale (some (n, c ∷ rest)) = none

unfoldable pub read_fraction : Text → Option ℕ
unfolding read_field
read_fraction text =
    first_of (ended 100 (read_field 1 b'Z' text))
      (first_of (ended 10 (read_field 2 b'Z' text)) (ended 1 (read_field 3 b'Z' text)))

abbrev pub at_end : Text → Option ℕ
at_end [] = some 0
at_end (c ∷ text) = none

-- The rest of the text after the seconds.
unfoldable pub read_end : Text → Option ℕ
unfolding read_fraction read_char
read_end text =
    first_of (and_then (read_char b'Z' text) at_end) (and_then (read_char b'.' text) read_fraction)

-- The groups of the pattern, each after those before it.
abbrev pub Group : Type 0
Group = ℕ × Text

abbrev pub after_second : Group → Group → Group → Group → Group → Group → Option DateTime
after_second year month day hour minute second = and_then (read_end second.1) (λ millisecond.
    some (record {
      year = year.0;
      month = month.0;
      day = day.0;
      hour = hour.0;
      minute = minute.0;
      second = second.0;
      millisecond = millisecond;
    }))

abbrev pub after_minute : Group → Group → Group → Group → Group → Option DateTime
after_minute year month day hour minute =
    and_then (read_digits 2 0 minute.1) (after_second year month day hour minute)

abbrev pub after_hour : Group → Group → Group → Group → Option DateTime
after_hour year month day hour =
    and_then (read_field 2 b':' hour.1) (after_minute year month day hour)

abbrev pub after_day : Group → Group → Group → Option DateTime
after_day year month day = and_then (read_field 2 b':' day.1) (after_hour year month day)

abbrev pub after_month : Group → Group → Option DateTime
after_month year month = and_then (read_field 2 b'T' month.1) (after_day year month)

abbrev pub after_year : Group → Option DateTime
after_year year = and_then (read_field 2 b'-' year.1) (after_month year)

-- `STRICT_UTC_ISO_PATTERN`, with the numbers of its groups.
unfoldable pub match_strict_utc_iso : Text → Option DateTime
match_strict_utc_iso text = and_then (read_field 4 b'-' text) after_year

-- Whether `Date.parse` finds an instant.
unfoldable pub is_parsed : DateTime → Bool
is_parsed t =
    leb 1 t.month
    && (leb t.month 12
        && (leb 1 t.day
            && (leb t.day 31
                && ((ltb t.hour 24 && (ltb t.minute 60 && ltb t.second 60))
                    || (t.hour == 24
                        && (t.minute == 0 && (t.second == 0 && t.millisecond == 0)))))))

unfoldable pub same_date_time : DateTime → DateTime → Bool
same_date_time s t =
    s.year == t.year
    && (s.month == t.month
        && (s.day == t.day
            && (s.hour == t.hour
                && (s.minute == t.minute
                    && (s.second == t.second && s.millisecond == t.millisecond)))))

-- `parseStrictUtcIsoTimestampV1` after the pattern.
unfoldable pub check_date_time : DateTime → Option ℕ
check_date_time t =
    if is_parsed t && same_date_time (from_ms (to_ms t)) t then some (to_ms t) else none

unfoldable pub parse_strict_utc_iso_timestamp : Value → Option ℕ
parse_strict_utc_iso_timestamp (str text) =
    if ltb 40 (length text) then none else and_then (match_strict_utc_iso text) check_date_time
parse_strict_utc_iso_timestamp _ = none
