-- ===== src/Telemetry/Timestamp/Exact.antt =====
-- timestamp.ts takes exactly the real instants of the calendar.
use kootha.Prelude.{
  ℕ, zero, suc, ◌+◌, ◌-◌, ◌*◌, ◌%◌, ◌/◌, ◌≤◌, ◌<◌, ◌≡◌, refl, ap, ◌∙◌, inl, inr, ◌⊎◌, Bool, true,
  false, ◌&&◌, List, [], ◌∷◌, arith, ltb, leb, ◌==◌, Bool-cases, All,
}
use kootha.Telemetry.Calendar.{
  DateTime, month_length, month_lengths, days_of_months, find_month, find_year, find_month-days,
  found_year, from_parts, find_month-length, day_of_year_bound, total_months, to_ms, from_ms,
  day_ms, time_ms, days_before,
}
use kootha.Telemetry.Timestamp.{is_parsed, same_date_time}

-- A real instant of the calendar.
unfoldable pub is_real : DateTime → Bool
is_real t =
    leb 1 t.month
    && (leb t.month 12
        && (leb 1 t.day
            && (leb t.day (month_length (month_lengths t.year) (t.month - 1))
                && (ltb t.hour 24 && (ltb t.minute 60 && ltb t.second 60)))))

-- The parts of a count of milliseconds.
split_days :
    (d t : ℕ) → t < day_ms → ((d * day_ms + t) / day_ms ≡ d) × ((d * day_ms + t) % day_ms ≡ t)
split_days d t h = (omega arith, omega arith)

split_time :
    (h m s f : ℕ)
    → m < 60
    → s < 60
    → f < 1000
    → ((h * 3600000 + m * 60000 + s * 1000 + f) / 3600000 ≡ h)
      × ((h * 3600000 + m * 60000 + s * 1000 + f) % 3600000 / 60000 ≡ m)
      × ((h * 3600000 + m * 60000 + s * 1000 + f) % 60000 / 1000 ≡ s)
      × ((h * 3600000 + m * 60000 + s * 1000 + f) % 1000 ≡ f)
split_time h m s f hm hs hf = (omega arith, omega arith, omega arith, omega arith)

-- The month and the day that `Date` makes of a date whose day may lie past the end of its month.
abbrev normalized_day : DateTime → ℕ × ℕ
normalized_day t =
    find_month (month_lengths t.year) 0
      (days_of_months (month_lengths t.year) (t.month - 1) + (t.day - 1))

time_bound :
    (t : DateTime)
    → t.hour < 24
    → t.minute < 60
    → t.second < 60
    → t.millisecond < 1000
    → time_ms t < day_ms
time_bound t h m s f = omega arith

days_part :
    (t : DateTime)
    → t.hour < 24
    → t.minute < 60
    → t.second < 60
    → t.millisecond < 1000
    → to_ms t / day_ms ≡ days_before t
unfolding to_ms
days_part t h m s f = (split_days (days_before t) (time_ms t) (time_bound t h m s f)).0

time_part :
    (t : DateTime)
    → t.hour < 24
    → t.minute < 60
    → t.second < 60
    → t.millisecond < 1000
    → to_ms t % day_ms ≡ time_ms t
unfolding to_ms
time_part t h m s f = (split_days (days_before t) (time_ms t) (time_bound t h m s f)).1

abbrev day_of_year : DateTime → ℕ
day_of_year t = days_of_months (month_lengths t.year) (t.month - 1) + (t.day - 1)

year_part :
    (t : DateTime)
    → t.year ≤ 9999
    → 1 ≤ t.month
    → t.month ≤ 12
    → 1 ≤ t.day
    → t.day ≤ 31
    → find_year 10000 0 (days_before t) ≡ (t.year, day_of_year t)
year_part t y m1 m12 d1 d31 =
    found_year t.year (day_of_year t) (omega arith)
      (day_of_year_bound t.year (t.month - 1) (t.day - 1) (omega arith) (omega arith))

parts_same :
    (t : DateTime)
    → t.minute < 60
    → t.second < 60
    → t.millisecond < 1000
    → from_parts (t.year, day_of_year t) (time_ms t)
      ≡ record t { month = (normalized_day t).0 + 1; day = (normalized_day t).1 + 1 }
parts_same t m s f =
    let (hours, minutes, seconds, fraction) =
      split_time t.hour t.minute t.second t.millisecond m s f in
    rw (hours, minutes, seconds, fraction) refl

from_ms-to_ms :
    (t : DateTime)
    → t.year ≤ 9999
    → 1 ≤ t.month
    → t.month ≤ 12
    → 1 ≤ t.day
    → t.day ≤ 31
    → t.hour < 24
    → t.minute < 60
    → t.second < 60
    → t.millisecond < 1000
    → from_ms (to_ms t)
      ≡ record t { month = (normalized_day t).0 + 1; day = (normalized_day t).1 + 1 }
unfolding from_ms
from_ms-to_ms t y m1 m12 d1 d31 h m s f =
    rw (days_part t h m s f, time_part t h m s f)
      (ap (λ p. from_parts p (time_ms t)) (year_part t y m1 m12 d1 d31) ∙ parts_same t m s f)

abbrev IsDate : DateTime → Type 0
IsDate t = (1 ≤ t.month) × (t.month ≤ 12) × (1 ≤ t.day) × (t.day ≤ 31)

abbrev IsTime : DateTime → Type 0
IsTime t = (t.hour < 24) × (t.minute < 60) × (t.second < 60)

parsed_cases : (t : DateTime) → is_parsed t ≡ true → IsDate t × (IsTime t ⊎ (t.hour ≡ 24))
unfolding is_parsed
parsed_cases t h = ground arith

month_length-All : (ls : List ℕ) (m : ℕ) → All (λ l. l ≤ 31) ls → month_length ls m ≤ 31
unfolding month_length
month_length-All [] m h = omega arith
month_length-All (l ∷ ls) zero h = h.0
month_length-All (l ∷ ls) (suc m) h = month_length-All ls m h.1

months-All : (y : ℕ) → All (λ l. l ≤ 31) (month_lengths y)
months-All y = ground arith

short_months : (y m : ℕ) → month_length (month_lengths y) m ≤ 31
short_months y m = month_length-All (month_lengths y) m (months-All y)

real_parsed : (t : DateTime) → is_parsed t ≡ false → is_real t ≡ false
unfolding is_parsed is_real
real_parsed t h = ground (arith, short_months t.year (t.month - 1))

-- A date is normalized to itself exactly if its month has that day.
same_day :
    (t : DateTime)
    → IsDate t
    → ((normalized_day t).0 + 1 == t.month && (normalized_day t).1 + 1 == t.day)
      ≡ leb t.day (month_length (month_lengths t.year) (t.month - 1))
same_day t (m1, m12, d1, d31) =
    let lengths = month_lengths t.year in
    elim (Bool-cases (leb t.day (month_length lengths (t.month - 1)))) [
      | inl e ↦
          let found = find_month-days lengths (t.month - 1) 0 (t.day - 1) (ground (arith, e)) in
          ground (arith, e, ap (λ p. p.0) found, ap (λ p. p.1) found)
      | inr e ↦ ground (
        arith,
        e,
        find_month-length lengths 0 (day_of_year t) (t.month - 1) (t.day - 1),
        total_months t.year,
        day_of_year_bound t.year (t.month - 1) (t.day - 1),
      )
    ]

not_midnight : (t : DateTime) → t.hour ≡ 24 → same_date_time (from_ms (to_ms t)) t ≡ false
unfolding same_date_time from_ms
not_midnight t h = ground (arith, h, hour_bound (to_ms t))
  where
    hour_bound : (ms : ℕ) → ms % day_ms / 3600000 < 24
    hour_bound ms = omega arith

kept_date :
    (t : DateTime)
    → t.year ≤ 9999
    → t.millisecond < 1000
    → IsDate t
    → IsTime t
    → same_date_time (from_ms (to_ms t)) t
      ≡ leb t.day (month_length (month_lengths t.year) (t.month - 1))
unfolding same_date_time
kept_date t y f (m1, m12, d1, d31) (h, m, s) =
    rw (from_ms-to_ms t y m1 m12 d1 d31 h m s f) (fields _ _ t ∙ same_day t (m1, m12, d1, d31))
  where
    fields :
        (a b : ℕ) (u : DateTime)
        → same_date_time (record u { month = a; day = b }) u ≡ (a == u.month && b == u.day)
    fields a b u = ground arith

real_time :
    (t : DateTime)
    → IsDate t
    → IsTime t
    → is_real t ≡ leb t.day (month_length (month_lengths t.year) (t.month - 1))
unfolding is_real
real_time t (m1, m12, d1, d31) (h, m, s) = ground arith

no_real_24 : (t : DateTime) → t.hour ≡ 24 → is_real t ≡ false
unfolding is_real
no_real_24 t h = ground (arith, h)

-- The comparison with the printed date takes exactly the real instants.
pub checked_real :
    (t : DateTime)
    → t.year ≤ 9999
    → t.millisecond < 1000
    → (is_parsed t && same_date_time (from_ms (to_ms t)) t) ≡ is_real t
checked_real t y f = elim (Bool-cases (is_parsed t)) [
  | inr e ↦ ground (arith, e, real_parsed t e)
  | inl e ↦
      let (date, time) = parsed_cases t e in
      elim time [
        | inl time ↦ ground (arith, e, kept_date t y f date time, real_time t date time)
        | inr h ↦ ground (arith, e, not_midnight t h, no_real_24 t h)
      ]
]
