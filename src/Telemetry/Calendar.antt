-- ===== src/Telemetry/Calendar.antt =====
-- The calendar behind `Date`: the milliseconds of a time, counted from the start of the year 0 in UTC,
-- and the time of a count of milliseconds.
use kootha.Prelude.{
  ℕ, zero, suc, ◌+◌, ◌-◌, ◌*◌, ◌%◌, ◌/◌, ◌≤◌, ◌<◌, ◌≡◌, sym, ap, subst, ◌∙◌, Bool, false, not, ◌&&◌,
  ◌||◌, List, [], ◌∷◌, arith, if◌then◌else◌, ltb, ◌==◌, length,
}

pub record DateTime : Type 0 where
  pub year : ℕ
  pub month : ℕ
  pub day : ℕ
  pub hour : ℕ
  pub minute : ℕ
  pub second : ℕ
  pub millisecond : ℕ

unfoldable pub is_leap : ℕ → Bool
is_leap y = y % 4 == 0 && (not (y % 100 == 0) || y % 400 == 0)

abbrev pub year_length : ℕ → ℕ
year_length y = if is_leap y then 366 else 365

-- The lengths of the months from January on.
abbrev pub month_lengths : ℕ → List ℕ
month_lengths y =
    31 ∷ (if is_leap y then 29 else 28) ∷ 31 ∷ 30 ∷ 31 ∷ 30 ∷ 31 ∷ 31 ∷ 30 ∷ 31 ∷ 30 ∷ 31 ∷ []

-- The days of `n` years from `start` on.
unfoldable pub days_of_years : ℕ → ℕ → ℕ
days_of_years start zero = 0
days_of_years start (suc n) = year_length start + days_of_years (suc start) n

-- The days of the first `n` months.
unfoldable pub days_of_months : List ℕ → ℕ → ℕ
days_of_months [] n = 0
days_of_months (l ∷ ls) zero = 0
days_of_months (l ∷ ls) (suc n) = l + days_of_months ls n

-- The length of a month, by its place from 0 on; 0 past the last.
unfoldable pub month_length : List ℕ → ℕ → ℕ
month_length [] n = 0
month_length (l ∷ ls) zero = l
month_length (l ∷ ls) (suc n) = month_length ls n

-- The year of a day and the day in it, looked for in `n + 1` years from `start` on.
unfoldable pub find_year : ℕ → ℕ → ℕ → ℕ × ℕ
find_year zero start d = (start, d)
find_year (suc n) start d =
    let rest = find_year n (suc start) (d - year_length start) in
    if ltb d (year_length start) then (start, d) else rest

-- The month of a day of the year, from `start` on, and the day in it.
unfoldable pub find_month : List ℕ → ℕ → ℕ → ℕ × ℕ
find_month [] start d = (start, d)
find_month (l ∷ ls) start d =
    let rest = find_month ls (suc start) (d - l) in if ltb d l then (start, d) else rest

shift : (m n : ℕ) → m + suc n ≡ suc m + n
shift m n = omega arith

skipped : (l y d : ℕ) → l + y + d - l ≡ y + d
skipped l y d = omega arith

not_yet : (l y d : ℕ) → ltb (l + y + d) l ≡ false
not_yet l y d = ground arith

find_year-days :
    (fuel n start d : ℕ)
    → n ≤ fuel
    → d < year_length (start + n)
    → find_year fuel start (days_of_years start n + d) ≡ (start + n, d)
unfolding find_year days_of_years
find_year-days zero zero start d l h = ground arith
find_year-days (suc fuel) zero start d l h = ground arith
find_year-days zero (suc n) start d l h = absurd (omega arith)
find_year-days (suc fuel) (suc n) start d l h =
    rw
      (
        skipped (year_length start) (days_of_years (suc start) n) d,
        not_yet (year_length start) (days_of_years (suc start) n) d,
      )
      (find_year-days fuel n (suc start) d (omega arith)
          (subst (λ y. d < year_length y) (shift start n) h)
        ∙ ap (λ y. (y, d)) (sym (shift start n)))

pub found_year :
    (n d : ℕ) → n ≤ 10000 → d < year_length n → find_year 10000 0 (days_of_years 0 n + d) ≡ (n, d)
found_year n d l h =
    find_year-days 10000 n 0 d l (subst (λ y. d < year_length y) same h)
    ∙ ap (λ y. (y, d)) (sym same)
  where
    same : n ≡ 0 + n
    same = omega arith

pub find_month-days :
    (ls : List ℕ) (m start d : ℕ)
    → d < month_length ls m
    → find_month ls start (days_of_months ls m + d) ≡ (start + m, d)
unfolding find_month days_of_months month_length
find_month-days [] m start d h = absurd (omega arith)
find_month-days (l ∷ ls) zero start d h = ground arith
find_month-days (l ∷ ls) (suc m) start d h =
    rw (skipped l (days_of_months ls m) d, not_yet l (days_of_months ls m) d)
      (find_month-days ls m (suc start) d h ∙ ap (λ y. (y, d)) (sym (shift start m)))

abbrev pub total : List ℕ → ℕ
total [] = 0
total (l ∷ ls) = l + total ls

find_month_bound : (ls : List ℕ) (start x : ℕ) → start ≤ (find_month ls start x).0
unfolding find_month
find_month_bound [] start x = omega arith
find_month_bound (l ∷ ls) start x = ground (arith, find_month_bound ls (suc start) (x - l))

-- What is found lies in its month.
pub find_month-length :
    (ls : List ℕ) (start x m d : ℕ)
    → (find_month ls start x).0 ≡ start + m
    → (find_month ls start x).1 ≡ d
    → x < total ls
    → d < month_length ls m
unfolding find_month month_length
find_month-length [] start x m d h h' k = absurd (omega arith)
find_month-length (l ∷ ls) start x zero d h h' k =
    ground (arith, find_month_bound ls (suc start) (x - l))
find_month-length (l ∷ ls) start x (suc m) d h h' k =
    ground (arith, find_month-length ls (suc start) (x - l) m d)

-- Each month has at least 28 days, and the last of them 31.
IsLong : List ℕ → Type 0
IsLong [] = Unit
IsLong (l ∷ []) = 31 ≤ l
IsLong (l ∷ k ∷ ls) = (28 ≤ l) × IsLong (k ∷ ls)

long-total : (l : ℕ) (ls : List ℕ) → IsLong (l ∷ ls) → 28 ≤ total (l ∷ ls)
unfolding IsLong
long-total l [] h = omega arith
long-total l (k ∷ ls) h = omega (arith, h.0)

-- So a day up to the 31st of any month is one of the year.
days-total :
    (ls : List ℕ) (m d : ℕ)
    → IsLong ls
    → d < 31
    → m < length ls
    → days_of_months ls m + d < total ls
unfolding days_of_months IsLong
days-total [] m d h k l = absurd (omega arith)
days-total (x ∷ []) zero d h k l = omega arith
days-total (x ∷ []) (suc m) d h k l = absurd (omega arith)
days-total (x ∷ y ∷ ls) zero d h k l = omega (arith, h.0, long-total y ls h.1)
days-total (x ∷ y ∷ ls) (suc m) d h k l = omega (arith, days-total (y ∷ ls) m d h.1 k (omega arith))

months-IsLong : (y : ℕ) → IsLong (month_lengths y)
unfolding IsLong
months-IsLong y = ground arith

pub total_months : (y : ℕ) → total (month_lengths y) ≡ year_length y
total_months y = ground arith

pub day_of_year_bound :
    (y m d : ℕ) → m < 12 → d < 31 → days_of_months (month_lengths y) m + d < year_length y
day_of_year_bound y m d h k =
    subst (λ n. days_of_months (month_lengths y) m + d < n) (total_months y)
      (days-total (month_lengths y) m d (months-IsLong y) k h)

abbrev pub day_ms : ℕ
day_ms = 24 * 60 * 60 * 1000

abbrev pub time_ms : DateTime → ℕ
time_ms t = t.hour * 3600000 + t.minute * 60000 + t.second * 1000 + t.millisecond

-- The days before a date, whose day may lie past the end of its month.
abbrev pub days_before : DateTime → ℕ
days_before t =
    days_of_years 0 t.year + (days_of_months (month_lengths t.year) (t.month - 1) + (t.day - 1))

unfoldable pub to_ms : DateTime → ℕ
to_ms t = days_before t * day_ms + time_ms t

abbrev pub from_parts : ℕ × ℕ → ℕ → DateTime
from_parts (year, day_of_year) time =
    let (month, day) = find_month (month_lengths year) 0 day_of_year in
    record {
      year = year;
      month = month + 1;
      day = day + 1;
      hour = time / 3600000;
      minute = time % 3600000 / 60000;
      second = time % 60000 / 1000;
      millisecond = time % 1000;
    }

-- The date and time of a count of milliseconds before the year 10001.
unfoldable pub from_ms : ℕ → DateTime
from_ms ms = from_parts (find_year 10000 0 (ms / day_ms)) (ms % day_ms)
