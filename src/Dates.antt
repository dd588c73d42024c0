-- ===== src/Dates.antt =====
-- Calendar dates: frontend/src/lib/date-range.ts and frontend/src/cars/deregistration.ts. The
-- JavaScript Date in the viewer's time zone is a parameter.
pub mod Range
pub mod Deregistration
use my_cars.Prelude.{
  ℕ, ◌+◌, ◌*◌, ◌%◌, ◌≤◌, ◌<◌, ◌==◌, ◌≡◌, Bool, not, ◌&&◌, ◌||◌, Text, if◌then◌else◌,
}
use my_cars.Prelude.Int.{ℤ, pos, pos_part, neg_part}

-- The local fields of a Date, and its construction from fields that may overflow. A month is
-- counted from 0.
pub record DateRuntime (D : Type 0) : Type 0 where
  -- new Date(year, month, day)
  pub make : ℕ → ℤ → ℕ → D
  pub full_year : D → ℕ
  pub month : D → ℕ
  pub date : D → ℕ
  pub to_iso_string : D → Text

abbrev is_leap : ℕ → Bool
is_leap y = y % 4 == 0 && (not (y % 100 == 0) || y % 400 == 0)

-- The days of a month, January being 0.
unfoldable pub days_in : ℕ → ℕ → ℕ
days_in y m =
    if m == 1
    then (if is_leap y then 29 else 28)
    else if m == 3 || (m == 5 || (m == 8 || m == 10))
    then 30
    else 31

-- A day of the calendar.
pub record IsDay (y m d : ℕ) : Type 0 where
  pub month_in_year : m < 12
  pub day_from : 1 ≤ d
  pub day_to : d ≤ days_in y m

-- What is documented of Date, for a time zone that skips no day: a day from the year 100 on is read
-- back as it was given; the fields are always a day; and the years 0 to 99 stand for later ones.
pub record IsCalendar {D : Type 0} (r : DateRuntime D) : Type 0 where
  pub read_back :
      (y m d : ℕ)
      → 100 ≤ y
      → IsDay y m d
      → (r.full_year (r.make y (pos m) d) ≡ y)
        × (r.month (r.make y (pos m) d) ≡ m)
        × (r.date (r.make y (pos m) d) ≡ d)
  pub fields_are_day : (t : D) → IsDay (r.full_year t) (r.month t) (r.date t)
  pub two_digit_year :
      (y : ℕ) (m : ℤ) (d : ℕ) → y < 100 → neg_part m ≤ 1 → 100 ≤ r.full_year (r.make y m d)
