-- ===== src/Tests/Overviews.antt =====
-- Overviews on days that roll over, and a list of two pages.
use my_cars.Prelude.{
  ℕ, zero, suc, ◌-◌, ◌+◌, ◌≤◌, ◌<◌, ◌≡◌, refl, List, [], ◌∷◌, some, codes, min, arith,
}
use my_cars.Prelude.Int.{ℤ, pos, negsuc}
use my_cars.Json.{Value, str, obj, end, member}
use my_cars.Client.Query.{ExpenseFilter}
use my_cars.Dates.{DateRuntime, IsCalendar, IsDay, days_in}
use my_cars.Dates.Range.{default_from}
use my_cars.Dates.Range.Laws.{Names}
use my_cars.Dates.Range.Start.{IsRolling, default_from_lem}
use my_cars.Search.{validate_list_search, validate_dashboard_search}
use my_cars.Overviews.Filter.{RangeKey, ListEvent, chose_car, typed, list_run, list_filter}
use my_cars.Overviews.Filter.Laws.{IsFilter, list_filter-IsFilter}
use my_cars.Overviews.Dashboard.{previous_year, dashboard_step}
use my_cars.Overviews.Dashboard.Laws.{year_after, car_after, dashboard_step_lem}
use my_cars.Tests.Dates.{Day, sane, sane-IsDay, IsDay-is_day}

-- The last day of the month before, and a day by fields that overflow.
abbrev day_before : ℕ → ℕ → Day
day_before y zero = (y - 1, 11, days_in (y - 1) 11)
day_before y (suc m) = (y, m, days_in y m)

abbrev placed : ℕ → ℕ → ℕ → Day
placed y m zero = day_before y m
placed y m (suc d) = (y, m, suc d)

abbrev rolled : ℕ → ℤ → ℕ → Day
rolled y (pos m) d = placed y m d
rolled y (negsuc k) d = placed (y - 1) (11 - k) d

abbrev rolling : DateRuntime Day
rolling = record {
  make = rolled;
  full_year = λ t. (sane t).0;
  month = λ t. (sane t).1;
  date = λ t. (sane t).2;
  to_iso_string = λ t. codes "";
}

read_back_lem :
    (y m d : ℕ)
    → 100 ≤ y
    → IsDay y m d
    → (rolling.full_year (rolled y (pos m) d) ≡ y)
      × (rolling.month (rolled y (pos m) d) ≡ m)
      × (rolling.date (rolled y (pos m) d) ≡ d)
read_back_lem y m zero h day = absurd (omega (arith, day.day_from))
read_back_lem y m (suc d) h day = rw (IsDay-is_day y m (suc d) h day) (refl, refl, refl)

early_year : (t : Day) → 100 ≤ (sane t).0
early_year t = ground arith

last_day-IsDay : (y m : ℕ) → m < 12 → IsDay y m (days_in y m)
unfolding days_in
last_day-IsDay y m h = record { month_in_year = h; day_from = ground arith; day_to = omega arith }

last_day_lem : (y m : ℕ) → 100 ≤ y → m < 12 → (sane (y, m, days_in y m)).2 ≡ days_in y m
last_day_lem y m h k = rw (IsDay-is_day y m (days_in y m) h (last_day-IsDay y m k)) refl

month_end_lem : (y m : ℕ) → 100 ≤ y → m < 12 → rolling.date (rolled y (pos (m + 1)) 0) ≡ days_in y m
month_end_lem y m h k = let e : m + 1 ≡ suc m = omega arith in rw e (last_day_lem y m h k)

rolling-IsCalendar : IsCalendar rolling
rolling-IsCalendar = record {
  read_back = read_back_lem;
  fields_are_day = sane-IsDay;
  two_digit_year = λ y m d h k. early_year (rolled y m d);
}

rolling-IsRolling : IsRolling rolling
rolling-IsRolling = record {
  earlier = λ y k d h l. refl;
  month_end = month_end_lem;
  year_end = λ y h. last_day_lem (y - 1) 11 (omega arith) (omega arith);
}

default_from_lem_example :
    Names (default_from rolling (2024, 7, 31)) 2024 1 (min 31 (days_in 2024 1))
unfolding days_in
default_from_lem_example =
    default_from_lem rolling rolling-IsCalendar rolling-IsRolling (2024, 7, 31) (omega arith)
      (omega arith)

-- An address with a day that does not exist.
abbrev address : Value
address = obj (member (codes "from") (str (codes "2023-02-30")) end)

abbrev list_events : List ListEvent
list_events =
    typed RangeKey.to (codes "2024-02-29") ∷ chose_car (codes "c1") ∷ typed RangeKey.from [] ∷ []

list_filter-IsFilter_example :
    (f : ExpenseFilter) × (list_filter rolling
        (2024, 7, 31)
        (list_run rolling (λ v. v) (validate_list_search rolling address) list_events)
      ≡ some f)
    × IsFilter rolling
        (2024, 7, 31)
        (list_run rolling (λ v. v) (validate_list_search rolling address) list_events)
        f
unfolding days_in
list_filter-IsFilter_example =
    list_filter-IsFilter rolling rolling-IsCalendar rolling-IsRolling (2024, 7, 31) (omega arith)
      (omega arith) (λ v. v) address list_events

-- The year 1000 is the earliest that the stepper reaches.
abbrev year_1000 : Value
year_1000 = obj (member (codes "year") (str (codes "1000")) end)

dashboard_step_lem_example :
    dashboard_step (λ v. v) 2024 (validate_dashboard_search year_1000) previous_year ≡ record {
      year = year_after 2024 (validate_dashboard_search year_1000) previous_year;
      car_id = car_after (validate_dashboard_search year_1000) previous_year;
    }
dashboard_step_lem_example =
    dashboard_step_lem (λ v. v) (record { year = λ v. refl; car = λ v. refl }) 2024 year_1000
      previous_year
