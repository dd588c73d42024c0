-- ===== src/Overviews/Dashboard/Laws.antt =====
-- The year stepper of the dashboard.
use my_cars.Prelude.{
  ℕ, zero, suc, ◌+◌, ◌-◌, ◌==◌, ◌≤◌, ◌<◌, ◌≡◌, refl, ◌∙◌, inl, inr, false, ◌&&◌, Option, none, some,
  Text, leb, length, arith, Bool-cases, if◌then◌else◌,
}
use my_cars.Prelude.Int.{ℤ, pos, sub_ℕ}
use my_cars.Prelude.Digits.{show, show-digits, length-show, read_digits-show}
use my_cars.Prelude.Padded.{read_digits_bound}
use my_cars.Json.{Value, str, num, integer, read}
use my_cars.Search.{DashboardSearch, car_id_of, year_text, year_of, validate_dashboard_search}
use my_cars.Search.Laws.{optional_text, four_digits, car_id_of_stable}
use my_cars.Overviews.Filter.{non_empty}
use my_cars.Overviews.Filter.Steps.{car_id_of-non_empty}
use my_cars.Overviews.Dashboard.{
  DashboardEvent, chose_car, previous_year, next_year, shown_year, optional_year, whole_year,
  search_value, dashboard_step,
}

-- A year that is written with four digits.
abbrev pub four_digit : ℕ → Option ℕ
four_digit n = if leb 1000 n && leb n 9999 then some n else none

short_year : (n : ℕ) → n < 1000 → year_of (num (integer (pos n))) ≡ none
unfolding year_of year_text
short_year n h =
    let few = length-show n 2 h in
    let e : (length (show n) == 4) ≡ false = ground arith in rw e refl

long_year : (n : ℕ) → 10000 ≤ n → year_of (num (integer (pos n))) ≡ none
unfolding year_of year_text
long_year n h =
    let bound = rw (read_digits-show n) at (read_digits_bound (show n) (show-digits n)) in
    elim (Bool-cases (length (show n) == 4)) [
      | inl e ↦
          let four : length (show n) ≡ 4 = ground arith in absurd (omega (arith, rw four at bound))
      | inr e ↦ rw e refl
    ]

year_of-pos : (n : ℕ) → year_of (num (integer (pos n))) ≡ four_digit n
year_of-pos n = elim (Bool-cases (leb 1000 n && leb n 9999)) [
  | inl e ↦ rw e (four_digits n (ground arith) (ground arith))
  | inr e ↦ elim (Bool-cases (leb 1000 n)) [
    | inl h ↦ rw e (long_year n (ground arith))
    | inr h ↦ rw e (short_year n (ground arith))
  ]
]

before_zero : year_of (num (integer (sub_ℕ 0 1))) ≡ four_digit (0 - 1)
unfolding year_of year_text show
before_zero = refl

before_suc : (n : ℕ) → sub_ℕ (suc n) 1 ≡ pos n
before_suc n = ground arith

year_of-before : (n : ℕ) → year_of (num (integer (sub_ℕ n 1))) ≡ four_digit (n - 1)
year_of-before zero = before_zero
year_of-before (suc n) =
    let same : suc n - 1 ≡ n = omega arith in rw (before_suc n, same) (year_of-pos n)

-- The year that is set is shown where it has four digits.
abbrev kept_year : Option ℕ → Option ℕ
kept_year none = none
kept_year (some n) = four_digit n

year_of-whole : (year : Option ℕ) → year_of (optional_year (whole_year year)) ≡ kept_year year
unfolding year_of year_text
year_of-whole none = refl
year_of-whole (some n) = year_of-pos n

-- The year and the car after an event.
abbrev pub year_after : ℕ → DashboardSearch → DashboardEvent → Option ℕ
year_after current s (chose_car id) = kept_year s.year
year_after current s previous_year = four_digit (shown_year current s - 1)
year_after current s next_year = four_digit (shown_year current s + 1)

abbrev pub car_after : DashboardSearch → DashboardEvent → Option Text
car_after s (chose_car id) = car_id_of (str id)
car_after s _ = s.car_id

-- A router that reads back the members that the page may have set.
pub record IsRouter (reload : Value → Value) : Type 0 where
  pub year : (v : Value) → read (reload v) "year" ≡ read v "year"
  pub car : (v : Value) → read (reload v) "carId" ≡ read v "carId"

validated_car :
    (v : Value)
    → car_id_of (optional_text (validate_dashboard_search v).car_id)
      ≡ (validate_dashboard_search v).car_id
unfolding validate_dashboard_search
validated_car v = car_id_of_stable (read v "carId")

module _ (reload : Value → Value) (router : IsRouter reload) where
  reloaded :
      (year : Option ℤ) (id : Option Text)
      → validate_dashboard_search (reload (search_value year id))
        ≡ record { year = year_of (optional_year year); car_id = car_id_of (optional_text id) }
  unfolding validate_dashboard_search
  reloaded year id = rw (router.year (search_value year id), router.car (search_value year id)) refl

  -- For a router that reads back what it was given, on a dashboard with a validated search: a
  -- click on the stepper sets the year before or after the shown one, if that year has four
  -- digits, and otherwise no year, so that the current one is shown; the car stays. Choosing a car
  -- sets the car, to none where the value is no UUID, and keeps a year of four digits.
  pub dashboard_step_lem :
      (current : ℕ) (v : Value) (e : DashboardEvent)
      → dashboard_step reload current (validate_dashboard_search v) e ≡ record {
        year = year_after current (validate_dashboard_search v) e;
        car_id = car_after (validate_dashboard_search v) e;
      }
  unfolding dashboard_step
  dashboard_step_lem current v (chose_car id) =
      let s = validate_dashboard_search v in
      reloaded (whole_year s.year) (non_empty id)
      ∙ rw (year_of-whole s.year, car_id_of-non_empty id) refl
  dashboard_step_lem current v previous_year =
      let s = validate_dashboard_search v in
      reloaded (some (sub_ℕ (shown_year current s) 1)) s.car_id
      ∙ rw (year_of-before (shown_year current s), validated_car v) refl
  dashboard_step_lem current v next_year =
      let s = validate_dashboard_search v in
      reloaded (some (pos (shown_year current s + 1))) s.car_id
      ∙ rw (year_of-pos (shown_year current s + 1), validated_car v) refl
