-- ===== src/Overviews/Dashboard.antt =====
-- frontend/src/routes/_authenticated/home.tsx: the shown year and car, the cars that have a card,
-- and what the statistics are asked for; and the cars that components/car-select.tsx offers.
pub mod Laws
use mathlib.Core.Option.{get_or}
use my_cars.Prelude.{
  ℕ, ◌+◌, Bool, not, ◌||◌, List, [], ◌∷◌, Option, none, some, Text, codes, text_eq, keep,
}
use my_cars.Prelude.Int.{ℤ, pos, sub_ℕ}
use my_cars.Json.{Value, undefined, num, integer, obj, end, member}
use my_cars.Client.Query.{ExpenseFilter}
use my_cars.Dates.{DateRuntime}
use my_cars.Dates.Range.{year_to_instants}
use my_cars.Dates.Deregistration.{CarState, is_deregistered}
use my_cars.Search.{DashboardSearch, validate_dashboard_search}
use my_cars.Search.Laws.{optional_text}
use my_cars.Overviews.Filter.{non_empty, filter_car, filter_of}

-- What the page and the select read of a car.
pub record ListedCar : Type 0 where
  pub id : Text
  pub state : CarState

-- A car is chosen, by the value of its option; a button of the year stepper is clicked.
pub data DashboardEvent : Type 0 where
  chose_car : Text → DashboardEvent
  previous_year next_year : DashboardEvent

-- `search.year ?? new Date().getFullYear()`
abbrev pub shown_year : ℕ → DashboardSearch → ℕ
shown_year current s = get_or s.year current

abbrev pub optional_year : Option ℤ → Value
optional_year none = undefined
optional_year (some z) = num (integer z)

abbrev pub whole_year : Option ℕ → Option ℤ
whole_year none = none
whole_year (some n) = some (pos n)

-- The search that is navigated to: `{ ...previous, ...change }`.
abbrev pub search_value : Option ℤ → Option Text → Value
search_value year car_id =
    obj (
      member (codes "year") (optional_year year)
        (member (codes "carId") (optional_text car_id) end))

abbrev pub updated : ℕ → DashboardSearch → DashboardEvent → Value
updated current s (chose_car id) = search_value (whole_year s.year) (non_empty id)
updated current s previous_year = search_value (some (sub_ℕ (shown_year current s) 1)) s.car_id
updated current s next_year = search_value (some (pos (shown_year current s + 1))) s.car_id

-- The page is opened with the search that it navigates to, as the router reads it back.
unfoldable pub dashboard_step :
    (Value → Value) → ℕ → DashboardSearch → DashboardEvent → DashboardSearch
unfolding validate_dashboard_search
dashboard_step reload current s e = validate_dashboard_search (reload (updated current s e))

module _ {D : Type 0} (r : DateRuntime D) where
  -- The filter of `statistics`.
  unfoldable pub statistics_filter : ℕ → DashboardSearch → ExpenseFilter
  unfolding year_to_instants
  statistics_filter current s =
      let (start, until) = year_to_instants r (shown_year current s) in
      filter_of (filter_car s.car_id) (start, some until)

  -- `cardCars`
  unfoldable pub card_cars : D → List ListedCar → List ListedCar
  unfolding is_deregistered
  card_cars today cars = keep (λ car. not (is_deregistered r car.state today)) cars

  abbrev pub is_selected : Option Text → ListedCar → Bool
  is_selected none car = Bool.false
  is_selected (some id) car = text_eq car.id id

  -- `offered` of the car select.
  unfoldable pub offered_cars : D → Option Text → List ListedCar → List ListedCar
  unfolding is_deregistered
  offered_cars today value cars =
      keep (λ car. is_selected value car || not (is_deregistered r car.state today)) cars
