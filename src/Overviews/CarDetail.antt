-- ===== src/Overviews/CarDetail.antt =====
-- The page of a car: frontend/src/routes/_authenticated/cars/$carId/index.tsx, with
-- frontend/src/cars/car-status.tsx, and what frontend/src/repairs/cars-status.tsx shows in place of
-- a form.
pub mod Laws
use mathlib.Core.Option
use mathlib.Core.Option.{get_or}
use my_cars.Prelude.{
  ℕ, zero, suc, ◌==◌, Bool, true, false, ◌∷◌, [], ◌++◌, Option, none, some, Text, codes, text_eq,
  if◌then◌else◌,
}
use my_cars.Json.{Value, undefined, str, obj, end, member, read}
use my_cars.Client.Http.{ApiError, status_of}
use my_cars.Client.Query.{ExpenseFilter}
use my_cars.Dates.{DateRuntime}
use my_cars.Dates.Range.{date_range_to_instants, default_from}
use my_cars.Search.{calendar_date_of}
use my_cars.Search.Laws.{optional_text}
use my_cars.Overviews.Filter.{RangeKey, Change, kept, put, changed, filter_of, shown_from}

pub data CarTab : Type 0 where
  details expenses consumption : CarTab

pub record CarSearch : Type 0 where
  pub tab : Option CarTab
  pub from : Option Text
  pub to : Option Text

abbrev pub tab_name : CarTab → Text
tab_name details = codes "details"
tab_name expenses = codes "expenses"
tab_name consumption = codes "consumption"

-- `tabs.find((candidate) => candidate === search.tab)`
unfoldable pub tab_of : Value → Option CarTab
tab_of (str s) =
    if text_eq s (codes "details")
    then some details
    else if text_eq s (codes "expenses")
    then some expenses
    else if text_eq s (codes "consumption")
    then some consumption
    else none
tab_of _ = none

-- `tabs.indexOf(tab)` and `tabs[index]`
abbrev pub index_of : CarTab → ℕ
index_of details = 0
index_of expenses = 1
index_of consumption = 2

abbrev pub tab_at : ℕ → Option CarTab
tab_at zero = some details
tab_at (suc zero) = some expenses
tab_at (suc (suc zero)) = some consumption
tab_at _ = none

-- `search.tab ?? 'details'`
abbrev pub shown_tab : CarSearch → CarTab
shown_tab s = get_or s.tab details

-- A tab is selected, or a date is typed.
pub data CarEvent : Type 0 where
  selected : ℕ → CarEvent
  typed : RangeKey → Text → CarEvent

abbrev pub optional_tab : Option CarTab → Value
optional_tab none = undefined
optional_tab (some t) = str (tab_name t)

abbrev pub car_search_value : CarSearch → Value
car_search_value s = obj (
    member (codes "tab") (optional_tab s.tab)
      (member (codes "from") (optional_text s.from) (member (codes "to") (optional_text s.to) end)))

module _ {D : Type 0} (r : DateRuntime D) where
  -- `validateSearch`
  unfoldable pub validate_search : Value → CarSearch
  unfolding tab_of calendar_date_of
  validate_search search = record {
    tab = tab_of (read search "tab");
    from = calendar_date_of r (read search "from");
    to = calendar_date_of r (read search "to");
  }

  -- `{ ...previous, ...change }`
  abbrev pub changed_search : CarSearch → CarEvent → CarSearch
  changed_search s (selected i) = record s { tab = tab_at i }
  changed_search s (typed RangeKey.from text) = record s { from = calendar_date_of r (str text) }
  changed_search s (typed RangeKey.to text) = record s { to = calendar_date_of r (str text) }

  unfoldable pub car_step : (Value → Value) → CarSearch → CarEvent → CarSearch
  unfolding validate_search
  car_step reload s e = validate_search (reload (car_search_value (changed_search s e)))

  -- `filter`; none where dateRangeToInstants throws.
  unfoldable pub car_filter : D → Text → CarSearch → Option ExpenseFilter
  unfolding date_range_to_instants default_from
  car_filter today car_id s =
      Option.map (filter_of (some car_id))
        (date_range_to_instants r (shown_from r today s.from) s.to)

-- What is shown in place of a car that is not there.
pub data CarStatus : Type 0 where
  loading not_found load_error : CarStatus

unfoldable pub car_status : Option ApiError → CarStatus
car_status none = loading
car_status (some e) = if status_of e == 404 then not_found else load_error

-- What is shown in place of a form without cars: `cars.isPending`, then `cars.isError`.
pub data CarsStatus : Type 0 where
  cars_loading cars_load_error no_cars : CarsStatus

unfoldable pub cars_status : Bool → Bool → CarsStatus
cars_status is_pending is_error =
    if is_pending then cars_loading else if is_error then cars_load_error else no_cars

-- `${car.make} · ${car.licensePlate}`, or the make alone; the dot is code unit 183.
unfoldable pub subtitle : Text → Option Text → Text
subtitle make none = make
subtitle make (some plate) = make ++ (codes " " ++ 183 ∷ (codes " " ++ plate))
