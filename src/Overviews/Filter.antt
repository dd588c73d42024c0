-- ===== src/Overviews/Filter.antt =====
-- What the pages of refuels, repairs and tickets list: routes/_authenticated/refuels/index.tsx,
-- repairs/index.tsx and tickets/index.tsx, components/date-range-control.tsx and car-select.tsx in
-- frontend/src. The router is a parameter: what a search is read back as.
pub mod Laws
pub mod Steps
use mathlib.Core.Option
use mathlib.Core.Option.{get_or}
use my_cars.Prelude.{Bool, true, false, List, [], ◌∷◌, Option, none, some, Text}
use my_cars.Json.{Value, str}
use my_cars.Client.Query.{ExpenseFilter}
use my_cars.Dates.{DateRuntime}
use my_cars.Dates.Range.{default_from, date_range_to_instants, parts}
use my_cars.Search.{ListSearch, calendar_date_of, validate_list_search}
use my_cars.Search.Laws.{list_search_value}

-- A member of a change: left out, or set, also to undefined.
pub data Change : Type 0 where
  kept : Change
  put : Option Text → Change

pub record ListChange : Type 0 where
  pub car_id : Change
  pub from : Change
  pub to : Change

pub data RangeKey : Type 0 where
  from to : RangeKey

-- A car is chosen, by the value of its option; a date is typed.
pub data ListEvent : Type 0 where
  chose_car : Text → ListEvent
  typed : RangeKey → Text → ListEvent

abbrev pub changed : Change → Option Text → Option Text
changed kept old = old
changed (put new) old = new

-- `{ ...previous, ...change }`
abbrev pub merged : ListSearch → ListChange → ListSearch
merged s c = record {
  car_id = changed c.car_id s.car_id;
  from = changed c.from s.from;
  to = changed c.to s.to;
}

-- `value || undefined`
abbrev pub non_empty : Text → Option Text
non_empty [] = none
non_empty (c ∷ s) = some (c ∷ s)

-- `{ carId }`
abbrev pub car_change : Option Text → ListChange
car_change s = record { car_id = put s; from = kept; to = kept }

-- `{ [key]: date }`
abbrev pub range_change : RangeKey → Option Text → ListChange
range_change RangeKey.from date = record { car_id = kept; from = put date; to = kept }
range_change RangeKey.to date = record { car_id = kept; from = kept; to = put date }

-- `carId ? { carId } : {}`, behind `search.carId ?? ''`.
abbrev pub filter_car : Option Text → Option Text
filter_car none = none
filter_car (some s) = non_empty s

abbrev pub filter_of : Option Text → Text × Option Text → ExpenseFilter
filter_of car_id (start, end) = record { car_id = car_id; from = some start; to = end }

module _ {D : Type 0} (r : DateRuntime D) where
  -- The onChange of the car select, and `update` of the date range.
  abbrev pub change_of : ListEvent → ListChange
  unfolding calendar_date_of
  change_of (chose_car s) = car_change (non_empty s)
  change_of (typed key s) = range_change key (calendar_date_of r (str s))

  -- `update(change)`: the page is opened with the search that it navigates to.
  unfoldable pub list_step : (Value → Value) → ListSearch → ListEvent → ListSearch
  unfolding validate_list_search
  list_step reload s e =
      validate_list_search r (reload (list_search_value (merged s (change_of e))))

  unfoldable pub list_run : (Value → Value) → ListSearch → List ListEvent → ListSearch
  unfolding list_step
  list_run reload s [] = s
  list_run reload s (e ∷ es) = list_run reload (list_step reload s e) es

  -- `search.from ?? defaultFrom()`
  abbrev pub shown_from : D → Option Text → Text
  shown_from today start = get_or start (default_from r today)

  -- `filter`; none where dateRangeToInstants throws.
  unfoldable pub list_filter : D → ListSearch → Option ExpenseFilter
  unfolding date_range_to_instants default_from
  list_filter today s =
      Option.map (filter_of (filter_car s.car_id))
        (date_range_to_instants r (shown_from today s.from) s.to)
