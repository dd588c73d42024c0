-- ===== src/Overviews/CarDetail/Laws.antt =====
-- The search and the range of the page of a car.
use my_cars.Prelude.{◌≤◌, ◌<◌, ◌≡◌, refl, ◌∙◌, Option, none, some, Text}
use my_cars.Json.{Value, str, read}
use my_cars.Dates.{DateRuntime, IsCalendar}
use my_cars.Dates.Range.Start.{IsRolling}
use my_cars.Search.{calendar_date_of}
use my_cars.Search.Laws.{optional_text, calendar_date_of_stable}
use my_cars.Overviews.Filter.{RangeKey, shown_from}
use my_cars.Overviews.Filter.Laws.{Begins, Ends, range_instants, calendar_date_of-IsDate}
use my_cars.Overviews.CarDetail.{
  CarTab, details, expenses, consumption, tab_of, CarSearch, CarEvent, selected, typed,
  optional_tab, car_search_value, tab_at, validate_search, changed_search, car_step, car_filter,
}

tab_of-optional_tab : (t : Option CarTab) → tab_of (optional_tab t) ≡ t
unfolding tab_of
tab_of-optional_tab none = refl
tab_of-optional_tab (some details) = refl
tab_of-optional_tab (some expenses) = refl
tab_of-optional_tab (some consumption) = refl

-- A router that reads back the members that the page may have set.
pub record IsRouter (reload : Value → Value) : Type 0 where
  pub tab : (v : Value) → read (reload v) "tab" ≡ read v "tab"
  pub from : (v : Value) → read (reload v) "from" ≡ read v "from"
  pub to : (v : Value) → read (reload v) "to" ≡ read v "to"

module _ {D : Type 0} (r : DateRuntime D) where
  module _ (cal : IsCalendar r) (rolls : IsRolling r) (today : D)
      (from_101 : 101 ≤ r.full_year today) (to_9999 : r.full_year today < 10000) where
    -- For a Date that keeps to the calendar and rolls months over, on a day of a year from 101 to
    -- 9999: whatever address the page of a car is opened with, what it lists is filtered by that
    -- car and by a range that begins at the start of the day that is shown and ends with the start
    -- of the day after the last one, or is open; no RangeError is thrown.
    pub car_filter_lem :
        (car_id : Text) (address : Value)
        → (a : Text) × (e : Option Text) × (car_filter r today car_id (validate_search r address)
            ≡ some (record { car_id = some car_id; from = some a; to = e }))
          × Begins r (shown_from r today (validate_search r address).from) (some a)
          × Ends r (validate_search r address).to e
    unfolding car_filter validate_search
    car_filter_lem car_id address =
        let (a, e, instants, start, until) =
          range_instants r cal rolls today from_101 to_9999
            (calendar_date_of r (read address "from")) (calendar_date_of r (read address "to"))
            (calendar_date_of-IsDate r (read address "from"))
            (calendar_date_of-IsDate r (read address "to")) in
        (a, e, rw instants refl, start, until)

  module _ (reload : Value → Value) (router : IsRouter reload) where
    abbrev revalidated : CarSearch → CarSearch
    revalidated s = record {
      tab = tab_of (optional_tab s.tab);
      from = calendar_date_of r (optional_text s.from);
      to = calendar_date_of r (optional_text s.to);
    }

    reloaded : (s : CarSearch) → validate_search r (reload (car_search_value s)) ≡ revalidated s
    unfolding validate_search
    reloaded s =
        rw
          (
            router.tab (car_search_value s),
            router.from (car_search_value s),
            router.to (car_search_value s),
          )
          refl

    revalidated_change :
        (v : Value) (e : CarEvent)
        → revalidated (changed_search r (validate_search r v) e)
          ≡ changed_search r (validate_search r v) e
    unfolding validate_search
    revalidated_change v (selected i) =
        rw
          (
            tab_of-optional_tab (tab_at i),
            calendar_date_of_stable r (read v "from"),
            calendar_date_of_stable r (read v "to"),
          )
          refl
    revalidated_change v (typed RangeKey.from s) =
        rw
          (
            tab_of-optional_tab (tab_of (read v "tab")),
            calendar_date_of_stable r (str s),
            calendar_date_of_stable r (read v "to"),
          )
          refl
    revalidated_change v (typed RangeKey.to s) =
        rw
          (
            tab_of-optional_tab (tab_of (read v "tab")),
            calendar_date_of_stable r (read v "from"),
            calendar_date_of_stable r (str s),
          )
          refl

    -- For a router that reads back what it was given: a change of the page's search, validated, is
    -- the change itself, so that a selected tab is the one that is shown, and a typed date is kept
    -- if it is one and falls back to the default otherwise.
    pub car_step_lem :
        (v : Value) (e : CarEvent)
        → car_step r reload (validate_search r v) e ≡ changed_search r (validate_search r v) e
    unfolding car_step
    car_step_lem v e = reloaded (changed_search r (validate_search r v) e) ∙ revalidated_change v e
