-- ===== src/Overviews/Filter/Laws.antt =====
-- What the filter of an overview is, for every search that its page can have.
use mathlib.Core.Option
use mathlib.Core.Option.{some-injective}
use mathlib.Core.Path.{subst}
use my_cars.Prelude.{
  ℕ, ◌+◌, ◌≤◌, ◌<◌, ◌≡◌, refl, sym, inl, inr, true, List, [], ◌∷◌, Option, none, some, Text, arith,
  Bool-cases, if◌then◌else◌,
}
use my_cars.Prelude.Int.{pos}
use my_cars.Json.{Value, str, read}
use my_cars.Client.Query.{ExpenseFilter}
use my_cars.Dates.{DateRuntime, IsCalendar}
use my_cars.Dates.Range.{is_calendar_date, date_range_to_instants, range_end}
use my_cars.Dates.Range.Laws.{Names, Names-parts, is_calendar_date_iff}
use my_cars.Dates.Range.Start.{IsRolling, default_from_lem}
use my_cars.Search.{ListSearch, uuid, car_id_of, calendar_date_of, validate_list_search}
use my_cars.Search.Laws.{list_search_value}
use my_cars.Overviews.Filter.{
  merged, change_of, filter_car, shown_from, list_step, list_run, list_filter, ListEvent,
}

-- What validation gives: the car is a UUID, and the dates are calendar dates.
abbrev pub OptionAll : (Text → Type 0) → Option Text → Type 0
OptionAll P none = Unit
OptionAll P (some s) = P s

filter_car-uuid :
    (s : Text) → filter_car (if uuid s then some s else none) ≡ (if uuid s then some s else none)
unfolding uuid
filter_car-uuid [] = refl
filter_car-uuid (c ∷ s) = ground arith

car_id_of-kept : (v : Value) → filter_car (car_id_of v) ≡ car_id_of v
unfolding car_id_of
car_id_of-kept (str s) = filter_car-uuid s
car_id_of-kept _ = refl

module _ {D : Type 0} (r : DateRuntime D) where
  abbrev pub IsDate : Text → Type 0
  IsDate s = is_calendar_date r (str s) ≡ true

  pub record IsValid (s : ListSearch) : Type 0 where
    pub car : filter_car s.car_id ≡ s.car_id
    pub from : OptionAll IsDate s.from
    pub to : OptionAll IsDate s.to

  IsDate-given : (s : Text) → OptionAll IsDate (if is_calendar_date r (str s) then some s else none)
  IsDate-given s = elim (Bool-cases (is_calendar_date r (str s))) [
    | inl e ↦ subst (λ b. OptionAll IsDate (if b then some s else none)) (sym e) e
    | inr e ↦ subst (λ b. OptionAll IsDate (if b then some s else none)) (sym e) tt
  ]

  pub calendar_date_of-IsDate : (v : Value) → OptionAll IsDate (calendar_date_of r v)
  unfolding calendar_date_of
  calendar_date_of-IsDate (str s) = IsDate-given s
  calendar_date_of-IsDate _ = tt

  validate-IsValid : (v : Value) → IsValid (validate_list_search r v)
  unfolding validate_list_search
  validate-IsValid v = record {
    car = car_id_of-kept (read v "carId");
    from = calendar_date_of-IsDate (read v "from");
    to = calendar_date_of-IsDate (read v "to");
  }

  -- Whatever happened on the page, its search is a validated one.
  run-IsValid :
      (reload : Value → Value) (s : ListSearch) (es : List ListEvent)
      → IsValid s
      → IsValid (list_run r reload s es)
  unfolding list_run list_step
  run-IsValid reload s [] h = h
  run-IsValid reload s (e ∷ es) h =
      run-IsValid reload (list_step r reload s e) es
        (validate-IsValid (reload (list_search_value (merged s (change_of r e)))))

  -- The filter begins with the midnight at the start of the day that the page shows, and ends with
  -- the midnight after the last day, where there is one.
  pub data Begins : Text → Option Text → Type 0 where
    begins :
        {v : Text} (y m d : ℕ)
        → Names v y m d
        → Begins v (some (r.to_iso_string (r.make y (pos m) d)))

  pub data Ends : Option Text → Option Text → Type 0 where
    open_end : Ends none none
    ends :
        {v : Text} (y m d : ℕ)
        → Names v y m d
        → Ends (some v) (some (r.to_iso_string (r.make y (pos m) (d + 1))))

  pub record IsFilter (today : D) (s : ListSearch) (f : ExpenseFilter) : Type 0 where
    pub car : f.car_id ≡ s.car_id
    pub from : Begins (shown_from r today s.from) f.from
    pub to : Ends s.to f.to

  module _ (cal : IsCalendar r) (rolls : IsRolling r) (today : D)
      (from_101 : 101 ≤ r.full_year today) (to_9999 : r.full_year today < 10000) where
    shown_from-Names :
        (start : Option Text)
        → OptionAll IsDate start
        → (y : ℕ) × (m : ℕ) × (d : ℕ) × Names (shown_from r today start) y m d
    shown_from-Names none h = (_, _, _, default_from_lem r cal rolls today from_101 to_9999)
    shown_from-Names (some v) h = (is_calendar_date_iff r cal v).0 h

    range_end-Ends :
        (end : Option Text)
        → OptionAll IsDate end
        → (e : Option Text) × (range_end r end ≡ some e) × Ends end e
    range_end-Ends none h = (none, refl, open_end)
    range_end-Ends (some v) h =
        let (y, m, d, n) = (is_calendar_date_iff r cal v).0 h in
        (_, rw (Names-parts r cal v y m d n) refl, ends y m d n)

    -- The instants of a range that is shown.
    pub range_instants :
        (start end : Option Text)
        → OptionAll IsDate start
        → OptionAll IsDate end
        → (a : Text) × (e : Option Text) × (date_range_to_instants r (shown_from r today start) end
            ≡ some (a, e))
          × Begins (shown_from r today start) (some a)
          × Ends end e
    unfolding date_range_to_instants Option.bind
    range_instants start end h k =
        let (y, m, d, n) = shown_from-Names start h in
        let (e, ended, until) = range_end-Ends end k in
        (
          r.to_iso_string (r.make y (pos m) d),
          e,
          rw (Names-parts r cal (shown_from r today start) y m d n, ended) refl,
          begins y m d n,
          until,
        )

    valid-IsFilter :
        (s : ListSearch)
        → IsValid s
        → (f : ExpenseFilter) × (list_filter r today s ≡ some f) × IsFilter today s f
    unfolding list_filter
    valid-IsFilter s h =
        let (a, e, instants, start, until) = range_instants s.from s.to h.from h.to in
        (
          record { car_id = s.car_id; from = some a; to = e },
          rw (instants, h.car) refl,
          record { car = refl; from = start; to = until },
        )

    -- For a Date that keeps to the calendar and rolls months over, on a day of a year from 101 to
    -- 9999: whatever address a page is opened with, whatever is chosen and typed on it and whatever
    -- the router makes of that, the page has a filter, so that no RangeError is thrown. The filter
    -- has the search's car, begins at the start of the day that is shown and ends with the start of
    -- the day after the last one, or is open where no last day is given.
    pub list_filter-IsFilter :
        (reload : Value → Value) (address : Value) (es : List ListEvent)
        → (f : ExpenseFilter) × (list_filter r today
              (list_run r reload (validate_list_search r address) es)
            ≡ some f)
          × IsFilter today (list_run r reload (validate_list_search r address) es) f
    list_filter-IsFilter reload address es =
        valid-IsFilter _ (run-IsValid reload _ es (validate-IsValid address))
