-- ===== src/Overviews/Filter/Steps.antt =====
-- What a change on an overview makes of its search.
use my_cars.Prelude.{◌≡◌, refl, ◌∙◌, [], ◌∷◌, Text}
use my_cars.Json.{Value, str, read}
use my_cars.Dates.{DateRuntime}
use my_cars.Search.{ListSearch, uuid, car_id_of, calendar_date_of, validate_list_search}
use my_cars.Search.Laws.{
  optional_text, car_id_of_stable, calendar_date_of_stable, list_search_value,
}
use my_cars.Overviews.Filter.{
  ListChange, RangeKey, ListEvent, chose_car, typed, merged, non_empty, car_change, range_change,
  list_step, change_of,
}

-- The value of the option for all cars is empty, and no UUID.
pub car_id_of-non_empty : (s : Text) → car_id_of (optional_text (non_empty s)) ≡ car_id_of (str s)
unfolding car_id_of uuid
car_id_of-non_empty [] = refl
car_id_of-non_empty (c ∷ s) = refl

-- A router that reads back the members that a page may have set.
pub record IsRouter (reload : Value → Value) : Type 0 where
  pub car : (v : Value) → read (reload v) "carId" ≡ read v "carId"
  pub from : (v : Value) → read (reload v) "from" ≡ read v "from"
  pub to : (v : Value) → read (reload v) "to" ≡ read v "to"

module _ {D : Type 0} (r : DateRuntime D) where
  -- What a page takes of a value: a car's id if it is a UUID, and a calendar date.
  abbrev pub accepted : ListEvent → ListChange
  accepted (chose_car s) = car_change (car_id_of (str s))
  accepted (typed key s) = range_change key (calendar_date_of r (str s))

  abbrev revalidated : ListSearch → ListSearch
  revalidated s = record {
    car_id = car_id_of (optional_text s.car_id);
    from = calendar_date_of r (optional_text s.from);
    to = calendar_date_of r (optional_text s.to);
  }

  module _ (reload : Value → Value) (router : IsRouter reload) where
    reloaded :
        (s : ListSearch) → validate_list_search r (reload (list_search_value s)) ≡ revalidated s
    unfolding validate_list_search
    reloaded s =
        rw
          (
            router.car (list_search_value s),
            router.from (list_search_value s),
            router.to (list_search_value s),
          )
          refl

    revalidated_change :
        (v : Value) (e : ListEvent)
        → revalidated (merged (validate_list_search r v) (change_of r e))
          ≡ merged (validate_list_search r v) (accepted e)
    unfolding validate_list_search change_of
    revalidated_change v (chose_car s) =
        rw
          (
            car_id_of-non_empty s,
            calendar_date_of_stable r (read v "from"),
            calendar_date_of_stable r (read v "to"),
          )
          refl
    revalidated_change v (typed RangeKey.from s) =
        rw
          (
            car_id_of_stable (read v "carId"),
            calendar_date_of_stable r (str s),
            calendar_date_of_stable r (read v "to"),
          )
          refl
    revalidated_change v (typed RangeKey.to s) =
        rw
          (
            car_id_of_stable (read v "carId"),
            calendar_date_of_stable r (read v "from"),
            calendar_date_of_stable r (str s),
          )
          refl

    -- For a router that reads back what it was given: on a page with a validated search, choosing
    -- a car sets the car alone, to none where the value is no UUID; typing a date sets that end of
    -- the range alone, to none where the text is no calendar date.
    pub list_step_lem :
        (v : Value) (e : ListEvent)
        → list_step r reload (validate_list_search r v) e
          ≡ merged (validate_list_search r v) (accepted e)
    unfolding list_step
    list_step_lem v e =
        reloaded (merged (validate_list_search r v) (change_of r e)) ∙ revalidated_change v e
