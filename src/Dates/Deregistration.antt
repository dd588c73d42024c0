-- ===== src/Dates/Deregistration.antt =====
-- frontend/src/cars/deregistration.ts
pub mod Laws
use my_cars.Prelude.{Bool, true, false, not, ◌||◌, Option, none, some, Text, text_le}
use my_cars.Dates.{DateRuntime}
use my_cars.Dates.Range.{to_calendar_date}

-- What the functions read of a car; the date is null or a text.
pub record CarState : Type 0 where
  pub deregistration_date : Option Text
  pub is_active : Bool

module _ {D : Type 0} (r : DateRuntime D) where
  abbrev on_or_before : Option Text → D → Bool
  on_or_before none today = false
  on_or_before (some date) today = text_le date (to_calendar_date r today)

  unfoldable pub is_deregistered : CarState → D → Bool
  unfolding to_calendar_date
  is_deregistered car today = on_or_before car.deregistration_date today

  unfoldable pub is_car_muted : CarState → D → Bool
  unfolding is_deregistered
  is_car_muted car today = not car.is_active || is_deregistered car today
