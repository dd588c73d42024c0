-- ===== src/Tables/Overviews.antt =====
-- The table of frontend/src/routes/_authenticated/cars/index.tsx, and those that the pages beside it
-- show of refuels, repairs and tickets.
pub mod Laws
use my_cars.Prelude.{
  ℕ, ◌≡◌, refl, inl, inr, ◌⊎◌, Bool, List, [], ◌∷◌, map, All, length, Option, none, some, Text,
  text_eq, if◌then◌else◌,
}
use my_cars.Locale.{Locale}
use my_cars.Client.Query.{OwnerKind, cars}
use my_cars.Dates.{DateRuntime}
use my_cars.Dates.Deregistration.{is_car_muted}
use my_cars.Tables.Units.{Intl, DisplayUnits, written, format_date, money}
use my_cars.Tables.Data.{
  Car, Refuel, Repair, Ticket, Column, titled, amount_column, attachment_column, type_column, Cell,
  car_link, shown, type_text, not_recorded, Row, Table,
}
use my_cars.Tables.Rows.{car_state_badge, indicator, refuel_table, repair_table, ticket_table}

-- What the table of cars reads of a car.
pub record CarItem : Type 0 where
  pub id : Text
  pub type_name : Text
  pub car : Car
  pub first_registration : Option Text
  pub license_plate : Option Text
  pub purchase_price : Option Text
  pub attachment_count : ℕ

pub data CarColumn : Type 0 where
  car_type make name fuel first_registration license_plate purchase_price files : CarColumn

pub record CarTable : Type 0 where
  pub columns : List CarColumn
  pub rows : List Row

-- A value as it is shown, or that none is recorded.
abbrev recorded : (Text → Text) → Option Text → Cell
recorded format none = not_recorded
recorded format (some value) = shown (format value)

-- `carsById`: of two cars with an id, the last stays.
unfoldable pub cars_by_id : List CarItem → Text → Option Car
cars_by_id [] id = none
cars_by_id (item ∷ items) id = elim (cars_by_id items id) [
  | none ↦ (if text_eq item.id id then some item.car else none)
  | some found ↦ some found
]

-- `items.reduce((sum, item) => sum + Number(item.amount), 0)`, with the sum of doubles given.
abbrev pub total_from : {A N : Type 0} → (N → N → N) → (A → N) → N → List A → N
total_from add amount sum [] = sum
total_from add amount sum (item ∷ items) = total_from add amount (add sum (amount item)) items

module _ {D N E : Type 0} (r : DateRuntime D) (today : D) (intl : Intl N E) (locale : Locale) where
  module _ (u : DisplayUnits) where
    unfoldable pub car_row : CarItem → Row
    unfolding is_car_muted car_state_badge format_date money
    car_row item = record {
      muted = is_car_muted r item.car.state today;
      cells =
          shown item.type_name
          ∷ shown item.car.make
          ∷ car_link item.id (some item.car.name) (car_state_badge r today (some item.car))
          ∷ type_text item.car.fuel
          ∷ recorded (format_date intl locale) item.first_registration
          ∷ recorded (λ plate. plate) item.license_plate
          ∷ recorded (λ price. money intl locale u (written price)) item.purchase_price
          ∷ indicator cars item.id item.attachment_count
          ∷ [];
    }

    -- `CarsPage`
    unfoldable pub car_table : List CarItem → CarTable
    unfolding car_row
    car_table items = record {
      columns =
          car_type ∷ make ∷ name ∷ fuel ∷ first_registration ∷ license_plate ∷ purchase_price
          ∷ files ∷ [];
      rows = map car_row items;
    }

    module _ (add : N → N → N) (zero_sum : N) (items_of_cars : List CarItem) where
      -- `RefuelsPage`, `RepairsPage` and `TicketsPage`, where their entries have come.
      unfoldable pub refuel_overview : List Refuel → List Refuel → Table
      unfolding refuel_table cars_by_id
      refuel_overview chart items =
          refuel_table r today intl locale u (some (cars_by_id items_of_cars)) none chart items
            (some (total_from add (λ (item : Refuel). intl.number item.amount) zero_sum items))

      unfoldable pub repair_overview : List Repair → Table
      unfolding repair_table cars_by_id
      repair_overview items =
          repair_table r today intl locale u (some (cars_by_id items_of_cars)) items
            (some (total_from add (λ (item : Repair). intl.number item.amount) zero_sum items))

      unfoldable pub ticket_overview : List Ticket → Table
      unfolding ticket_table cars_by_id
      ticket_overview items =
          ticket_table r today intl locale u (some (cars_by_id items_of_cars)) items
            (some (total_from add (λ (item : Ticket). intl.number item.amount) zero_sum items))
