-- ===== src/Tables/Rows.antt =====
-- frontend/src/refuels/refuel-table.tsx, frontend/src/repairs/repair-table.tsx and
-- frontend/src/tickets/ticket-table.tsx, with frontend/src/cars/car-state-badge.tsx: the columns,
-- the rows and the footer. The titles that a translation gives stand as constructors.
use my_cars.Prelude.{
  ℕ, zero, suc, Bool, false, List, [], ◌∷◌, ◌++◌, map, Option, none, some, Text, codes, text_eq,
  replicate, if◌then◌else◌,
}
use my_cars.Locale.{Locale}
use my_cars.Client.Query.{OwnerKind, refuels, repairs, tickets}
use my_cars.Dates.{DateRuntime}
use my_cars.Dates.Deregistration.{is_deregistered, is_car_muted}
use my_cars.Tables.Data.{
  Car, Refuel, Repair, Ticket, date_column, car_column, station_column, quantity_column,
  unit_price_column, amount_column, consumption_column, type_column, location_column,
  attachment_column, titled, CarBadge, deregistered, inactive, Cell, entry_link, car_link, shown,
  type_text, not_recorded, no_value, total_label, empty, attachments, Span, Row, Table,
}
use my_cars.Tables.Units.{
  Intl, DisplayUnits, written, computed, odometer_column, format_date_time, format_instant_date,
  money, distance, quantity_value, unit_price, quantity_consumption,
}

-- `carLabel`
abbrev pub car_label : Option Car → Option Text
car_label none = none
car_label (some car) = some (car.make ++ (codes " " ++ car.name))

-- The paperclip is left out where there are no files.
abbrev pub indicator : OwnerKind → Text → ℕ → Cell
indicator kind id zero = empty
indicator kind id (suc n) = attachments kind id (suc n)

-- `cars?.get(id)`
abbrev pub car_at : Option (Text → Option Car) → Text → Option Car
car_at none id = none
car_at (some cars) id = cars id

-- `cars?.get(id)?.fuel ?? carFuel`
abbrev pub fuel_at : Option Car → Option Text → Option Text
fuel_at none car_fuel = car_fuel
fuel_at (some car) car_fuel = some car.fuel

-- What stands where there is a car column only.
abbrev pub with_cars : {A : Type 0} → Option (Text → Option Car) → A → List A
with_cars none a = []
with_cars (some cars) a = a ∷ []

-- `showCar ? n : m`
abbrev pub if_cars : Option (Text → Option Car) → ℕ → ℕ → ℕ
if_cars none n m = m
if_cars (some cars) n m = n

-- A Map of the chart's refuels by their ids: the last of an id stays.
unfoldable pub derived_of : List Refuel → Text → Option Refuel
derived_of [] id = none
derived_of (r ∷ rs) id = elim (derived_of rs id) [
  | none ↦ (if text_eq r.id id then some r else none)
  | some found ↦ some found
]

-- `derived.get(id)?.consumption`
abbrev pub consumption_of : Option Refuel → Option Text
consumption_of none = none
consumption_of (some r) = r.consumption

module _ {D : Type 0} (r : DateRuntime D) (today : D) where
  -- `carRowClass`
  unfoldable pub car_row_class : Option Car → Bool
  unfolding is_car_muted
  car_row_class none = false
  car_row_class (some car) = is_car_muted r car.state today

  -- `CarStateBadge`
  unfoldable pub car_state_badge : Option Car → Option CarBadge
  unfolding is_deregistered
  car_state_badge none = none
  car_state_badge (some car) =
      if is_deregistered r car.state today
      then some deregistered
      else if car.state.is_active
      then none
      else some inactive

  abbrev pub car_cell : Option (Text → Option Car) → Text → Cell
  unfolding car_state_badge
  car_cell cars id = car_link id (car_label (car_at cars id)) (car_state_badge (car_at cars id))

  module _ {N E : Type 0} (intl : Intl N E) (locale : Locale) (u : DisplayUnits) where
    abbrev pub reading : Option ℕ → Cell
    unfolding distance
    reading none = not_recorded
    reading (some value) = shown (distance intl locale u value)

    abbrev pub consumption_cell : Option Text → Option Text → Cell
    unfolding quantity_consumption
    consumption_cell fuel none = no_value
    consumption_cell fuel (some value) =
        shown (quantity_consumption intl locale u fuel (written value))

    -- The footer: the label, the total, and the empty cells after it.
    abbrev pub footer_of : ℕ → ℕ → Option N → List Span
    unfolding money
    footer_of before after none = []
    footer_of before after (some total) =
        record { columns = before; cell = total_label }
        ∷ record { columns = 1; cell = shown (money intl locale u (computed total)) }
        ∷ replicate after (record { columns = 1; cell = empty })

    module _ (cars : Option (Text → Option Car)) where
      unfoldable pub refuel_row : Option Text → List Refuel → Refuel → Row
      unfolding car_row_class format_instant_date quantity_value unit_price money derived_of
      refuel_row car_fuel chart item =
          let fuel = fuel_at (car_at cars item.car_id) car_fuel in
          record {
            muted = car_row_class (car_at cars item.car_id);
            cells =
                entry_link refuels item.id (format_instant_date intl locale item.date)
                ∷ (with_cars cars (car_cell cars item.car_id)
                    ++ (shown item.station
                        ∷ reading item.odometer_reading
                        ∷ shown (quantity_value intl locale u fuel (written item.quantity))
                        ∷ shown (unit_price intl locale u fuel (written item.unit_price))
                        ∷ shown (money intl locale u (written item.amount))
                        ∷ consumption_cell fuel (consumption_of (derived_of chart item.id))
                        ∷ indicator refuels item.id item.attachment_count
                        ∷ []));
          }

      -- `RefuelTable`; the chart's refuels are those of `derived`.
      unfoldable pub refuel_table : Option Text → List Refuel → List Refuel → Option N → Table
      unfolding refuel_row
      refuel_table car_fuel chart items total = record {
        columns =
            date_column
            ∷ (with_cars cars car_column
                ++ (station_column
                    ∷ titled (odometer_column locale u.distance_unit)
                    ∷ quantity_column
                    ∷ unit_price_column
                    ∷ amount_column
                    ∷ consumption_column
                    ∷ attachment_column
                    ∷ []));
        rows = map (refuel_row car_fuel chart) items;
        footer = footer_of (if_cars cars 6 5) 2 total;
      }

      unfoldable pub repair_row : Repair → Row
      unfolding car_row_class format_date_time money
      repair_row item = record {
        muted = car_row_class (car_at cars item.car_id);
        cells =
            entry_link repairs item.id (format_date_time intl locale item.date)
            ∷ (with_cars cars (car_cell cars item.car_id)
                ++ (shown item.station
                    ∷ reading item.odometer_reading
                    ∷ type_text item.type_name
                    ∷ shown (money intl locale u (written item.amount))
                    ∷ indicator repairs item.id item.attachment_count
                    ∷ []));
      }

      -- `RepairTable`
      unfoldable pub repair_table : List Repair → Option N → Table
      unfolding repair_row
      repair_table items total = record {
        columns =
            date_column
            ∷ (with_cars cars car_column
                ++ (station_column
                    ∷ titled (odometer_column locale u.distance_unit)
                    ∷ type_column
                    ∷ amount_column
                    ∷ attachment_column
                    ∷ []));
        rows = map repair_row items;
        footer = footer_of (if_cars cars 5 4) 1 total;
      }

      unfoldable pub ticket_row : Ticket → Row
      unfolding car_row_class format_date_time money
      ticket_row item = record {
        muted = car_row_class (car_at cars item.car_id);
        cells =
            entry_link tickets item.id (format_date_time intl locale item.date)
            ∷ (with_cars cars (car_cell cars item.car_id)
                ++ (type_text item.type_name
                    ∷ shown item.location
                    ∷ shown (money intl locale u (written item.amount))
                    ∷ indicator tickets item.id item.attachment_count
                    ∷ []));
      }

      -- `TicketTable`
      unfoldable pub ticket_table : List Ticket → Option N → Table
      unfolding ticket_row
      ticket_table items total = record {
        columns =
            date_column
            ∷ (with_cars cars car_column
                ++ (type_column ∷ location_column ∷ amount_column ∷ attachment_column ∷ []));
        rows = map ticket_row items;
        footer = footer_of (if_cars cars 4 3) 1 total;
      }
