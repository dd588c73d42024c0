-- ===== src/Tests/Tables.antt =====
-- A table of refuels in gallons and miles.
use my_cars.Prelude.{
  ℕ, ◌≡◌, refl, true, List, [], ◌∷◌, ◌++◌, Option, none, some, Text, codes, text_eq, get_elem?,
  if◌then◌else◌,
}
use my_cars.Locale.{en}
use my_cars.Dates.{DateRuntime}
use my_cars.Tables.Units.{Intl, DisplayUnits, gallon, mile, quantity_symbol, consumption_symbol}
use my_cars.Tables.Data.{Car, Refuel, Cell, consumption_column}
use my_cars.Tables.Rows.{refuel_row, refuel_table}
use my_cars.Tables.Consumption.{IsFuel, OfLast, ShowsConsumption, refuel_row-ShowsConsumption}

-- A Date that is always the same day.
abbrev one_day : DateRuntime Unit
one_day = record {
  make = λ y m d. tt;
  full_year = λ t. 2024;
  month = λ t. 0;
  date = λ t. 1;
  to_iso_string = λ t. [];
}

-- Formats that write every number as it is held.
abbrev formats : Intl Text Text
formats = record {
  number = λ s. s;
  is_finite = λ s. true;
  string = λ s. s;
  date = λ s. some s;
  format_integer = λ l n. codes "7";
  format_number = λ l digits s. s;
  format_currency = λ l currency digits s. s ++ currency;
  currency_part = λ l currency. none;
  format_utc_day = λ l s. s;
  format_day = λ l s. s;
  format_time = λ l s. s;
}

abbrev american : DisplayUnits
american = record { currency = codes "USD"; volume_unit = gallon; distance_unit = mile }

gallons : consumption_symbol american (some (codes "diesel")) ≡ codes "gal/100 mi"
unfolding consumption_symbol quantity_symbol
gallons = refl

kilowatt_hours : consumption_symbol american (some (codes "electric")) ≡ codes "kWh/100 mi"
unfolding consumption_symbol quantity_symbol
kilowatt_hours = refl

abbrev charge : Text → Option Text → Refuel
charge id consumption = record {
  id = id;
  car_id = codes "e";
  date = codes "2024-05-03";
  station = codes "home";
  odometer_reading = none;
  quantity = codes "40";
  unit_price = codes "0.35";
  amount = codes "14";
  consumption = consumption;
  attachment_count = 0;
}

-- One car is electric, and no other is known.
abbrev known : Text → Option Car
known id =
    if text_eq id (codes "e")
    then some (record {
      make = codes "Acme";
      name = codes "One";
      fuel = codes "electric";
      state = record { deregistration_date = none; is_active = true };
    })
    else none

abbrev charges : List Refuel
charges =
    charge (codes "a") (some (codes "17"))
    ∷ charge (codes "a") (some (codes "18"))
    ∷ charge (codes "b") none
    ∷ []

refuel_row-ShowsConsumption_example :
    (i : ℕ) × (cell : Cell) × (fuel : Option Text) × (get_elem?
        (refuel_table one_day tt formats en american (some known) none charges [] none).columns
        i
      ≡ some consumption_column)
    × (get_elem?
          (refuel_row one_day tt formats en american
            (some known)
            none
            charges
            (charge (codes "a") none)).cells
          i
        ≡ some cell)
    × IsFuel (some known) none (codes "e") fuel
    × OfLast charges (codes "a") (ShowsConsumption one_day tt formats en american fuel cell)
refuel_row-ShowsConsumption_example =
    refuel_row-ShowsConsumption one_day tt formats en american (some known) none charges [] none
      (charge (codes "a") none)
