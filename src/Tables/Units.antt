-- ===== src/Tables/Units.antt =====
-- frontend/src/lib/display-units.tsx, the formats of frontend/src/cars/format.ts and
-- frontend/src/repairs/format.ts, and the names of the units in frontend/src/i18n/resources.ts.
-- `Intl`, `Number` and `Date` are parameters.
use my_cars.Prelude.{ℕ, Bool, false, ◌++◌, Option, none, some, Text, codes, text_eq, if◌then◌else◌}
use my_cars.Locale.{Locale, de, en}

-- The numbers and dates of the runtime, and how it formats them in a language. A text that is no
-- date has none. The number of fraction digits is the greatest for `decimal` and fixed for `money`.
pub record Intl (N D : Type 0) : Type 0 where
  pub number : Text → N
  pub is_finite : N → Bool
  pub string : N → Text
  pub date : Text → Option D
  pub format_integer : Locale → ℕ → Text
  pub format_number : Locale → ℕ → N → Text
  pub format_currency : Locale → Text → ℕ → N → Text
  pub currency_part : Locale → Text → Option Text
  pub format_utc_day : Locale → D → Text
  pub format_day : Locale → D → Text
  pub format_time : Locale → D → Text

pub data VolumeUnit : Type 0 where
  liter gallon : VolumeUnit

pub data DistanceUnit : Type 0 where
  kilometer mile : DistanceUnit

pub record DisplayUnits : Type 0 where
  pub currency : Text
  pub volume_unit : VolumeUnit
  pub distance_unit : DistanceUnit

abbrev pub default_display_units : DisplayUnits
default_display_units = record {
  currency = codes "EUR";
  volume_unit = liter;
  distance_unit = kilometer;
}

-- `string | number`
pub data Amount (N : Type 0) : Type 0 where
  written : Text → Amount N
  computed : N → Amount N

-- `units.volume`, `units.distance` and `units.energy`, which both languages share.
abbrev pub volume_symbol : VolumeUnit → Text
volume_symbol liter = codes "l"
volume_symbol gallon = codes "gal"

abbrev pub distance_symbol : DistanceUnit → Text
distance_symbol kilometer = codes "km"
distance_symbol mile = codes "mi"

abbrev pub energy : Text
energy = codes "kWh"

abbrev pub energy_name : Locale → Text
energy_name en = codes "Kilowatt-hours"
energy_name de = codes "Kilowattstunden"

abbrev pub volume_name : Locale → VolumeUnit → Text
volume_name en liter = codes "Litres"
volume_name en gallon = codes "Gallons"
volume_name de liter = codes "Liter"
volume_name de gallon = codes "Gallonen"

abbrev pub volume_singular : Locale → VolumeUnit → Text
volume_singular en liter = codes "litre"
volume_singular en gallon = codes "gallon"
volume_singular de liter = codes "Liter"
volume_singular de gallon = codes "Gallone"

abbrev pub odometer_column : Locale → DistanceUnit → Text
odometer_column en unit = codes "Odometer"
odometer_column de kilometer = codes "Kilometerstand"
odometer_column de mile = codes "Meilenstand"

abbrev pub odometer_reading_name : Locale → DistanceUnit → Text
odometer_reading_name en unit = codes "Odometer reading"
odometer_reading_name de kilometer = codes "Kilometerstand"
odometer_reading_name de mile = codes "Meilenstand"

-- `{{value}} {{unit}}`
abbrev pub with_unit : Text → Text → Text
with_unit value unit = value ++ (codes " " ++ unit)

abbrev pub is_electric : Option Text → Bool
is_electric none = false
is_electric (some fuel) = text_eq fuel (codes "electric")

-- The symbol and the name of a quantity of a car's fuel, and of its consumption.
unfoldable pub quantity_symbol : DisplayUnits → Option Text → Text
quantity_symbol u fuel = if is_electric fuel then energy else volume_symbol u.volume_unit

abbrev pub quantity_name : Locale → DisplayUnits → Option Text → Text
quantity_name locale u fuel =
    if is_electric fuel then energy_name locale else volume_name locale u.volume_unit

-- `{{volume}}/100 {{distance}}`
unfoldable pub consumption_symbol : DisplayUnits → Option Text → Text
unfolding quantity_symbol
consumption_symbol u fuel =
    quantity_symbol u fuel ++ (codes "/100 " ++ distance_symbol u.distance_unit)

module _ {N D : Type 0} (intl : Intl N D) (locale : Locale) where
  abbrev pub number_of : Amount N → N
  number_of (written value) = intl.number value
  number_of (computed value) = value

  -- `String(value)`
  abbrev pub string_of : Amount N → Text
  string_of (written value) = value
  string_of (computed value) = intl.string value

  unfoldable pub format_money : Amount N → Text → ℕ → Text
  format_money value currency digits =
      if intl.is_finite (number_of value)
      then intl.format_currency locale currency digits (number_of value)
      else string_of value

  unfoldable pub format_decimal : Amount N → ℕ → Text
  format_decimal value digits =
      if intl.is_finite (number_of value)
      then intl.format_number locale digits (number_of value)
      else string_of value

  abbrev pub currency_symbol : Text → Text
  currency_symbol currency = elim (intl.currency_part locale currency) [
    | none ↦ currency
    | some symbol ↦ symbol
  ]

  -- A date as it is formatted, or the text where it is none.
  abbrev formatted : (D → Text) → Text → Option D → Text
  formatted format value none = value
  formatted format value (some date) = format date

  unfoldable pub format_date : Text → Text
  format_date value =
      formatted (intl.format_utc_day locale) value (intl.date (value ++ codes "T00:00:00Z"))

  unfoldable pub format_date_time : Text → Text
  format_date_time value = formatted (intl.format_time locale) value (intl.date value)

  unfoldable pub format_instant_date : Text → Text
  format_instant_date value = formatted (intl.format_day locale) value (intl.date value)

  module _ (u : DisplayUnits) where
    unfoldable pub money : Amount N → Text
    unfolding format_money
    money value = format_money value u.currency 2

    unfoldable pub distance : ℕ → Text
    distance value = with_unit (intl.format_integer locale value) (distance_symbol u.distance_unit)

    unfoldable pub quantity_value : Option Text → Amount N → Text
    unfolding format_decimal quantity_symbol
    quantity_value fuel value = with_unit (format_decimal value 2) (quantity_symbol u fuel)

    -- `{{price}}/{{unit}}`
    unfoldable pub unit_price : Option Text → Amount N → Text
    unfolding format_money quantity_symbol
    unit_price fuel value = format_money value u.currency 3 ++ (codes "/" ++ quantity_symbol u fuel)

    unfoldable pub quantity_consumption : Option Text → Amount N → Text
    unfolding format_decimal consumption_symbol
    quantity_consumption fuel value = with_unit (format_decimal value 2) (consumption_symbol u fuel)
