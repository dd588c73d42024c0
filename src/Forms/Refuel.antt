-- ===== src/Forms/Refuel.antt =====
-- frontend/src/refuels/refuel-form.tsx: the values of the refuel form, its local reasons, and what
-- it hands to onSubmit.
pub mod Laws
use mathlib.Core.Option
use my_cars.Prelude.{
  ℕ, ◌+◌, ◌==◌, Bool, true, false, not, ◌&&◌, ◌||◌, List, [], ◌∷◌, ◌++◌, Option, none, some, Text,
  codes, text_eq, is_digit, all, any, keep, leb, if◌then◌else◌,
}
use my_cars.Forms.Texts.{
  trim, comma_to_point, Odometer, absent, whole, invalid, Numerals, read_whole, reading_text,
  or_empty,
}
use my_cars.Forms.Times.{Clock, date_input, from_local_input, to_local_input}
use my_cars.Client.Enums.{refuel_fuels_for, default_refuel_fuel}

-- `decimal(value)`
unfoldable pub decimal : Text → Text
unfolding trim comma_to_point
decimal value = comma_to_point (trim value)

pub record Values : Type 0 where
  pub car_id : Text
  pub date : Text
  pub station : Text
  pub odometer_reading : Text
  pub fuel : Text
  pub quantity : Text
  pub amount : Text

pub data FieldName : Type 0 where
  car_id date station odometer_reading fuel quantity amount : FieldName

-- What the form reads of a car.
pub record FormCar : Type 0 where
  pub id : Text
  pub fuel : Text

-- The states of the form, and how often `onEdit` was called.
pub record RefuelForm : Type 0 where
  pub values : Values
  pub local_reasons : List (FieldName × Text)
  pub edits : ℕ

pub record RefuelInput (N : Type 0) : Type 0 where
  pub car_id : Text
  pub date : Text
  pub station : Text
  pub odometer_reading : Option N
  pub fuel : Text
  pub quantity : Text
  pub amount : Text

-- The key of a field.
abbrev pub field_text : FieldName → Text
field_text FieldName.car_id = codes "carId"
field_text FieldName.date = codes "date"
field_text FieldName.station = codes "station"
field_text FieldName.odometer_reading = codes "odometerReading"
field_text FieldName.fuel = codes "fuel"
field_text FieldName.quantity = codes "quantity"
field_text FieldName.amount = codes "amount"

abbrev same_field : FieldName → FieldName → Bool
same_field a b = text_eq (field_text a) (field_text b)

abbrev without : FieldName → List (FieldName × Text) → List (FieldName × Text)
without name reasons = keep (λ r. not (same_field r.0 name)) reasons

abbrev set_value : FieldName → Text → Values → Values
set_value FieldName.car_id value v = record v { car_id = value }
set_value FieldName.date value v = record v { date = value }
set_value FieldName.station value v = record v { station = value }
set_value FieldName.odometer_reading value v = record v { odometer_reading = value }
set_value FieldName.fuel value v = record v { fuel = value }
set_value FieldName.quantity value v = record v { quantity = value }
set_value FieldName.amount value v = record v { amount = value }

-- `change(name, value)`
unfoldable pub change : FieldName → Text → RefuelForm → RefuelForm
change name value f = record {
  values = set_value name value f.values;
  local_reasons = without name f.local_reasons;
  edits = f.edits + 1;
}

-- `cars.find((car) => car.id === carId)?.fuel`
unfoldable pub car_fuel : Text → List FormCar → Option Text
car_fuel chosen [] = none
car_fuel chosen (car ∷ cars) =
    let rest = car_fuel chosen cars in if text_eq car.id chosen then some car.fuel else rest

-- What the form reads of a refuel.
pub record Refuel (N : Type 0) : Type 0 where
  pub car_id : Text
  pub date : Text
  pub station : Text
  pub odometer_reading : Option N
  pub fuel : Text
  pub quantity : Text
  pub amount : Text

-- `changeCar(carId)`
unfoldable pub change_car : List FormCar → Text → RefuelForm → RefuelForm
unfolding car_fuel refuel_fuels_for default_refuel_fuel
change_car cars id f =
    let fuel_of_car = car_fuel id cars in
    record {
      values = record f.values {
        car_id = id;
        fuel =
            (if any (text_eq f.values.fuel) (refuel_fuels_for fuel_of_car)
              then f.values.fuel
              else default_refuel_fuel fuel_of_car);
      };
      local_reasons = without FieldName.fuel (without FieldName.car_id f.local_reasons);
      edits = f.edits + 1;
    }

module _ {N : Type 0} (numerals : Numerals N) where
  -- `odometer(value)`
  unfoldable pub odometer : Text → Odometer N
  unfolding trim
  odometer value = read_whole numerals (trim value)

  -- `initialValues(refuel, carId, cars)`
  unfoldable pub initial_values : Clock → Option (Refuel N) → Text → List FormCar → Values
  unfolding to_local_input reading_text default_refuel_fuel car_fuel
  initial_values clock none id cars = record {
    car_id = id;
    date = date_input clock none;
    station = [];
    odometer_reading = [];
    fuel = default_refuel_fuel (car_fuel id cars);
    quantity = [];
    amount = [];
  }
  initial_values clock (some r) id cars = record {
    car_id = r.car_id;
    date = date_input clock (some r.date);
    station = r.station;
    odometer_reading = reading_text numerals r.odometer_reading;
    fuel = r.fuel;
    quantity = r.quantity;
    amount = r.amount;
  }

  abbrev input_of : Clock → Values → Option N → RefuelInput N
  unfolding from_local_input decimal
  input_of clock v reading = record {
    car_id = v.car_id;
    date = from_local_input clock v.date;
    station = v.station;
    odometer_reading = reading;
    fuel = v.fuel;
    quantity = decimal v.quantity;
    amount = decimal v.amount;
  }

  -- `submit(event)`: the form, and what is handed to onSubmit, if it is called.
  unfoldable pub submit : Clock → RefuelForm → RefuelForm × Option (RefuelInput N)
  unfolding odometer from_local_input decimal
  submit clock f = elim (odometer f.values.odometer_reading) [
    | invalid ↦
        (record f { local_reasons = (FieldName.odometer_reading, codes "invalid_type") ∷ [] }, none)
    | absent ↦ (f, some (input_of clock f.values none))
    | whole n ↦ (f, some (input_of clock f.values (some n)))
  ]
