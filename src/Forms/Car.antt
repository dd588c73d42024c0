-- ===== src/Forms/Car.antt =====
-- frontend/src/cars/car-form.tsx: the values of the car form, its local reasons, and what it hands
-- to onSubmit.
pub mod Laws
use mathlib.Core.Option
use my_cars.Prelude.{
  ℕ, ◌+◌, ◌==◌, Bool, true, false, not, ◌&&◌, List, [], ◌∷◌, Option, none, some, Text, codes,
  text_eq, text_le, ltb, if◌then◌else◌,
}
use my_cars.Client.Enums.{car_fuels}
use my_cars.Forms.Texts.{trim, comma_to_point, or_empty}
use my_cars.Forms.Reasons.{FormError, server_reasons, invalid_fields, is_error, is_none}

pub record Values : Type 0 where
  pub type : Text
  pub make : Text
  pub name : Text
  pub fuel : Text
  pub first_registration : Text
  pub license_plate : Text
  pub fin : Text
  pub purchase_date : Text
  pub purchase_price : Text
  pub is_active : Bool
  pub deregistration_date : Text
  pub information : Text

-- What the form reads of a car, and what it hands to onSubmit (`CarInput`).
pub record Car : Type 0 where
  pub type : Text
  pub make : Text
  pub name : Text
  pub fuel : Text
  pub first_registration : Option Text
  pub license_plate : Option Text
  pub fin : Option Text
  pub purchase_date : Option Text
  pub purchase_price : Option Text
  pub is_active : Bool
  pub deregistration_date : Option Text
  pub information : Option Text

-- `fields.map((field) => field.name)`
abbrev pub fields : List Text
fields =
    codes "type"
    ∷ codes "make"
    ∷ codes "name"
    ∷ codes "fuel"
    ∷ codes "firstRegistration"
    ∷ codes "licensePlate"
    ∷ codes "fin"
    ∷ codes "purchaseDate"
    ∷ codes "purchasePrice"
    ∷ codes "isActive"
    ∷ codes "deregistrationDate"
    ∷ codes "information"
    ∷ []

-- `carFuels[0]`
abbrev first_fuel : List Text → Text
first_fuel [] = []
first_fuel (f ∷ fs) = f

-- `initialValues(car)`
unfoldable pub initial_values : Option Car → Values
initial_values none = record {
  type = [];
  make = [];
  name = [];
  fuel = first_fuel car_fuels;
  first_registration = [];
  license_plate = [];
  fin = [];
  purchase_date = [];
  purchase_price = [];
  is_active = true;
  deregistration_date = [];
  information = [];
}
initial_values (some car) = record {
  type = car.type;
  make = car.make;
  name = car.name;
  fuel = car.fuel;
  first_registration = or_empty car.first_registration;
  license_plate = or_empty car.license_plate;
  fin = or_empty car.fin;
  purchase_date = or_empty car.purchase_date;
  purchase_price = or_empty car.purchase_price;
  is_active = car.is_active;
  deregistration_date = or_empty car.deregistration_date;
  information = or_empty car.information;
}

abbrev pub non_empty : Text → Bool
non_empty [] = false
non_empty (c ∷ s) = true

-- `a < b` on strings.
abbrev pub text_lt : Text → Text → Bool
text_lt a b = not (text_le b a)

-- What dateOrderReasons makes of the two trimmed dates.
abbrev pub order_reasons : Text → Text → List (Text × Text)
order_reasons first deregistration =
    if non_empty first && (non_empty deregistration && text_lt deregistration first)
    then (codes "deregistrationDate", codes "before_first_registration") ∷ []
    else []

-- `dateOrderReasons(values)`
unfoldable pub date_order_reasons : Values → List (Text × Text)
unfolding trim
date_order_reasons v = order_reasons (trim v.first_registration) (trim v.deregistration_date)

abbrev null_if_empty : Text → Option Text
null_if_empty [] = none
null_if_empty (c ∷ s) = some (c ∷ s)

-- `optional(value)`
unfoldable pub optional : Text → Option Text
unfolding trim
optional value = null_if_empty (trim value)

-- `decimal(value)`
unfoldable pub decimal : Text → Text
unfolding comma_to_point
decimal value = comma_to_point value

-- `toInput(values)`
unfoldable pub to_input : Values → Car
unfolding optional decimal
to_input v = record {
  type = v.type;
  make = v.make;
  name = v.name;
  fuel = v.fuel;
  first_registration = optional v.first_registration;
  license_plate = optional v.license_plate;
  fin = optional v.fin;
  purchase_date = optional v.purchase_date;
  purchase_price = Option.map decimal (optional v.purchase_price);
  is_active = v.is_active;
  deregistration_date = optional v.deregistration_date;
  information = optional v.information;
}

-- The states of the form, and how often `onEdit` was called.
pub record CarForm : Type 0 where
  pub values : Values
  pub local_reasons : List (Text × Text)
  pub edits : ℕ

-- A value and the field that it is for.
pub data FieldChange : Type 0 where
  type make name fuel first_registration license_plate fin purchase_date : Text → FieldChange
  purchase_price deregistration_date information : Text → FieldChange
  is_active : Bool → FieldChange

abbrev set_value : FieldChange → Values → Values
set_value (FieldChange.type x) v = record v { type = x }
set_value (FieldChange.make x) v = record v { make = x }
set_value (FieldChange.name x) v = record v { name = x }
set_value (FieldChange.fuel x) v = record v { fuel = x }
set_value (FieldChange.first_registration x) v = record v { first_registration = x }
set_value (FieldChange.license_plate x) v = record v { license_plate = x }
set_value (FieldChange.fin x) v = record v { fin = x }
set_value (FieldChange.purchase_date x) v = record v { purchase_date = x }
set_value (FieldChange.purchase_price x) v = record v { purchase_price = x }
set_value (FieldChange.deregistration_date x) v = record v { deregistration_date = x }
set_value (FieldChange.information x) v = record v { information = x }
set_value (FieldChange.is_active b) v = record v { is_active = b }

-- `change(name, value)`
unfoldable pub change : FieldChange → CarForm → CarForm
change field f = record {
  values = set_value field f.values;
  local_reasons = [];
  edits = f.edits + 1;
}

abbrev is_electric : Text → Bool
is_electric name_of_fuel = text_eq name_of_fuel (codes "electric")

-- `fuelLocked(fuel)` of a car that is edited, with its refuelCount; a new car has no refuels.
unfoldable pub fuel_locked : Option (Text × ℕ) → Text → Bool
fuel_locked none chosen = false
fuel_locked (some (car_fuel, refuel_count)) chosen =
    ltb 0 refuel_count
    && (if is_electric chosen then not (is_electric car_fuel) else is_electric car_fuel)

abbrev no_reasons : List (Text × Text) → Bool
no_reasons [] = true
no_reasons (r ∷ rs) = false

-- `formError`
unfoldable pub form_error : Option FormError → List (Text × Text) → Bool
unfolding invalid_fields
form_error error local =
    is_error error && (no_reasons local && is_none (invalid_fields fields error local))

abbrev pub send_unless : List (Text × Text) → Values → Option Car
unfolding to_input
send_unless [] v = some (to_input v)
send_unless (r ∷ rs) v = none

-- The form with the reasons, and what is handed to onSubmit: nothing where there is a reason.
abbrev pub submitted : CarForm → List (Text × Text) → CarForm × Option Car
unfolding to_input
submitted f reasons = (record f { local_reasons = reasons }, send_unless reasons f.values)

-- `submit(event)`: the form, and what is handed to onSubmit, if it is called.
unfoldable pub submit : CarForm → CarForm × Option Car
unfolding date_order_reasons to_input
submit f = submitted f (date_order_reasons f.values)
