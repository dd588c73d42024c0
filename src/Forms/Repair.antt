-- ===== src/Forms/Repair.antt =====
-- frontend/src/repairs/repair-form.tsx: the values of the repair form, its local reasons, and what
-- it hands to onSubmit.
pub mod Laws
use my_cars.Prelude.{
  ℕ, ◌+◌, Bool, not, List, [], ◌∷◌, Option, none, some, Text, codes, text_eq, keep,
}
use my_cars.Client.Enums.{repair_types}
use my_cars.Forms.Texts.{
  trim, comma_to_point, Odometer, absent, whole, invalid, Numerals, read_whole, reading_text,
}
use my_cars.Forms.Times.{Clock, date_input, from_local_input, to_local_input}

pub record Values : Type 0 where
  pub car_id : Text
  pub date : Text
  pub station : Text
  pub odometer_reading : Text
  pub type : Text
  pub amount : Text
  pub description : Text

pub data FieldName : Type 0 where
  car_id date station odometer_reading type amount description : FieldName

-- The key of a field.
abbrev pub field_text : FieldName → Text
field_text FieldName.car_id = codes "carId"
field_text FieldName.date = codes "date"
field_text FieldName.station = codes "station"
field_text FieldName.odometer_reading = codes "odometerReading"
field_text FieldName.type = codes "type"
field_text FieldName.amount = codes "amount"
field_text FieldName.description = codes "description"

-- What the form reads of a repair, and what it hands to onSubmit (`RepairInput`).
pub record Repair (N : Type 0) : Type 0 where
  pub car_id : Text
  pub date : Text
  pub station : Text
  pub odometer_reading : Option N
  pub type : Text
  pub amount : Text
  pub description : Text

-- `repairTypes[0]`
abbrev first_type : List Text → Text
first_type [] = []
first_type (t ∷ ts) = t

-- `decimal(value)`
unfoldable pub decimal : Text → Text
unfolding trim comma_to_point
decimal value = comma_to_point (trim value)

-- The states of the form, and how often `onEdit` was called.
pub record RepairForm : Type 0 where
  pub values : Values
  pub local_reasons : List (FieldName × Text)
  pub edits : ℕ

abbrev set_value : FieldName → Text → Values → Values
set_value FieldName.car_id value v = record v { car_id = value }
set_value FieldName.date value v = record v { date = value }
set_value FieldName.station value v = record v { station = value }
set_value FieldName.odometer_reading value v = record v { odometer_reading = value }
set_value FieldName.type value v = record v { type = value }
set_value FieldName.amount value v = record v { amount = value }
set_value FieldName.description value v = record v { description = value }

-- `change(name, value)`
unfoldable pub change : FieldName → Text → RepairForm → RepairForm
change name value f = record {
  values = set_value name value f.values;
  local_reasons = keep (λ r. not (text_eq (field_text r.0) (field_text name))) f.local_reasons;
  edits = f.edits + 1;
}

module _ {N : Type 0} (numerals : Numerals N) where
  -- `initialValues(repair, carId)`
  unfoldable pub initial_values : Clock → Option (Repair N) → Text → Values
  unfolding to_local_input reading_text
  initial_values clock none id = record {
    car_id = id;
    date = date_input clock none;
    station = [];
    odometer_reading = [];
    type = first_type repair_types;
    amount = [];
    description = [];
  }
  initial_values clock (some r) id = record {
    car_id = r.car_id;
    date = date_input clock (some r.date);
    station = r.station;
    odometer_reading = reading_text numerals r.odometer_reading;
    type = r.type;
    amount = r.amount;
    description = r.description;
  }

  -- `odometer(value)`
  unfoldable pub odometer : Text → Odometer N
  unfolding trim
  odometer value = read_whole numerals (trim value)

  abbrev pub input_of : Clock → Values → Option N → Repair N
  unfolding from_local_input decimal trim
  input_of clock v reading = record {
    car_id = v.car_id;
    date = from_local_input clock v.date;
    station = v.station;
    odometer_reading = reading;
    type = v.type;
    amount = decimal v.amount;
    description = trim v.description;
  }

  abbrev pub submitted : Clock → RepairForm → Odometer N → RepairForm × Option (Repair N)
  unfolding from_local_input decimal trim
  submitted clock f invalid =
      (record f { local_reasons = (FieldName.odometer_reading, codes "invalid_type") ∷ [] }, none)
  submitted clock f absent = (f, some (input_of clock f.values none))
  submitted clock f (whole n) = (f, some (input_of clock f.values (some n)))

  -- `submit(event)`: the form, and what is handed to onSubmit, if it is called.
  unfoldable pub submit : Clock → RepairForm → RepairForm × Option (Repair N)
  unfolding odometer from_local_input decimal trim
  submit clock f = submitted clock f (odometer f.values.odometer_reading)
