-- ===== src/Forms/Ticket.antt =====
-- frontend/src/tickets/ticket-form.tsx: the values of the ticket form, its local reasons, and what
-- it hands to onSubmit.
pub mod Laws
use my_cars.Prelude.{ℕ, ◌+◌, not, List, [], ◌∷◌, Option, none, some, Text, codes, text_eq, keep}
use my_cars.Client.Enums.{ticket_types}
use my_cars.Forms.Texts.{trim, comma_to_point}
use my_cars.Forms.Times.{Clock, date_input, from_local_input, to_local_input}

-- The form's values; what it reads of a ticket and what it hands to onSubmit (`TicketInput`) have
-- the same members.
pub record Values : Type 0 where
  pub car_id : Text
  pub date : Text
  pub type : Text
  pub location : Text
  pub amount : Text
  pub description : Text

pub data FieldName : Type 0 where
  car_id date type location amount description : FieldName

-- The key of a field.
abbrev pub field_text : FieldName → Text
field_text FieldName.car_id = codes "carId"
field_text FieldName.date = codes "date"
field_text FieldName.type = codes "type"
field_text FieldName.location = codes "location"
field_text FieldName.amount = codes "amount"
field_text FieldName.description = codes "description"

-- `ticketTypes[0]`
abbrev first_type : List Text → Text
first_type [] = []
first_type (t ∷ ts) = t

-- `initialValues(ticket, carId)`
unfoldable pub initial_values : Clock → Option Values → Text → Values
unfolding to_local_input
initial_values clock none id = record {
  car_id = id;
  date = date_input clock none;
  type = first_type ticket_types;
  location = [];
  amount = [];
  description = [];
}
initial_values clock (some t) id = record t { date = date_input clock (some t.date) }

-- `decimal(value)`
unfoldable pub decimal : Text → Text
unfolding trim comma_to_point
decimal value = comma_to_point (trim value)

-- The states of the form, and how often `onEdit` was called.
pub record TicketForm : Type 0 where
  pub values : Values
  pub local_reasons : List (FieldName × Text)
  pub edits : ℕ

abbrev set_value : FieldName → Text → Values → Values
set_value FieldName.car_id value v = record v { car_id = value }
set_value FieldName.date value v = record v { date = value }
set_value FieldName.type value v = record v { type = value }
set_value FieldName.location value v = record v { location = value }
set_value FieldName.amount value v = record v { amount = value }
set_value FieldName.description value v = record v { description = value }

-- `change(name, value)`
unfoldable pub change : FieldName → Text → TicketForm → TicketForm
change name value f = record {
  values = set_value name value f.values;
  local_reasons = keep (λ r. not (text_eq (field_text r.0) (field_text name))) f.local_reasons;
  edits = f.edits + 1;
}

-- `submit(event)`: what is handed to onSubmit.
unfoldable pub submit : Clock → TicketForm → Values
unfolding from_local_input decimal trim
submit clock f = record f.values {
  date = from_local_input clock f.values.date;
  amount = decimal f.values.amount;
  description = trim f.values.description;
}
