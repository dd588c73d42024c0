-- ===== src/Tables/Data.antt =====
-- What frontend/src/refuels/refuel-table.tsx, frontend/src/repairs/repair-table.tsx and
-- frontend/src/tickets/ticket-table.tsx read, and the tables that they show.
use my_cars.Prelude.{ℕ, Bool, List, Option, Text}
use my_cars.Client.Query.{OwnerKind}
use my_cars.Dates.Deregistration.{CarState}

-- What the tables read of a car, a refuel, a repair and a ticket.
pub record Car : Type 0 where
  pub make : Text
  pub name : Text
  pub fuel : Text
  pub state : CarState

pub record Refuel : Type 0 where
  pub id : Text
  pub car_id : Text
  pub date : Text
  pub station : Text
  pub odometer_reading : Option ℕ
  pub quantity : Text
  pub unit_price : Text
  pub amount : Text
  pub consumption : Option Text
  pub attachment_count : ℕ

pub record Repair : Type 0 where
  pub id : Text
  pub car_id : Text
  pub date : Text
  pub station : Text
  pub odometer_reading : Option ℕ
  pub type_name : Text
  pub amount : Text
  pub attachment_count : ℕ

pub record Ticket : Type 0 where
  pub id : Text
  pub car_id : Text
  pub date : Text
  pub type_name : Text
  pub location : Text
  pub amount : Text
  pub attachment_count : ℕ

pub data Column : Type 0 where
  date_column car_column station_column quantity_column unit_price_column amount_column
        consumption_column type_column location_column attachment_column :
      Column
  titled : Text → Column

pub data CarBadge : Type 0 where
  deregistered inactive : CarBadge

-- A link to the entry's page; a link to the car's, with its label, where it is known, and its badge;
-- a text; a translated name; what stands for a missing reading and for a missing consumption; the
-- files of an entry, and an empty cell.
pub data Cell : Type 0 where
  entry_link : OwnerKind → Text → Text → Cell
  car_link : Text → Option Text → Option CarBadge → Cell
  shown type_text : Text → Cell
  not_recorded no_value total_label empty : Cell
  attachments : OwnerKind → Text → ℕ → Cell

-- A cell that spans columns.
pub record Span : Type 0 where
  pub columns : ℕ
  pub cell : Cell

pub record Row : Type 0 where
  pub muted : Bool
  pub cells : List Cell

pub record Table : Type 0 where
  pub columns : List Column
  pub rows : List Row
  pub footer : List Span
