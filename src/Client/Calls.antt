-- ===== src/Client/Calls.antt =====
-- The calls of frontend/src/api/client.ts that return a resource, as one type: what each does, and
-- the schema that is documented for its result.
pub mod Laws
use my_cars.Prelude.{ℕ, Bool, Option, Text}
use my_cars.Json.{Value}
use my_cars.Json.Schema.{Schema, text, list_of}
use my_cars.Client.Http.{Platform, Exec, File}
use my_cars.Client.Query.{AttachmentOwner, ExpenseFilter, ListOptions}
use my_cars.Client.Entries
use my_cars.Client.Account
use my_cars.Client.Guards.Schemas.{
  car, repair, ticket, refuel, page, collection, expense_row, attachment, attachment_limits,
  profile, session, passkey_summary, web_authn_options,
}

pub data Call : Type 0 where
  get_cars : Option Text → Option ℕ → Call
  get_repairs get_tickets get_refuels : ListOptions → Call
  get_refuel_chart get_expense_statistics : ExpenseFilter → Call
  get_car get_repair get_ticket get_refuel : Text → Call
  create_car create_repair create_ticket create_refuel update_me : Value → Call
  update_car update_repair update_ticket update_refuel : Text → Value → Call
  get_repair_stations get_ticket_locations get_refuel_stations : Call
  get_session get_me get_attachment_limits start_passkey_registration : Call
  upload_attachment : AttachmentOwner → File → Call
  register_passkey : Text → Value → Call
  rename_passkey : Text → Text → Call

-- With the formats of texts, by their names.
abbrev pub documented : (Text → Text → Bool) → Call → Schema
documented format (get_cars cursor limit) = page (car format)
documented format (get_repairs o) = page (repair format)
documented format (get_tickets o) = page (ticket format)
documented format (get_refuels o) = page (refuel format)
documented format (get_refuel_chart f) = collection (refuel format)
documented format (get_expense_statistics f) = collection (expense_row format)
documented format (get_car id) = car format
documented format (get_repair id) = repair format
documented format (get_ticket id) = ticket format
documented format (get_refuel id) = refuel format
documented format (create_car v) = car format
documented format (create_repair v) = repair format
documented format (create_ticket v) = ticket format
documented format (create_refuel v) = refuel format
documented format (update_me v) = profile format
documented format (update_car id v) = car format
documented format (update_repair id v) = repair format
documented format (update_ticket id v) = ticket format
documented format (update_refuel id v) = refuel format
documented format get_repair_stations = list_of text
documented format get_ticket_locations = list_of text
documented format get_refuel_stations = list_of text
documented format get_session = session format
documented format get_me = profile format
documented format get_attachment_limits = attachment_limits format
documented format start_passkey_registration = web_authn_options
documented format (upload_attachment owner file) = attachment format
documented format (register_passkey name credential) = passkey_summary format
documented format (rename_passkey id name) = passkey_summary format

module _ {W : Type 0} (p : Platform W) where
  unfoldable pub perform : Call → Exec W Value
  unfolding Entries.get_cars Entries.get_repairs Entries.get_tickets Entries.get_refuels
      Entries.get_refuel_chart Entries.get_expense_statistics Entries.get_car Entries.get_repair
      Entries.get_ticket Entries.get_refuel Entries.create_car Entries.create_repair
      Entries.create_ticket Entries.create_refuel Account.update_me Entries.update_car
      Entries.update_repair Entries.update_ticket Entries.update_refuel Entries.get_repair_stations
      Entries.get_ticket_locations Entries.get_refuel_stations Account.get_session Account.get_me
      Account.get_attachment_limits Account.start_passkey_registration Account.upload_attachment
      Account.register_passkey Account.rename_passkey
  perform (get_cars cursor limit) = Entries.get_cars p cursor limit
  perform (get_repairs o) = Entries.get_repairs p o
  perform (get_tickets o) = Entries.get_tickets p o
  perform (get_refuels o) = Entries.get_refuels p o
  perform (get_refuel_chart f) = Entries.get_refuel_chart p f
  perform (get_expense_statistics f) = Entries.get_expense_statistics p f
  perform (get_car id) = Entries.get_car p id
  perform (get_repair id) = Entries.get_repair p id
  perform (get_ticket id) = Entries.get_ticket p id
  perform (get_refuel id) = Entries.get_refuel p id
  perform (create_car v) = Entries.create_car p v
  perform (create_repair v) = Entries.create_repair p v
  perform (create_ticket v) = Entries.create_ticket p v
  perform (create_refuel v) = Entries.create_refuel p v
  perform (update_me v) = Account.update_me p v
  perform (update_car id v) = Entries.update_car p id v
  perform (update_repair id v) = Entries.update_repair p id v
  perform (update_ticket id v) = Entries.update_ticket p id v
  perform (update_refuel id v) = Entries.update_refuel p id v
  perform get_repair_stations = Entries.get_repair_stations p
  perform get_ticket_locations = Entries.get_ticket_locations p
  perform get_refuel_stations = Entries.get_refuel_stations p
  perform get_session = Account.get_session p
  perform get_me = Account.get_me p
  perform get_attachment_limits = Account.get_attachment_limits p
  perform start_passkey_registration = Account.start_passkey_registration p
  perform (upload_attachment owner file) = Account.upload_attachment p owner file
  perform (register_passkey name credential) = Account.register_passkey p name credential
  perform (rename_passkey id name) = Account.rename_passkey p id name
