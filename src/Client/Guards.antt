-- ===== src/Client/Guards.antt =====
-- The type guards of frontend/src/api/client.ts: what a response body has to look like before
-- the client hands it on.
pub mod Session
pub mod Schemas
pub mod Laws
use my_cars.Prelude.{
  ℕ, ◌==◌, Bool, true, false, not, ◌&&◌, ◌||◌, List, [], ◌∷◌, Text, all, any, length, leb, ltb,
}
use my_cars.Prelude.Int.{pos, negsuc}
use my_cars.Json.{
  Value, null, num, str, arr, obj, integer, fraction, read, is_string, is_boolean, is_null,
  is_integer, is_array, elements, one_of,
}
use my_cars.Client.Enums.{
  attachment_content_types, expense_kinds, refuel_fuels, repair_types, ticket_types, volume_units,
  distance_units, car_fuels,
}

-- `typeof value === 'object' && value !== null`
abbrev pub is_record : Value → Bool
is_record (arr vs) = true
is_record (obj ms) = true
is_record _ = false

abbrev pub is_nullable_string : Value → Bool
is_nullable_string v = is_null v || is_string v

abbrev pub is_count : Value → Bool
is_count (num (integer (pos n))) = true
is_count _ = false

abbrev upper : ℕ → Bool
upper c = leb b'A' c && leb c b'Z'

-- `/^[A-Z]{3}$/.test(currency)`
abbrev pub is_currency : Text → Bool
is_currency (a ∷ b ∷ c ∷ []) = upper a && upper b && upper c
is_currency _ = false

abbrev pub tests : (Text → Bool) → Value → Bool
tests p (str s) = p s
tests p _ = false

unfoldable pub is_profile : Value → Bool
is_profile v =
    is_record v
    && (all is_string (read v "id" ∷ read v "email" ∷ read v "firstName" ∷ read v "lastName" ∷ [])
        && (is_string (read v "currency")
            && (tests is_currency (read v "currency")
                && (one_of volume_units (read v "volumeUnit")
                    && one_of distance_units (read v "distanceUnit")))))

unfoldable pub is_car : Value → Bool
is_car v =
    is_record v
    && (all is_string (
          read v "id"
          ∷ read v "type"
          ∷ read v "make"
          ∷ read v "name"
          ∷ read v "createdAt"
          ∷ read v "updatedAt"
          ∷ [])
        && (one_of car_fuels (read v "fuel")
            && (is_boolean (read v "isActive")
                && (is_count (read v "attachmentCount")
                    && (is_count (read v "refuelCount")
                        && all is_nullable_string (
                            read v "firstRegistration"
                            ∷ read v "licensePlate"
                            ∷ read v "fin"
                            ∷ read v "purchaseDate"
                            ∷ read v "purchasePrice"
                            ∷ read v "deregistrationDate"
                            ∷ read v "information"
                            ∷ []))))))

-- The pages share their shape: `isCarPage`, `isRepairPage`, `isTicketPage`, `isRefuelPage`.
abbrev pub page_of : (Value → Bool) → Value → Bool
page_of is_item v =
    is_record v
    && (is_array (read v "items")
        && (all is_item (elements (read v "items")) && is_nullable_string (read v "nextCursor")))

unfoldable pub is_car_page : Value → Bool
unfolding is_car
is_car_page v = page_of is_car v

unfoldable pub is_repair : Value → Bool
is_repair v =
    is_record v
    && (all is_string (
          read v "id"
          ∷ read v "carId"
          ∷ read v "date"
          ∷ read v "station"
          ∷ read v "amount"
          ∷ read v "description"
          ∷ [])
        && (one_of repair_types (read v "type")
            && (is_count (read v "attachmentCount")
                && (is_null (read v "odometerReading") || is_integer (read v "odometerReading")))))

unfoldable pub is_repair_page : Value → Bool
unfolding is_repair
is_repair_page v = page_of is_repair v

unfoldable pub is_ticket : Value → Bool
is_ticket v =
    is_record v
    && (all is_string (
          read v "id"
          ∷ read v "carId"
          ∷ read v "date"
          ∷ read v "location"
          ∷ read v "amount"
          ∷ read v "description"
          ∷ [])
        && (one_of ticket_types (read v "type") && is_count (read v "attachmentCount")))

unfoldable pub is_ticket_page : Value → Bool
unfolding is_ticket
is_ticket_page v = page_of is_ticket v

abbrev nullable_number : Value → Bool
nullable_number v = is_null v || is_integer v

unfoldable pub is_refuel : Value → Bool
is_refuel v =
    is_record v
    && (all is_string (
          read v "id"
          ∷ read v "carId"
          ∷ read v "date"
          ∷ read v "station"
          ∷ read v "quantity"
          ∷ read v "amount"
          ∷ read v "unitPrice"
          ∷ [])
        && (one_of refuel_fuels (read v "fuel")
            && (is_count (read v "attachmentCount")
                && (nullable_number (read v "odometerReading")
                    && (nullable_number (read v "distance")
                        && is_nullable_string (read v "consumption"))))))

unfoldable pub is_refuel_page : Value → Bool
unfolding is_refuel
is_refuel_page v = page_of is_refuel v

-- `isRecord(value) && Array.isArray(value.items) && value.items.every(…)`
abbrev pub items_of : (Value → Bool) → Value → Bool
items_of is_item v =
    is_record v && (is_array (read v "items") && all is_item (elements (read v "items")))

unfoldable pub is_refuel_chart : Value → Bool
unfolding is_refuel
is_refuel_chart v = items_of is_refuel v

abbrev pub is_expense_row : Value → Bool
is_expense_row v =
    is_record v
    && (is_string (read v "date")
        && (is_string (read v "amount") && one_of expense_kinds (read v "kind")))

unfoldable pub is_expense_statistics : Value → Bool
is_expense_statistics v = items_of is_expense_row v

unfoldable pub is_attachment : Value → Bool
is_attachment v =
    is_record v
    && (all is_string (read v "id" ∷ read v "filename" ∷ read v "createdAt" ∷ [])
        && (one_of attachment_content_types (read v "contentType") && is_count (read v "size")))

unfoldable pub is_attachment_list : Value → Bool
unfolding is_attachment
is_attachment_list v = items_of is_attachment v

unfoldable pub is_attachment_limits : Value → Bool
is_attachment_limits v =
    is_record v
    && (is_count (read v "maxFileBytes")
        && (is_count (read v "maxFilesPerEntry")
            && (is_array (read v "allowedContentTypes")
                && all (one_of attachment_content_types)
                    (elements (read v "allowedContentTypes")))))

unfoldable pub is_string_list : Value → Bool
is_string_list v = is_array v && all is_string (elements v)
