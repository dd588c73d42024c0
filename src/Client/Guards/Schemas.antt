-- ===== src/Client/Guards/Schemas.antt =====
-- The schemas of the API's resources as openapi/openapi.yaml documents them, from which
-- frontend/src/api/schema.gen.ts is generated. What JSON Schema calls a format is a parameter, and
-- the challenge of passkey options is that of the W3C documents which the API refers to. The order of
-- an enumeration is the client's. Members that the client does not read are left out.
use my_cars.Prelude.{
  ℕ, ◌==◌, Bool, true, false, ◌&&◌, String, List, [], ◌∷◌, Text, codes, all, length, leb,
  if◌then◌else◌,
}
use my_cars.Prelude.Int.{pos, negsuc}
use my_cars.Json.{Value, num, str, integer, get, is_null, elements}
use my_cars.Json.Schema.{
  Schema, text, boolean, whole, count, choice, matching, nullable, refined, list_of, object, Fields,
  done, field,
}

-- A field, before the others.
infixr 30 ◌∶◌▸◌
abbrev ◌∶◌▸◌ : String → Schema → Fields → Fields
name ∶ t ▸ fs = field (codes name) t fs

-- Several fields of one schema.
abbrev each_of : List String → Schema → Fields → Fields
each_of [] t fs = fs
each_of (name ∷ names) t fs = name ∶ t ▸ each_of names t fs

-- `enum`
abbrev named : List String → List Text
named [] = []
named (name ∷ names) = codes name ∷ named names

abbrev digit : ℕ → Bool
digit c = leb b'0' c && leb c b'9'

abbrev digits_from : Text → Bool
digits_from [] = false
digits_from (c ∷ s) = digit c && all digit s

abbrev behind_digit : Text → Bool
behind_digit [] = true
behind_digit (c ∷ s) =
    let rest = behind_digit s in if c == b'.' then digits_from s else digit c && rest

-- `^[0-9]+(\.[0-9]+)?$`
abbrev pub is_unsigned : Text → Bool
is_unsigned [] = false
is_unsigned (c ∷ s) = digit c && behind_digit s

-- `^-?[0-9]+(\.[0-9]+)?$`
abbrev pub is_decimal : Text → Bool
is_decimal [] = false
is_decimal (c ∷ s) = if c == b'-' then is_unsigned s else is_unsigned (c ∷ s)

abbrev capital : ℕ → Bool
capital c = leb b'A' c && leb c b'Z'

-- `^[A-Z]{3}$`
abbrev is_code : Text → Bool
is_code (a ∷ b ∷ c ∷ []) = capital a && capital b && capital c
is_code _ = false

-- A refinement of texts, and of integers.
abbrev on_text : (Text → Bool) → Value → Bool
on_text p (str s) = p s
on_text p _ = true

-- `minimum: 0` and `minimum: 1`
abbrev not_negative : Value → Bool
not_negative (num (integer (negsuc n))) = false
not_negative _ = true

abbrev positive : Value → Bool
positive (num (integer (pos n))) = leb 1 n
positive (num (integer (negsuc n))) = false
positive _ = true

abbrev pub decimal : Schema
decimal = refined (on_text is_decimal) text

abbrev at_most : ℕ → Schema
at_most n = refined (on_text (λ s. leb (length s) n)) text

abbrev reading : Schema
reading = nullable (refined not_negative whole)

-- A page of a collection: its items and the cursor of the next page.
abbrev pub page : Schema → Schema
page t = object ("items" ∶ list_of t ▸ "nextCursor" ∶ nullable text ▸ done)

-- A collection that comes whole.
abbrev pub collection : Schema → Schema
collection t = object ("items" ∶ list_of t ▸ done)

-- The text is of the format, by its name.
module _ (format : Text → Text → Bool) where
  abbrev formatted : String → Schema
  formatted name = refined (on_text (format (codes name))) text

  abbrev pub profile : Schema
  profile = object (
      "id"
      ∶ formatted "uuid" ▸ "email"
      ∶ formatted "email" ▸
        each_of ("firstName" ∷ "lastName" ∷ []) text (
          "currency"
          ∶ text ▸ "currency"
          ∶ matching is_code ▸ "volumeUnit"
          ∶ choice (named ("liter" ∷ "gallon" ∷ [])) ▸ "distanceUnit"
          ∶ choice (named ("kilometer" ∷ "mile" ∷ [])) ▸ done))

  abbrev pub car : Schema
  car = object (
      "id"
      ∶ formatted "uuid" ▸
        each_of ("type" ∷ "make" ∷ "name" ∷ []) text (
          each_of ("createdAt" ∷ "updatedAt" ∷ []) (formatted "date-time") (
            "fuel"
            ∶ choice (named ("gasoline" ∷ "diesel" ∷ "electric" ∷ "other" ∷ [])) ▸ "isActive"
            ∶ boolean ▸ "attachmentCount"
            ∶ count ▸ "refuelCount"
            ∶ count ▸ "firstRegistration"
            ∶ nullable (formatted "date") ▸ "licensePlate"
            ∶ nullable text ▸ "fin"
            ∶ nullable text ▸ "purchaseDate"
            ∶ nullable (formatted "date") ▸ "purchasePrice"
            ∶ nullable decimal ▸ "deregistrationDate"
            ∶ nullable (formatted "date") ▸ "information"
            ∶ nullable (at_most 2000) ▸ done)))

  abbrev pub repair : Schema
  repair = object (
      each_of ("id" ∷ "carId" ∷ []) (formatted "uuid") (
        "date"
        ∶ formatted "date-time" ▸ "station"
        ∶ text ▸ "amount"
        ∶ decimal ▸ "description"
        ∶ text ▸ "type"
        ∶ choice (named ("check" ∷ "service" ∷ "wearing_part" ∷ "crash_repair" ∷ [])) ▸
          "attachmentCount"
        ∶ count ▸ "odometerReading"
        ∶ reading ▸ done))

  abbrev pub ticket : Schema
  ticket = object (
      each_of ("id" ∷ "carId" ∷ []) (formatted "uuid") (
        "date"
        ∶ formatted "date-time" ▸ "location"
        ∶ text ▸ "amount"
        ∶ decimal ▸ "description"
        ∶ text ▸ "type"
        ∶ choice (named ("parking" ∷ "velocity" ∷ "other" ∷ [])) ▸ "attachmentCount"
        ∶ count ▸ done))

  abbrev pub refuel : Schema
  refuel = object (
      each_of ("id" ∷ "carId" ∷ []) (formatted "uuid") (
        "date"
        ∶ formatted "date-time" ▸ "station"
        ∶ text ▸
          each_of ("quantity" ∷ "amount" ∷ "unitPrice" ∷ []) decimal (
            "fuel"
            ∶ choice (named ("normal" ∷ "special" ∷ "home" ∷ "ac" ∷ "dc" ∷ "other" ∷ [])) ▸
              "attachmentCount"
            ∶ count ▸ "odometerReading"
            ∶ reading ▸ "distance"
            ∶ reading ▸ "consumption"
            ∶ nullable (refined (on_text is_unsigned) text) ▸ done)))

  abbrev pub expense_row : Schema
  expense_row = object (
      "date"
      ∶ formatted "date-time" ▸ "amount"
      ∶ decimal ▸ "kind"
      ∶ choice (named ("refuel" ∷ "repair" ∷ "ticket" ∷ [])) ▸ done)

  abbrev content_type : Schema
  content_type =
      choice
        (named ("image/jpeg" ∷ "image/png" ∷ "image/webp" ∷ "image/gif" ∷ "application/pdf" ∷ []))

  abbrev pub attachment : Schema
  attachment = object (
      "id"
      ∶ formatted "uuid" ▸ "filename"
      ∶ at_most 255 ▸ "createdAt"
      ∶ formatted "date-time" ▸ "contentType"
      ∶ content_type ▸ "size"
      ∶ refined positive count ▸ done)

  -- `AttachmentPage` has at most ten items and no next page.
  abbrev pub attachment_page : Schema
  attachment_page =
      refined
        (λ v.
          is_null (get v (codes "nextCursor"))
          && leb (length (elements (get v (codes "items")))) 10)
        (collection attachment)

  abbrev pub attachment_limits : Schema
  attachment_limits = object (
      "maxFileBytes"
      ∶ refined positive count ▸ "maxFilesPerEntry"
      ∶ refined positive count ▸ "allowedContentTypes"
      ∶ list_of content_type ▸ done)

  abbrev pub session : Schema
  session = object ("profile" ∶ profile ▸ done)

  abbrev pub passkey_summary : Schema
  passkey_summary = object (
      "id"
      ∶ formatted "uuid" ▸ "name"
      ∶ text ▸ "createdAt"
      ∶ formatted "date-time" ▸ "lastUsedAt"
      ∶ nullable (formatted "date-time") ▸ "authenticatorName"
      ∶ nullable text ▸ "backedUp"
      ∶ boolean ▸ done)

abbrev pub web_authn_options : Schema
web_authn_options = object ("publicKey" ∶ object ("challenge" ∶ text ▸ done) ▸ done)
