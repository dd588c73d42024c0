-- ===== src/Client/Enums.antt =====
-- The enumerations of frontend/src/api/client.ts, as the strings that the API sends.
use my_cars.Prelude.{Bool, List, [], ◌∷◌, Option, none, some, Text, codes, text_eq, if◌then◌else◌}

abbrev pub authentication_methods : List Text
authentication_methods = codes "magic_link" ∷ codes "passkey" ∷ codes "oidc" ∷ []

abbrev pub attachment_content_types : List Text
attachment_content_types =
    codes "image/jpeg"
    ∷ codes "image/png"
    ∷ codes "image/webp"
    ∷ codes "image/gif"
    ∷ codes "application/pdf"
    ∷ []

abbrev pub expense_kinds : List Text
expense_kinds = codes "refuel" ∷ codes "repair" ∷ codes "ticket" ∷ []

abbrev pub refuel_fuels : List Text
refuel_fuels =
    codes "normal" ∷ codes "special" ∷ codes "home" ∷ codes "ac" ∷ codes "dc" ∷ codes "other" ∷ []

abbrev pub fuel_grades : List Text
fuel_grades = codes "normal" ∷ codes "special" ∷ codes "other" ∷ []

abbrev pub charge_types : List Text
charge_types = codes "home" ∷ codes "ac" ∷ codes "dc" ∷ codes "other" ∷ []

-- `carFuel === 'electric'`, where carFuel may be undefined.
abbrev pub is_electric : Option Text → Bool
is_electric none = Bool.false
is_electric (some fuel) = text_eq fuel (codes "electric")

unfoldable pub refuel_fuels_for : Option Text → List Text
refuel_fuels_for car_fuel = if is_electric car_fuel then charge_types else fuel_grades

unfoldable pub default_refuel_fuel : Option Text → Text
default_refuel_fuel car_fuel = if is_electric car_fuel then codes "ac" else codes "normal"

abbrev pub repair_types : List Text
repair_types = codes "check" ∷ codes "service" ∷ codes "wearing_part" ∷ codes "crash_repair" ∷ []

abbrev pub ticket_types : List Text
ticket_types = codes "parking" ∷ codes "velocity" ∷ codes "other" ∷ []

abbrev pub volume_units : List Text
volume_units = codes "liter" ∷ codes "gallon" ∷ []

abbrev pub distance_units : List Text
distance_units = codes "kilometer" ∷ codes "mile" ∷ []

abbrev pub car_fuels : List Text
car_fuels = codes "gasoline" ∷ codes "diesel" ∷ codes "electric" ∷ codes "other" ∷ []
