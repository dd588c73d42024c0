-- ===== src/Pages/Keys.antt =====
-- The keys of the queries: frontend/src/{cars,refuels,repairs,tickets,attachments,dashboard}/queries.ts,
-- auth/session.ts, components/passkey-section.tsx and routes/_authenticated/profile.tsx.
use my_cars.Prelude.{List, [], ◌∷◌, ◌++◌, Text, codes}
use my_cars.Client.Query.{ExpenseFilter, AttachmentOwner, collection_of}
use my_cars.Pages.Cache.{Segment, Key, extended}

abbrev pub cars_list_query_key : List Text
cars_list_query_key = codes "cars" ∷ codes "list" ∷ []

abbrev pub car_query_key : Text → List Text
car_query_key car_id = codes "cars" ∷ codes "detail" ∷ car_id ∷ []

-- The key of `allCarsQueryOptions`, and so on.
abbrev pub all_cars_key : Key
all_cars_key = extended cars_list_query_key (Segment.text (codes "all") ∷ [])

abbrev pub refuels_query_key : List Text
refuels_query_key = codes "refuels" ∷ []

abbrev pub refuel_query_key : Text → List Text
refuel_query_key id = refuels_query_key ++ codes "detail" ∷ id ∷ []

abbrev pub refuels_list_key : ExpenseFilter → Key
refuels_list_key f =
    extended refuels_query_key (Segment.text (codes "list") ∷ Segment.filter f ∷ [])

abbrev pub refuel_stations_key : Key
refuel_stations_key = extended refuels_query_key (Segment.text (codes "stations") ∷ [])

abbrev pub refuel_chart_key : ExpenseFilter → Key
refuel_chart_key f =
    extended refuels_query_key (Segment.text (codes "chart") ∷ Segment.filter f ∷ [])

abbrev pub repairs_query_key : List Text
repairs_query_key = codes "repairs" ∷ []

abbrev pub repair_query_key : Text → List Text
repair_query_key id = repairs_query_key ++ codes "detail" ∷ id ∷ []

abbrev pub repairs_list_key : ExpenseFilter → Key
repairs_list_key f =
    extended repairs_query_key (Segment.text (codes "list") ∷ Segment.filter f ∷ [])

abbrev pub repair_stations_key : Key
repair_stations_key = extended repairs_query_key (Segment.text (codes "stations") ∷ [])

abbrev pub tickets_query_key : List Text
tickets_query_key = codes "tickets" ∷ []

abbrev pub ticket_query_key : Text → List Text
ticket_query_key id = tickets_query_key ++ codes "detail" ∷ id ∷ []

abbrev pub tickets_list_key : ExpenseFilter → Key
tickets_list_key f =
    extended tickets_query_key (Segment.text (codes "list") ∷ Segment.filter f ∷ [])

abbrev pub ticket_locations_key : Key
ticket_locations_key = extended tickets_query_key (Segment.text (codes "locations") ∷ [])

abbrev pub attachments_query_key : List Text
attachments_query_key = codes "attachments" ∷ []

abbrev pub attachment_list_query_key : AttachmentOwner → List Text
attachment_list_query_key owner = attachments_query_key ++ collection_of owner.kind ∷ owner.id ∷ []

abbrev pub attachment_limits_key : List Text
attachment_limits_key = attachments_query_key ++ codes "limits" ∷ []

abbrev pub expense_statistics_key : ExpenseFilter → Key
expense_statistics_key f = extended (codes "stats" ∷ codes "expenses" ∷ []) (Segment.filter f ∷ [])

abbrev pub session_query_key : List Text
session_query_key = codes "session" ∷ []

abbrev pub passkeys_query_key : List Text
passkeys_query_key = codes "passkeys" ∷ []

abbrev pub profile_query_key : List Text
profile_query_key = codes "me" ∷ []
