-- ===== src/Tests/Client.antt =====
-- A car from a server, and responses that are refused.
use my_cars.Prelude.{ℕ, suc, ◌≡◌, refl, ◌↔◌, Bool, true, List, [], ◌∷◌, Option, some, Text, codes}
use my_cars.Prelude.Int.{pos, negsuc}
use my_cars.Json.{Value, null, str, num, bool, obj, integer, Members, end, member}
use my_cars.Client.Guards.{
  is_car, is_repair, is_ticket, is_refuel, is_attachment, is_attachment_limits, is_car_page,
  is_repair_page, is_ticket_page, is_refuel_page, is_refuel_chart, is_expense_statistics,
  is_attachment_list, is_string_list, is_profile,
}
use my_cars.Client.Guards.Session.{
  is_session, is_passkey_summary, is_web_authn_options, is_passkey_list,
}
use my_cars.Json.Schema.{list_of, text}
use my_cars.Client.Guards.Schemas
use my_cars.Client.Http.{Response, Platform, ok, err, json_body, decoded, is_ok, invalid_response}
use my_cars.Client.Http.Laws.{decoded-eq-ok_iff}
use my_cars.Client.Entries
use my_cars.Client.Guards.Laws.{Fits, guards_iff, collections_iff}

abbrev with_nulls : List Text → Members → Members
with_nulls [] ms = ms
with_nulls (k ∷ ks) ms = member k null (with_nulls ks ms)

abbrev pub with_texts : List Text → Members → Members
with_texts [] ms = ms
with_texts (k ∷ ks) ms = member k (str (codes "x")) (with_texts ks ms)

abbrev pub sample_car : Value
sample_car = obj (
    with_texts
      (codes "id"
        ∷ codes "type"
        ∷ codes "make"
        ∷ codes "name"
        ∷ codes "createdAt"
        ∷ codes "updatedAt"
        ∷ [])
      (with_nulls
        (codes "firstRegistration"
          ∷ codes "licensePlate"
          ∷ codes "fin"
          ∷ codes "purchaseDate"
          ∷ codes "purchasePrice"
          ∷ codes "deregistrationDate"
          ∷ codes "information"
          ∷ [])
        (member (codes "fuel") (str (codes "diesel")) (
          member (codes "isActive") (bool true) (
            member (codes "attachmentCount") (num (integer (pos 2)))
              (member (codes "refuelCount") (num (integer (pos 7))) end))))))

abbrev pub response : ℕ → Option Value → Response
response status body = record { status = status; status_text = codes "status"; body = body }

-- A server that gives one answer, and counts the requests.
abbrev pub server : Response → Platform ℕ
server r = record {
  fetch = λ request w. (some r, suc w);
  encode_uri_component = λ t. t;
  url_search_params = λ es. [];
}

-- Formats that every text has.
abbrev any_format : Text → Text → Bool
any_format name s = true

guards_iff_example :
    Fits (Schemas.car any_format) is_car sample_car
    × Fits (Schemas.repair any_format) is_repair sample_car
    × Fits (Schemas.ticket any_format) is_ticket sample_car
    × Fits (Schemas.refuel any_format) is_refuel sample_car
    × Fits (Schemas.attachment any_format) is_attachment sample_car
    × Fits (Schemas.attachment_limits any_format) is_attachment_limits sample_car
    × Fits (Schemas.profile any_format) is_profile sample_car
    × Fits (Schemas.session any_format) is_session sample_car
    × Fits (Schemas.passkey_summary any_format) is_passkey_summary sample_car
    × Fits Schemas.web_authn_options is_web_authn_options sample_car
guards_iff_example = guards_iff any_format sample_car

collections_iff_example :
    Fits (Schemas.page (Schemas.car any_format)) is_car_page sample_car
    × Fits (Schemas.page (Schemas.repair any_format)) is_repair_page sample_car
    × Fits (Schemas.page (Schemas.ticket any_format)) is_ticket_page sample_car
    × Fits (Schemas.page (Schemas.refuel any_format)) is_refuel_page sample_car
    × Fits (Schemas.collection (Schemas.refuel any_format)) is_refuel_chart sample_car
    × Fits (Schemas.collection (Schemas.expense_row any_format)) is_expense_statistics sample_car
    × Fits (Schemas.attachment_page any_format) is_attachment_list sample_car
    × Fits (Schemas.collection (Schemas.passkey_summary any_format)) is_passkey_list sample_car
    × Fits (list_of text) is_string_list sample_car
collections_iff_example = collections_iff any_format sample_car

-- A repair with a negative reading and an amount that is no decimal passes, though its schema rules
-- it out.
abbrev odd_repair : Value
odd_repair = obj (
    with_texts
      (codes "id"
        ∷ codes "carId"
        ∷ codes "date"
        ∷ codes "station"
        ∷ codes "amount"
        ∷ codes "description"
        ∷ [])
      (member (codes "type") (str (codes "check")) (
        member (codes "attachmentCount") (num (integer (pos 0)))
          (member (codes "odometerReading") (num (integer (negsuc 0))) end))))

odd_repair_passes : is_repair odd_repair ≡ true
unfolding is_repair
odd_repair_passes = refl

decoded-eq-ok_iff_example : (decoded (response 200 (some sample_car)) is_car ≡ ok sample_car) ↔ (
    (is_ok (response 200 (some sample_car)) ≡ true)
    × (some sample_car ≡ some sample_car)
    × (is_car sample_car ≡ true))
decoded-eq-ok_iff_example = decoded-eq-ok_iff (response 200 (some sample_car)) is_car sample_car

refused_body : decoded (response 200 (some null)) is_car ≡ err invalid_response
unfolding decoded json_body is_car
refused_body = refl
