-- ===== src/Client/Calls/Laws.antt =====
-- What holds of every call of frontend/src/api/client.ts that returns a resource.
use my_cars.Prelude.{◌≡◌, refl, ap, ◌∙◌, ◌↔◌, Bool, true, Option, none, some, Text, codes}
use my_cars.Json.{Value}
use my_cars.Json.Schema.{Schema, Conforms, unrefined}
use my_cars.Json.Check.{Conforms-unrefined}
use my_cars.Client.Guards.Laws.{guards_iff, collections_iff}
use my_cars.Client.Http.{
  Platform, Exec, Request, RequestInit, Response, Result, ok, err, network_error, decoded,
  fetch_api, request_of, next, responded, lift, is_ok,
}
use my_cars.Client.Http.Laws.{decoded-eq-ok_iff}
use my_cars.Client.Entries.{fetch_decoded}
use my_cars.Client.Calls.{
  Call, get_cars, get_repairs, get_tickets, get_refuels, get_refuel_chart, get_expense_statistics,
  get_car, get_repair, get_ticket, get_refuel, create_car, create_repair, create_ticket,
  create_refuel, update_me, update_car, update_repair, update_ticket, update_refuel,
  get_repair_stations, get_ticket_locations, get_refuel_stations, get_session, get_me,
  get_attachment_limits, start_passkey_registration, upload_attachment, register_passkey,
  rename_passkey, documented, perform,
}

-- How a call sends its request and decodes the answer.
record IsFetch {W : Type 0} (p : Platform W) (t : Schema) (m : Exec W Value) : Type 0 where
  path : Text
  init : RequestInit
  guard : Value → Bool
  same : m ≡ fetch_decoded p path init guard
  checks : (v : Value) → (guard v ≡ true) ↔ Conforms t v

module _ {W : Type 0} {p : Platform W} {t : Schema} where
  by_fetch :
      (path : Text) (init : RequestInit) (guard : Value → Bool)
      → ((v : Value) → (guard v ≡ true) ↔ Conforms t v)
      → IsFetch p t (fetch_decoded p path init guard)
  by_fetch path init guard checks = record {
    path = path;
    init = init;
    guard = guard;
    same = refl;
    checks = checks;
  }

perform-IsFetch :
    (format : Text → Text → Bool) {W : Type 0} (p : Platform W) (c : Call)
    → IsFetch p (unrefined (documented format c)) (perform p c)
unfolding perform
perform-IsFetch format p (get_cars cursor limit) =
    by_fetch _ _ _ (λ v. (collections_iff format v).0.0)
perform-IsFetch format p (get_repairs o) = by_fetch _ _ _ (λ v. (collections_iff format v).1.0)
perform-IsFetch format p (get_tickets o) = by_fetch _ _ _ (λ v. (collections_iff format v).2.0)
perform-IsFetch format p (get_refuels o) = by_fetch _ _ _ (λ v. (collections_iff format v).3.0)
perform-IsFetch format p (get_refuel_chart f) = by_fetch _ _ _ (λ v. (collections_iff format v).4.0)
perform-IsFetch format p (get_expense_statistics f) =
    by_fetch _ _ _ (λ v. (collections_iff format v).5.0)
perform-IsFetch format p (get_car id) = by_fetch _ _ _ (λ v. (guards_iff format v).0.0)
perform-IsFetch format p (get_repair id) = by_fetch _ _ _ (λ v. (guards_iff format v).1.0)
perform-IsFetch format p (get_ticket id) = by_fetch _ _ _ (λ v. (guards_iff format v).2.0)
perform-IsFetch format p (get_refuel id) = by_fetch _ _ _ (λ v. (guards_iff format v).3.0)
perform-IsFetch format p (create_car v) = by_fetch _ _ _ (λ v. (guards_iff format v).0.0)
perform-IsFetch format p (create_repair v) = by_fetch _ _ _ (λ v. (guards_iff format v).1.0)
perform-IsFetch format p (create_ticket v) = by_fetch _ _ _ (λ v. (guards_iff format v).2.0)
perform-IsFetch format p (create_refuel v) = by_fetch _ _ _ (λ v. (guards_iff format v).3.0)
perform-IsFetch format p (update_me v) = by_fetch _ _ _ (λ v. (guards_iff format v).6.0)
perform-IsFetch format p (update_car id v) = by_fetch _ _ _ (λ v. (guards_iff format v).0.0)
perform-IsFetch format p (update_repair id v) = by_fetch _ _ _ (λ v. (guards_iff format v).1.0)
perform-IsFetch format p (update_ticket id v) = by_fetch _ _ _ (λ v. (guards_iff format v).2.0)
perform-IsFetch format p (update_refuel id v) = by_fetch _ _ _ (λ v. (guards_iff format v).3.0)
perform-IsFetch format p get_repair_stations = by_fetch _ _ _ (λ v. (collections_iff format v).8.0)
perform-IsFetch format p get_ticket_locations = by_fetch _ _ _ (λ v. (collections_iff format v).8.0)
perform-IsFetch format p get_refuel_stations = by_fetch _ _ _ (λ v. (collections_iff format v).8.0)
perform-IsFetch format p get_session = by_fetch _ _ _ (λ v. (guards_iff format v).7.0)
perform-IsFetch format p get_me = by_fetch _ _ _ (λ v. (guards_iff format v).6.0)
perform-IsFetch format p get_attachment_limits = by_fetch _ _ _ (λ v. (guards_iff format v).5.0)
perform-IsFetch format p start_passkey_registration =
    by_fetch _ _ _ (λ v. (guards_iff format v).9.0)
perform-IsFetch format p (upload_attachment owner file) =
    by_fetch _ _ _ (λ v. (guards_iff format v).4.0)
perform-IsFetch format p (register_passkey name credential) =
    by_fetch _ _ _ (λ v. (guards_iff format v).8.0)
perform-IsFetch format p (rename_passkey id name) = by_fetch _ _ _ (λ v. (guards_iff format v).8.0)

-- What the browser's answer to a request becomes.
abbrev pub answer : (Value → Bool) → Option Response → Result Value
answer guard none = err network_error
answer guard (some r) = decoded r guard

answered :
    {W : Type 0} (guard : Value → Bool) (x : Option Response × W)
    → next (responded x) (λ r. lift (decoded r guard)) ≡ (answer guard x.0, x.1)
answered guard (none, w) = refl
answered guard (some r, w) = refl

module _ {W : Type 0} (p : Platform W) (w : W) where
  pub fetch_decoded_lem :
      (path : Text) (init : RequestInit) (guard : Value → Bool)
      → fetch_decoded p path init guard w
        ≡ (answer guard (p.fetch (request_of path init) w).0, (p.fetch (request_of path init) w).1)
  unfolding fetch_decoded fetch_api
  fetch_decoded_lem path init guard = answered guard (p.fetch (request_of path init) w)

  module _ (format : Text → Text → Bool) where
    perform-answer :
        (c : Call)
        → let f = perform-IsFetch format p c in
          perform p c w ≡ (
            answer f.guard (p.fetch (request_of f.path f.init) w).0,
            (p.fetch (request_of f.path f.init) w).1,
          )
    perform-answer c =
        let f = perform-IsFetch format p c in
        ap (λ m. m w) f.same ∙ fetch_decoded_lem f.path f.init f.guard

-- Where the server answers any request with a success whose body conforms to the documented schema
-- of a call's resource, the call returns that body.
pub perform-documented :
    (format : Text → Text → Bool) {W : Type 0} (p : Platform W) (c : Call) (w w' : W) (r : Response)
    (v : Value)
    → ((req : Request) → p.fetch req w ≡ (some r, w'))
    → is_ok r ≡ true
    → r.body ≡ some v
    → Conforms (documented format c) v
    → perform p c w ≡ (ok v, w')
perform-documented format {W} p c w w' r v fetched success body conforms =
    let f = perform-IsFetch format p c in
    let passes = (f.checks v).1 (Conforms-unrefined (documented format c) v conforms) in
    perform-answer p w format c
    ∙ ap (λ (x : Option Response × W). (answer f.guard x.0, x.1))
        (fetched (request_of f.path f.init))
    ∙ ap (λ a. (a, w')) ((decoded-eq-ok_iff r f.guard v).1 (success, body, passes))

-- A call makes exactly one request, with the session cookie of the same origin, and its result
-- is what the answer decodes to; if the request fails, that is the network error.
pub perform_one_request :
    {W : Type 0} (p : Platform W) (c : Call) (w : W)
    → (req : Request) × (guard : Value → Bool) × (req.credentials ≡ codes "same-origin")
      × (perform p c w ≡ (answer guard (p.fetch req w).0, (p.fetch req w).1))
perform_one_request p c w =
    let f = perform-IsFetch (λ name s. true) p c in
    (request_of f.path f.init, f.guard, refl, perform-answer p w (λ name s. true) c)
