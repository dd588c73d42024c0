-- ===== src/Client/Entries.antt =====
-- The endpoints for cars, repairs, tickets, refuels and statistics in frontend/src/api/client.ts.
-- An input that JSON.stringify takes is a value.
use my_cars.Prelude.{Bool, ◌++◌, Option, ℕ, Text, codes}
use my_cars.Json.{Value}
use my_cars.Client.Guards.{
  is_car, is_car_page, is_repair, is_repair_page, is_ticket, is_ticket_page, is_refuel,
  is_refuel_page, is_refuel_chart, is_expense_statistics, is_string_list,
}
use my_cars.Client.Http.{
  Platform, Exec, RequestInit, ◌>>=◌, lift, decoded, deleted, fetch_api, default_init, json_request,
  method_only,
}
use my_cars.Client.Query.{
  ExpenseFilter, ListOptions, set_filter, cars_query, list_query, refuels_query, with_search,
  with_query, car_path, repair_path, ticket_path, refuel_path,
}

module _ {W : Type 0} (p : Platform W) where
  -- A request whose response is decoded: `decoded(await fetchApi(path, init), guard)`.
  unfoldable pub fetch_decoded : Text → RequestInit → (Value → Bool) → Exec W Value
  fetch_decoded path init guard = do r ← fetch_api p path init; lift (decoded r guard)

  -- A request that deletes: DELETE, answered by 204.
  unfoldable pub fetch_deleted : Text → Exec W (Unit {0})
  fetch_deleted path = do r ← fetch_api p path (method_only (codes "DELETE")); lift (deleted r)

  unfoldable pub get_cars : Option Text → Option ℕ → Exec W Value
  get_cars cursor limit =
      fetch_decoded (with_search p "/api/v1/cars" (cars_query cursor limit)) default_init
        is_car_page

  unfoldable pub get_car : Text → Exec W Value
  get_car id = fetch_decoded (car_path p id) default_init is_car

  unfoldable pub create_car : Value → Exec W Value
  create_car input = fetch_decoded (codes "/api/v1/cars") (json_request (codes "POST") input) is_car

  unfoldable pub update_car : Text → Value → Exec W Value
  update_car id input = fetch_decoded (car_path p id) (json_request (codes "PATCH") input) is_car

  unfoldable pub delete_car : Text → Exec W (Unit {0})
  delete_car id = fetch_deleted (car_path p id)

  unfoldable pub get_repairs : ListOptions → Exec W Value
  get_repairs o =
      fetch_decoded (with_search p "/api/v1/repairs" (list_query o)) default_init is_repair_page

  unfoldable pub get_repair : Text → Exec W Value
  get_repair id = fetch_decoded (repair_path p id) default_init is_repair

  unfoldable pub get_repair_stations : Exec W Value
  get_repair_stations = fetch_decoded (codes "/api/v1/repairs/stations") default_init is_string_list

  unfoldable pub create_repair : Value → Exec W Value
  create_repair input =
      fetch_decoded (codes "/api/v1/repairs") (json_request (codes "POST") input) is_repair

  unfoldable pub update_repair : Text → Value → Exec W Value
  update_repair id input =
      fetch_decoded (repair_path p id) (json_request (codes "PATCH") input) is_repair

  unfoldable pub delete_repair : Text → Exec W (Unit {0})
  delete_repair id = fetch_deleted (repair_path p id)

  unfoldable pub get_tickets : ListOptions → Exec W Value
  get_tickets o =
      fetch_decoded (with_search p "/api/v1/tickets" (list_query o)) default_init is_ticket_page

  unfoldable pub get_ticket : Text → Exec W Value
  get_ticket id = fetch_decoded (ticket_path p id) default_init is_ticket

  unfoldable pub get_ticket_locations : Exec W Value
  get_ticket_locations =
      fetch_decoded (codes "/api/v1/tickets/locations") default_init is_string_list

  unfoldable pub create_ticket : Value → Exec W Value
  create_ticket input =
      fetch_decoded (codes "/api/v1/tickets") (json_request (codes "POST") input) is_ticket

  unfoldable pub update_ticket : Text → Value → Exec W Value
  update_ticket id input =
      fetch_decoded (ticket_path p id) (json_request (codes "PATCH") input) is_ticket

  unfoldable pub delete_ticket : Text → Exec W (Unit {0})
  delete_ticket id = fetch_deleted (ticket_path p id)

  unfoldable pub get_refuels : ListOptions → Exec W Value
  get_refuels o =
      fetch_decoded (with_query p "/api/v1/refuels" (refuels_query o)) default_init is_refuel_page

  unfoldable pub get_refuel : Text → Exec W Value
  get_refuel id = fetch_decoded (refuel_path p id) default_init is_refuel

  unfoldable pub get_refuel_stations : Exec W Value
  get_refuel_stations = fetch_decoded (codes "/api/v1/refuels/stations") default_init is_string_list

  unfoldable pub get_refuel_chart : ExpenseFilter → Exec W Value
  get_refuel_chart f =
      fetch_decoded (with_query p "/api/v1/refuels/chart" (set_filter f)) default_init
        is_refuel_chart

  -- The query is always written, also an empty one.
  unfoldable pub get_expense_statistics : ExpenseFilter → Exec W Value
  get_expense_statistics f =
      fetch_decoded (codes "/api/v1/stats/expenses?" ++ p.url_search_params (set_filter f))
        default_init is_expense_statistics

  unfoldable pub create_refuel : Value → Exec W Value
  create_refuel input =
      fetch_decoded (codes "/api/v1/refuels") (json_request (codes "POST") input) is_refuel

  unfoldable pub update_refuel : Text → Value → Exec W Value
  update_refuel id input =
      fetch_decoded (refuel_path p id) (json_request (codes "PATCH") input) is_refuel

  unfoldable pub delete_refuel : Text → Exec W (Unit {0})
  delete_refuel id = fetch_deleted (refuel_path p id)
