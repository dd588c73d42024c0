-- ===== src/Pages/Cars/Laws.antt =====
-- What creating, saving and deleting a car leaves in the cache.
use my_cars.Prelude.{
  ◌≡◌, ap, ◌∙◌, List, [], ◌∷◌, Option, none, some, Text, text_eq_iff, arith, if◌then◌else◌,
}
use my_cars.Json.{Value}
use my_cars.Client.Http.{Platform, ok, File}
use my_cars.Client.Query.{ExpenseFilter}
use my_cars.Client.Entries.{create_car, update_car, delete_car}
use my_cars.Attachments.Upload.{Queue}
use my_cars.Pages.Cache.{Key, QueryClient, IsQueryClient, starts_with, is_key, extended}
use my_cars.Pages.Keys.{
  cars_list_query_key, car_query_key, repairs_query_key, refuels_list_key, tickets_list_key,
}
use my_cars.Pages.Entries.{App, id_of, upload_for}
use my_cars.Pages.Cars.{cache_created, created, create_page, saved, save_car, removed, remove_car}

-- What is cached for a new car: the car, unless files were queued.
abbrev pub if_no_files : List File → Value → Option Value
if_no_files [] car = some car
if_no_files (f ∷ fs) car = none

-- The key of a car's own query.
abbrev pub detail_key : Text → Key
detail_key id = extended (car_query_key id) []

module _ {C W : Type 0} (q : QueryClient C W) (laws : IsQueryClient q) (p : Platform W)
    (app : App C) where
  cache_created-lookup :
      (files : List File) (car : Value) (c : C)
      → q.get_query_data (detail_key (id_of car)) (cache_created q files car c)
        ≡ if_no_files files car
  cache_created-lookup [] car c =
      laws.get_set (car_query_key (id_of car)) car (detail_key (id_of car)) c
      ∙ ground (arith, text_eq_iff (id_of car) (id_of car))
  cache_created-lookup (f ∷ fs) car c =
      laws.get_removed (car_query_key (id_of car)) (detail_key (id_of car)) c
      ∙ ground (arith, text_eq_iff (id_of car) (id_of car))

  cache_created-list :
      (files : List File) (car : Value) (rest : Key) (c : C)
      → q.get_query_data (extended cars_list_query_key rest) (cache_created q files car c)
        ≡ q.get_query_data (extended cars_list_query_key rest) c
  cache_created-list [] car rest c =
      laws.get_set (car_query_key (id_of car)) car (extended cars_list_query_key rest) c
  cache_created-list (f ∷ fs) car rest c =
      laws.get_removed (car_query_key (id_of car)) (extended cars_list_query_key rest) c

  -- For a query client that keeps to its documentation, when the server has created a car, the query
  -- of the car holds it if no files were queued, and has no data if there were some, whose uploads
  -- the created car does not count yet; the list of cars and every query below its key have no data.
  pub create_page-lookup :
      (input car : Value) (queue : Queue) (w w' : W) (rest : Key)
      → create_car p input w ≡ (ok car, w')
      → (q.get_query_data (detail_key (id_of car)) (create_page q p input queue app w).0.cache
          ≡ if_no_files queue.files car)
        × (q.get_query_data
              (extended cars_list_query_key rest)
              (create_page q p input queue app w).0.cache
            ≡ none)
  unfolding create_page created upload_for
  create_page-lookup input car queue w w' rest e =
      let dropped = q.remove_queries cars_list_query_key app.cache in
      rw e (
        cache_created-lookup queue.files car dropped,
        cache_created-list queue.files car rest dropped
            ∙ laws.get_removed cars_list_query_key (extended cars_list_query_key rest) app.cache,
      )

  -- For a query client that keeps to its documentation, when the server has saved a car, the query of
  -- that car holds what the server returned, the list of cars and every query below its key have no
  -- data, and every other query has the data it had.
  pub save_car-lookup :
      (id : Text) (input car : Value) (w w' : W) (key : Key)
      → update_car p id input w ≡ (ok car, w')
      → q.get_query_data key (save_car q p id input app w).0.cache ≡ (
          if starts_with cars_list_query_key key
          then none
          else if is_key (car_query_key (id_of car)) key
          then some car
          else q.get_query_data key app.cache)
  unfolding save_car saved
  save_car-lookup id input car w w' key e = rw e (
      laws.get_removed cars_list_query_key key
        (q.set_query_data (car_query_key (id_of car)) car app.cache)
      ∙ ap (λ o. if starts_with cars_list_query_key key then none else o)
          (laws.get_set (car_query_key (id_of car)) car key app.cache))

  -- For a query client that keeps to its documentation, when the server has deleted a car, the
  -- car's query, the list of cars and the queries of repairs have no data, and every other query has
  -- the data it had.
  pub remove_car-lookup :
      (id : Text) (w w' : W) (key : Key)
      → delete_car p id w ≡ (ok tt, w')
      → q.get_query_data key (remove_car q p id app w).0.cache ≡ (
          if starts_with repairs_query_key key
          then none
          else if starts_with cars_list_query_key key
          then none
          else if starts_with (car_query_key id) key
          then none
          else q.get_query_data key app.cache)
  unfolding remove_car removed
  remove_car-lookup id w w' key e =
      let first = q.remove_queries (car_query_key id) app.cache in
      let second = q.remove_queries cars_list_query_key first in
      rw e (
        laws.get_removed repairs_query_key key second
        ∙ ap (λ o. if starts_with repairs_query_key key then none else o)
            (laws.get_removed cars_list_query_key key first
              ∙ ap (λ o. if starts_with cars_list_query_key key then none else o)
                  (laws.get_removed (car_query_key id) key app.cache)))

  -- For a query client that keeps to its documentation, deleting a car leaves every list of refuels
  -- and every list of tickets cached as it was, those of the deleted car among them.
  pub remove_car-stale :
      (id : Text) (w w' : W) (f : ExpenseFilter)
      → delete_car p id w ≡ (ok tt, w')
      → (q.get_query_data (refuels_list_key f) (remove_car q p id app w).0.cache
          ≡ q.get_query_data (refuels_list_key f) app.cache)
        × (q.get_query_data (tickets_list_key f) (remove_car q p id app w).0.cache
            ≡ q.get_query_data (tickets_list_key f) app.cache)
  remove_car-stale id w w' f e = (
    remove_car-lookup id w w' (refuels_list_key f) e,
    remove_car-lookup id w w' (tickets_list_key f) e,
  )
