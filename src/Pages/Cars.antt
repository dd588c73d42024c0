-- ===== src/Pages/Cars.antt =====
-- frontend/src/routes/_authenticated/cars/create.tsx and cars/$carId/edit.tsx
pub mod Laws
use my_cars.Prelude.{Bool, List, [], ◌∷◌, Text}
use my_cars.Json.{Value}
use my_cars.Client.Http.{Platform, Exec, Result, ok, err, File}
use my_cars.Client.Query.{OwnerKind}
use my_cars.Client.Entries.{create_car, update_car, delete_car}
use my_cars.Attachments.Upload.{Queue}
use my_cars.Pages.Cache.{QueryClient}
use my_cars.Pages.Keys.{cars_list_query_key, car_query_key, repairs_query_key}
use my_cars.Pages.Entries.{App, Page, list_page, detail_page, edit_page, id_of, upload_for, after}

abbrev pub page_after : Text → List Text → Page
page_after id [] = detail_page OwnerKind.cars id
page_after id (name ∷ names) = edit_page OwnerKind.cars id (name ∷ names)

module _ {C W : Type 0} (q : QueryClient C W) where
  -- The returned car is cached unless files were queued: its attachment count is then stale.
  abbrev pub cache_created : List File → Value → C → C
  cache_created [] car c = q.set_query_data (car_query_key (id_of car)) car c
  cache_created (f ∷ fs) car c = q.remove_queries (car_query_key (id_of car)) c

  -- `create.onSuccess`, where `files` are the queued ones.
  unfoldable pub created : List File → Value × List Text → App C → App C
  created files (car, failed) app = record {
    cache = cache_created files car (q.remove_queries cars_list_query_key app.cache);
    page = page_after (id_of car) failed;
  }

  -- `create.mutate(input)`, to its end.
  unfoldable pub create_page : Platform W → Value → Queue → App C → W → App C × (Queue × W)
  unfolding upload_for created
  create_page p input queue app w =
      let (made, rest) = upload_for p OwnerKind.cars queue (create_car p input w) in
      (after (created queue.files) made app, rest)

  -- `save.onSuccess`
  unfoldable pub saved : Value → App C → App C
  saved car app = record {
    cache =
        q.remove_queries cars_list_query_key
          (q.set_query_data (car_query_key (id_of car)) car app.cache);
    page = detail_page OwnerKind.cars (id_of car);
  }

  -- `save.mutate(input)`, to its end.
  unfoldable pub save_car : Platform W → Text → Value → App C → W → App C × W
  unfolding saved
  save_car p id input app w =
      let (result, w') = update_car p id input w in (after saved result app, w')

  -- `remove.onSuccess`
  unfoldable pub removed : Text → App C → App C
  removed id app = record {
    cache =
        q.remove_queries repairs_query_key
          (q.remove_queries cars_list_query_key (q.remove_queries (car_query_key id) app.cache));
    page = list_page OwnerKind.cars;
  }

  -- `remove.mutate()`, to its end.
  unfoldable pub remove_car : Platform W → Text → App C → W → App C × W
  unfolding removed
  remove_car p id app w =
      let (result, w') = delete_car p id w in (after (λ v. removed id) result app, w')
