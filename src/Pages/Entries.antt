-- ===== src/Pages/Entries.antt =====
-- The pages that create and edit refuels, repairs and tickets (frontend/src/routes/_authenticated),
-- and the refresh of frontend/src/attachments/attachment-manager.tsx. The pages of the three
-- collections share this code but for the names, which a Collection holds.
pub mod Laws
use mathlib.Core.Option
use my_cars.Prelude.{
  Bool, not, List, [], ◌∷◌, Option, none, some, Text, codes, text_eq, keep, if◌then◌else◌,
}
use my_cars.Json.{Value, Members, undefined, null, bool, num, str, arr, obj, end, member, read}
use my_cars.Client.Http.{Platform, Exec, Result, ok, err}
use my_cars.Client.Query.{AttachmentOwner, OwnerKind, collection_of}
use my_cars.Client.Entries.{
  create_refuel, update_refuel, delete_refuel, create_repair, update_repair, delete_repair,
  create_ticket, update_ticket, delete_ticket,
}
use my_cars.Attachments.Upload.{Queue, queue_upload}
use my_cars.Dates.{DateRuntime}
use my_cars.Dates.Deregistration.{CarState, is_deregistered}
use my_cars.Pages.Cache.{QueryClient}
use my_cars.Pages.Keys.{
  refuels_query_key, repairs_query_key, tickets_query_key, attachment_list_query_key,
}

-- Where the app has navigated to. An edit page is told which uploads failed, if any.
pub data Page : Type 0 where
  list_page : OwnerKind → Page
  detail_page : OwnerKind → Text → Page
  edit_page : OwnerKind → Text → List Text → Page
  start_page : Page
  login_page : Text → Page
  other_page : Text → Page

pub record App (C : Type 0) : Type 0 where
  pub cache : C
  pub page : Page

-- What the pages of one collection call.
pub record Collection (W : Type 0) : Type 0 where
  pub kind : OwnerKind
  pub query_key : List Text
  pub create : Value → Exec W Value
  pub update : Text → Value → Exec W Value
  pub delete : Text → Exec W (Unit {0})

-- `entry.id`; the guards let only texts through.
abbrev pub id_of : Value → Text
id_of v = elim (read v "id") [ str s ↦ s | _ ↦ [] ]

abbrev pub omit_member : Text → Members → Members
omit_member k end = end
omit_member k (member j v ms) =
    let rest = omit_member k ms in if text_eq j k then rest else member j v rest

-- `({ carId: _car, ...update }) => update`
abbrev pub without_car : Value → Value
without_car (obj ms) = obj (omit_member (codes "carId") ms)
without_car v = v

module _ {W : Type 0} (p : Platform W) where
  abbrev pub refuels : Collection W
  refuels = record {
    kind = OwnerKind.refuels;
    query_key = refuels_query_key;
    create = create_refuel p;
    update = update_refuel p;
    delete = delete_refuel p;
  }

  abbrev pub repairs : Collection W
  repairs = record {
    kind = OwnerKind.repairs;
    query_key = repairs_query_key;
    create = create_repair p;
    update = update_repair p;
    delete = delete_repair p;
  }

  abbrev pub tickets : Collection W
  tickets = record {
    kind = OwnerKind.tickets;
    query_key = tickets_query_key;
    create = create_ticket p;
    update = update_ticket p;
    delete = delete_ticket p;
  }

  unfoldable pub upload_for :
      OwnerKind → Queue → Result Value × W → Result (Value × List Text) × (Queue × W)
  unfolding queue_upload
  upload_for kind queue (err e, w) = (err e, (queue, w))
  upload_for kind queue (ok v, w) =
      let (failed, rest) = queue_upload p (record { kind = kind; id = id_of v }) queue w in
      (ok (v, failed), rest)

  -- `create.mutationFn`: the queued files are uploaded once the entry exists.
  unfoldable pub create_entry :
      Collection W → Value → Queue → W → Result (Value × List Text) × (Queue × W)
  unfolding upload_for
  create_entry k input queue w = upload_for k.kind queue (k.create input w)

-- A mutation that has ended: `onSuccess` is called after a success only.
abbrev pub after : {A B : Type 0} → (A → B → B) → Result A → B → B
after on_success (ok a) s = on_success a s
after on_success (err e) s = s

module _ {C W : Type 0} (q : QueryClient C W) where
  abbrev pub page_after : OwnerKind → Text → List Text → Page
  page_after kind id [] = list_page kind
  page_after kind id (name ∷ names) = edit_page kind id (name ∷ names)

  -- `create.onSuccess`
  unfoldable pub created : Collection W → Value × List Text → App C → App C
  created k (entry, failed) app = record {
    cache = q.remove_queries k.query_key app.cache;
    page = page_after k.kind (id_of entry) failed;
  }

  -- `create.mutate(input)`, to its end.
  unfoldable pub create_page :
      Platform W → Collection W → Value → Queue → App C → W → App C × (Queue × W)
  unfolding create_entry created
  create_page p k input queue app w =
      let (made, rest) = create_entry p k input queue w in (after (created k) made app, rest)

  -- `done()`
  unfoldable pub done : Collection W → App C → App C
  done k app = record { cache = q.remove_queries k.query_key app.cache; page = list_page k.kind }

  -- `save.mutate(input)` and `remove.mutate()`, to their ends.
  unfoldable pub save_entry : Collection W → Text → Value → App C → W → App C × W
  unfolding done
  save_entry k id input app w =
      let (saved, w') = k.update id (without_car input) w in (after (λ v. done k) saved app, w')

  unfoldable pub remove_entry : Collection W → Text → App C → W → App C × W
  unfolding done
  remove_entry k id app w =
      let (removed, w') = k.delete id w in (after (λ v. done k) removed app, w')

  -- `useInvalidateAttachments(owner)()`
  unfoldable pub invalidate_attachments : AttachmentOwner → C → C
  invalidate_attachments owner c =
      q.invalidate_queries (collection_of owner.kind ∷ [])
        (q.invalidate_queries (attachment_list_query_key owner) c)

-- What a create page reads of a car.
pub record PickCar : Type 0 where
  pub id : Text
  pub state : CarState

abbrev pub find_car : Text → List PickCar → Option Text
find_car id [] = none
find_car id (car ∷ cars) = if text_eq car.id id then some car.id else find_car id cars

-- `carList.length === 1 ? carList[0].id : ''`
abbrev pub only_car : List PickCar → Text
only_car (car ∷ []) = car.id
only_car _ = []

abbrev pub asked_car : Option Text → List PickCar → Option Text
asked_car none cars = none
asked_car (some id) cars = find_car id cars

abbrev pub or_only : List PickCar → Option Text → Text
or_only cars none = only_car cars
or_only cars (some id) = id

module _ {D : Type 0} (r : DateRuntime D) (today : D) where
  -- `carList`, of the cars that are known so far.
  unfoldable pub car_list : Option (List PickCar) → List PickCar
  unfolding is_deregistered
  car_list none = []
  car_list (some cars) = keep (λ car. not (is_deregistered r car.state today)) cars

  -- `initialCarId`
  unfoldable pub initial_car_id : Option Text → Option (List PickCar) → Text
  unfolding car_list
  initial_car_id car_id cars = or_only (car_list cars) (asked_car car_id (car_list cars))
