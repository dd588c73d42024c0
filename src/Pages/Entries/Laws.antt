-- ===== src/Pages/Entries/Laws.antt =====
-- What creating, saving and deleting an entry leaves in the cache, and which car a create page offers.
use my_cars.Prelude.{
  ◌≡◌, refl, ap, ◌∙◌, ◌⊎◌, inl, inr, Bool, true, false, not, ◌&&◌, List, [], ◌∷◌, Option, none,
  some, Text, codes, text_eq, text_eq_iff, any, keep, arith, if◌then◌else◌, Bool-cases,
}
use my_cars.Json.{
  Value, Members, undefined, null, bool, num, str, arr, obj, end, member, get, find_member,
}
use my_cars.Client.Http.{Platform, Result, ok, err}
use my_cars.Client.Query.{AttachmentOwner, collection_of}
use my_cars.Attachments.Upload.{Queue, queue_upload}
use my_cars.Dates.{DateRuntime}
use my_cars.Dates.Deregistration.{is_deregistered}
use my_cars.Pages.Cache.{Key, QueryClient, IsQueryClient, starts_with}
use my_cars.Pages.Keys.{attachment_list_query_key}
use my_cars.Pages.Entries.{
  App, Collection, PickCar, id_of, without_car, omit_member, create_entry, create_page, created,
  upload_for, page_after, done, after, save_entry, remove_entry, invalidate_attachments, car_list,
  initial_car_id, find_car, or_only, only_car,
}

-- Whether a call of the server succeeded.
abbrev pub succeeded : {A : Type 0} → Result A → Bool
succeeded (ok a) = true
succeeded (err e) = false

-- The data that a query has, where the queries of the collection are dropped after a success.
abbrev pub kept_unless :
    {C W : Type 0} → QueryClient C W → Collection W → App C → Bool → Key → Option Value
kept_unless q k app success key =
    if success && starts_with k.query_key key then none else q.get_query_data key app.cache

module _ {C W : Type 0} (q : QueryClient C W) (laws : IsQueryClient q) (p : Platform W)
    (k : Collection W) (app : App C) where
  created-lookup :
      (r : Result (Value × List Text)) (key : Key)
      → q.get_query_data key (after (created q k) r app).cache
        ≡ kept_unless q k app (succeeded r) key
  unfolding created
  created-lookup (ok made) key = laws.get_removed k.query_key key app.cache
  created-lookup (err e) key = refl

  done-lookup :
      {A : Type 0} (r : Result A) (key : Key)
      → q.get_query_data key (after (λ v. done q k) r app).cache
        ≡ kept_unless q k app (succeeded r) key
  unfolding done
  done-lookup (ok a) key = laws.get_removed k.query_key key app.cache
  done-lookup (err e) key = refl

  upload_for-succeeded :
      (queue : Queue) (r : Result Value) (w : W)
      → succeeded (upload_for p k.kind queue (r, w)).0 ≡ succeeded r
  unfolding upload_for
  upload_for-succeeded queue (ok v) w = refl
  upload_for-succeeded queue (err e) w = refl

  -- For a query client that keeps to its documentation: when creating, saving or deleting an entry
  -- has ended, the queries of the entry's collection have no data if the server's answer was a
  -- success, whatever uploads failed, and every other query has the data it had; where the server
  -- refused, every query has the data it had.
  pub entry-lookup :
      (id : Text) (input : Value) (queue : Queue) (w : W) (key : Key)
      → (q.get_query_data key (create_page q p k input queue app w).0.cache
          ≡ kept_unless q k app (succeeded (k.create input w).0) key)
        × (q.get_query_data key (save_entry q k id input app w).0.cache
            ≡ kept_unless q k app (succeeded (k.update id (without_car input) w).0) key)
        × (q.get_query_data key (remove_entry q k id app w).0.cache
            ≡ kept_unless q k app (succeeded (k.delete id w).0) key)
  unfolding create_page create_entry save_entry remove_entry
  entry-lookup id input queue w key = (
    created-lookup (create_entry p k input queue w).0 key
        ∙ ap (λ b. kept_unless q k app b key)
            (upload_for-succeeded queue (k.create input w).0 (k.create input w).1),
    done-lookup (k.update id (without_car input) w).0 key,
    done-lookup (k.delete id w).0 key,
  )

-- Where the server creates the entry, the page that follows is the list, or the entry's edit page
-- with the names of the files that could not be uploaded, if there are any.
pub create_page-page :
    {C W : Type 0} (q : QueryClient C W) (p : Platform W) (k : Collection W) (input v : Value)
    (queue : Queue) (app : App C) (w w' : W)
    → k.create input w ≡ (ok v, w')
    → (create_page q p k input queue app w).0.page
      ≡ page_after q k.kind
          (id_of v)
          (queue_upload p (record { kind = k.kind; id = id_of v }) queue w').0
unfolding create_page create_entry upload_for created
create_page-page q p k input v queue app w w' e =
    ap (λ r. (after (created q k) (upload_for p k.kind queue r).0 app).page) e

omit_member_lem :
    (j k : Text) (ms : Members)
    → find_member k (omit_member j ms) ≡ (if text_eq j k then undefined else find_member k ms)
omit_member_lem j k end = ground arith
omit_member_lem j k (member m v ms) =
    ground (arith, omit_member_lem j k ms, text_eq_iff m j, text_eq_iff m k, text_eq_iff j k)

-- An update is the input less its car: no other member changes.
pub without_car_lem :
    (v : Value) (k : Text)
    → get (without_car v) k ≡ (if text_eq (codes "carId") k then undefined else get v k)
without_car_lem (obj ms) k = omit_member_lem (codes "carId") k ms
without_car_lem undefined k = ground arith
without_car_lem null k = ground arith
without_car_lem (bool b) k = ground arith
without_car_lem (num n) k = ground arith
without_car_lem (str s) k = ground arith
without_car_lem (arr vs) k = ground arith

marked_once :
    {C W : Type 0} (q : QueryClient C W) (laws : IsQueryClient q) (p : List Text) (c : C)
    (key : Key) (v : Value)
    → q.get_query_data key c ≡ some v
    → q.is_invalidated key (q.invalidate_queries p c)
      ≡ (if starts_with p key then true else q.is_invalidated key c)
marked_once q laws p c key v h = elim (Bool-cases (starts_with p key)) [
  | inl e ↦ rw e (laws.invalidated p key c v h e)
  | inr e ↦ rw e (laws.not_invalidated p key c e)
]

-- After a change of an entry's attachments, for a query client that keeps to its documentation,
-- every query with data has it still, and is marked to be fetched again exactly if it was marked, is
-- the list of the entry's attachments or is of the entry's collection.
pub invalidate_attachments_lem :
    {C W : Type 0} (q : QueryClient C W) (laws : IsQueryClient q) (owner : AttachmentOwner) (c : C)
    (key : Key) (v : Value)
    → q.get_query_data key c ≡ some v
    → (q.get_query_data key (invalidate_attachments q owner c) ≡ some v)
      × (q.is_invalidated key (invalidate_attachments q owner c) ≡ (
          if starts_with (collection_of owner.kind ∷ []) key
          then true
          else if starts_with (attachment_list_query_key owner) key
          then true
          else q.is_invalidated key c))
unfolding invalidate_attachments
invalidate_attachments_lem q laws owner c key v h =
    let list = attachment_list_query_key owner in
    let kind = collection_of owner.kind ∷ [] in
    let kept : q.get_query_data key (q.invalidate_queries list c) ≡ some v =
      laws.get_invalidated list key c ∙ h in
    (
      laws.get_invalidated kind key (q.invalidate_queries list c) ∙ kept,
      marked_once q laws kind (q.invalidate_queries list c) key v kept
          ∙ ap (λ b. if starts_with kind key then true else b) (marked_once q laws list c key v h),
    )

or_only_if :
    (b : Bool) (cars : List PickCar) (id : Text)
    → or_only cars (if b then some id else none) ≡ (if b then id else only_car cars)
or_only_if true cars id = refl
or_only_if false cars id = refl

module _ {D : Type 0} (r : DateRuntime D) (today : D) where
  -- Whether a car with this id is known and not deregistered.
  abbrev pub is_offered : Text → List PickCar → Bool
  is_offered id cars =
      any (λ car. text_eq car.id id && not (is_deregistered r car.state today)) cars

  find_car-offered :
      (id : Text) (cars : List PickCar)
      → find_car id (keep (λ car. not (is_deregistered r car.state today)) cars)
        ≡ (if is_offered id cars then some id else none)
  find_car-offered id [] = refl
  find_car-offered id (car ∷ cars) = elim (Bool-cases (is_deregistered r car.state today)) [
    | inl e ↦ rw e (ground (arith, find_car-offered id cars))
    | inr e ↦ rw e (ground (arith, find_car-offered id cars, text_eq_iff car.id id))
  ]

  only_car-offered :
      (cars kept : List PickCar)
      → keep (λ car. not (is_deregistered r car.state today)) cars ≡ kept
      → (only_car kept ≡ []) ⊎ (is_offered (only_car kept) cars ≡ true)
  only_car-offered cars [] e = inl refl
  only_car-offered cars (car ∷ []) e =
      let itself : find_car car.id (car ∷ []) ≡ some car.id =
        ground (arith, text_eq_iff car.id car.id) in
      inr (ground (arith, find_car-offered car.id cars, e, itself))
  only_car-offered cars (car ∷ other ∷ rest) e = inl refl

  -- A create page that is opened for a car whose id it is given chooses exactly that car if it is
  -- known and not deregistered; otherwise it chooses as a page that is opened for no car does, which
  -- is no car or a car that is not deregistered.
  pub initial_car_id_lem :
      (id : Text) (cars : List PickCar)
      → (initial_car_id r today (some id) (some cars)
          ≡ (if is_offered id cars then id else initial_car_id r today none (some cars)))
        × ((initial_car_id r today none (some cars) ≡ [])
            ⊎ (is_offered (initial_car_id r today none (some cars)) cars ≡ true))
  unfolding initial_car_id car_list
  initial_car_id_lem id cars =
      let kept = keep (λ car. not (is_deregistered r car.state today)) cars in
      (
        ap (or_only kept) (find_car-offered id cars) ∙ or_only_if (is_offered id cars) kept id,
        only_car-offered cars kept refl,
      )
