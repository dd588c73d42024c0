-- ===== src/Client/Query.antt =====
-- The query strings and resource paths that frontend/src/api/client.ts builds.
use my_cars.Prelude.{
  ℕ, ◌==◌, List, [], ◌∷◌, ◌++◌, Option, none, some, Text, String, codes, if◌then◌else◌,
}
use my_cars.Prelude.Digits.{show}
use my_cars.Client.Http.{Platform}

-- The entries set on a URLSearchParams, in order.
abbrev pub Query : Type 0
Query = List (Text × Text)

-- `ExpenseFilter`; a member that is left out is none.
pub record ExpenseFilter : Type 0 where
  pub car_id : Option Text
  pub from : Option Text
  pub to : Option Text

pub record ListOptions : Type 0 where
  pub cursor : Option Text
  pub limit : Option ℕ
  pub filter : ExpenseFilter

-- `if (value) query.set(name, value)`, for a string, null or undefined.
abbrev set_truthy : String → Option Text → Query
set_truthy name none = []
set_truthy name (some []) = []
set_truthy name (some (c ∷ s)) = (codes name, c ∷ s) ∷ []

-- `if (limit !== undefined) query.set('limit', String(limit))`
abbrev set_limit : Option ℕ → Query
set_limit none = []
set_limit (some n) = (codes "limit", show n) ∷ []

-- `if (limit) query.set('limit', String(limit))`, as getRefuels does.
abbrev set_limit_truthy : Option ℕ → Query
set_limit_truthy none = []
set_limit_truthy (some n) = if n == 0 then [] else (codes "limit", show n) ∷ []

unfoldable pub set_filter : ExpenseFilter → Query
set_filter f = set_truthy "carId" f.car_id ++ (set_truthy "from" f.from ++ set_truthy "to" f.to)

-- The query of getCars, which has no filter.
unfoldable pub cars_query : Option Text → Option ℕ → Query
cars_query cursor limit = set_truthy "cursor" cursor ++ set_limit limit

-- The query of getRepairs and getTickets.
unfoldable pub list_query : ListOptions → Query
unfolding set_filter
list_query o = set_truthy "cursor" o.cursor ++ (set_limit o.limit ++ set_filter o.filter)

-- The query of getRefuels.
unfoldable pub refuels_query : ListOptions → Query
unfolding set_filter
refuels_query o = set_truthy "cursor" o.cursor ++ (set_limit_truthy o.limit ++ set_filter o.filter)

-- `search ? `?${search}` : ''`
abbrev question : Text → Text
question [] = []
question (c ∷ s) = b'?' ∷ c ∷ s

-- `q.size ? `?${q}` : ''`
abbrev question_size : Text → Query → Text
question_size text [] = []
question_size text (e ∷ q) = b'?' ∷ text

module _ {W : Type 0} (p : Platform W) where
  unfoldable pub with_search : String → Query → Text
  with_search path q = codes path ++ question (p.url_search_params q)

  unfoldable pub with_query : String → Query → Text
  with_query path q = codes path ++ question_size (p.url_search_params q) q

  unfoldable pub car_path : Text → Text
  car_path id = codes "/api/v1/cars/" ++ p.encode_uri_component id

  unfoldable pub repair_path : Text → Text
  repair_path id = codes "/api/v1/repairs/" ++ p.encode_uri_component id

  unfoldable pub ticket_path : Text → Text
  ticket_path id = codes "/api/v1/tickets/" ++ p.encode_uri_component id

  unfoldable pub refuel_path : Text → Text
  refuel_path id = codes "/api/v1/refuels/" ++ p.encode_uri_component id

  unfoldable pub passkey_path : Text → Text
  passkey_path id = codes "/api/v1/passkeys/" ++ p.encode_uri_component id

  unfoldable pub attachment_path : Text → Text
  attachment_path id = codes "/api/v1/attachments/" ++ p.encode_uri_component id

  unfoldable pub attachment_content_url : Text → Text
  unfolding attachment_path
  attachment_content_url id = attachment_path id ++ codes "/content"

-- `AttachmentOwner`: an entry, by its collection and its id.
pub data OwnerKind : Type 0 where
  cars refuels repairs tickets : OwnerKind

pub record AttachmentOwner : Type 0 where
  pub kind : OwnerKind
  pub id : Text

abbrev pub collection_of : OwnerKind → Text
collection_of cars = codes "cars"
collection_of refuels = codes "refuels"
collection_of repairs = codes "repairs"
collection_of tickets = codes "tickets"

module _ {W : Type 0} (p : Platform W) where
  unfoldable pub attachments_path : AttachmentOwner → Text
  attachments_path o =
      codes "/api/v1/"
      ++ (collection_of o.kind
          ++ (codes "/" ++ (p.encode_uri_component o.id ++ codes "/attachments")))
