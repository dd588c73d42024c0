-- ===== src/Client/Http.antt =====
-- Requests, responses and errors of frontend/src/api/client.ts. What the browser does (fetch,
-- URLSearchParams, encodeURIComponent) is a parameter, `Platform`.
pub mod Laws
use my_cars.Prelude.{
  ℕ, suc, ◌+◌, ◌==◌, Bool, true, false, not, ◌&&◌, List, [], ◌∷◌, ◌++◌, Option, none, some, Text,
  codes, text_eq, ltb, leb, if◌then◌else◌,
}
use my_cars.Prelude.Digits.{show}
use my_cars.Json.{Value, str, arr, obj, Items, nil, item, members, read}
use my_cars.Client.Guards.{is_record}

-- A browser File.
pub record File : Type 0 where
  pub name : Text
  pub content_type : Text
  pub size : ℕ

pub data Body : Type 0 where
  no_body : Body
  -- JSON.stringify of the value
  json : Value → Body
  -- FormData with one file: its field, the file, and its file name
  form_file : Text → File → Text → Body

-- The second argument of fetch; no method stands for the default, GET.
pub record RequestInit : Type 0 where
  pub method : Option Text
  pub headers : List (Text × Text)
  pub body : Body

pub record Request : Type 0 where
  pub path : Text
  pub init : RequestInit
  pub open init use {method, body}
  pub credentials : Text
  pub headers : List (Text × Text)

-- `body` is what json() resolves to, and none where it rejects.
pub record Response : Type 0 where
  pub status : ℕ
  pub status_text : Text
  pub body : Option Value

-- `ApiError`, and its subclass `UnauthorizedError`.
pub data ApiError : Type 0 where
  api_error : ℕ → Text → Text → Option (List (Text × Text)) → ApiError
  unauthorized : ApiError

abbrev pub status_of : ApiError → ℕ
status_of (api_error status code message fields) = status
status_of unauthorized = 401

abbrev pub code_of : ApiError → Text
code_of (api_error status code message fields) = code
code_of unauthorized = codes "unauthorized"

pub data Result {ℓ} (A : Type ℓ) : Type ℓ where
  ok : A → Result A
  err : ApiError → Result A

-- The browser: `fetch` acts on the outside world and rejects with none.
pub record Platform (W : Type 0) : Type 0 where
  pub fetch : Request → W → Option Response × W
  pub encode_uri_component : Text → Text
  -- the text of URLSearchParams with these entries set in order
  pub url_search_params : List (Text × Text) → Text

-- An asynchronous function of the client.
abbrev pub Exec : Type 0 → Type 0 → Type 0
Exec W A = W → Result A × W

abbrev pub next : {W A B : Type 0} → Result A × W → (A → Exec W B) → Result B × W
next (ok a, w) f = f a w
next (err e, w) f = (err e, w)

infixl 5 ◌>>=◌ ◌>>◌
abbrev pub ◌>>=◌ : {W A B : Type 0} → Exec W A → (A → Exec W B) → Exec W B
◌>>=◌ m f w = next (m w) f

abbrev pub ◌>>◌ : {W B : Type 0} → Exec W (Unit {0}) → Exec W B → Exec W B
m >> k = m >>= λ _. k

abbrev pub lift : {W A : Type 0} → Result A → Exec W A
lift r w = (r, w)

abbrev pub invalid_response : ApiError
invalid_response =
    api_error 502 (codes "invalid_response") (codes "The server response is invalid") none

-- `response.ok`
abbrev pub is_ok : Response → Bool
is_ok r = leb 200 r.status && leb r.status 299

unfoldable pub json_body : Response → Result Value
json_body r = elim r.body [ some v ↦ ok v | none ↦ err invalid_response ]

entries_from : ℕ → Items → List (Text × Value)
entries_from i nil = []
entries_from i (item v vs) = (show i, v) ∷ entries_from (suc i) vs

-- `Object.entries`
abbrev pub entries : Value → List (Text × Value)
unfolding entries_from
entries (obj ms) = members ms
entries (arr vs) = entries_from 0 vs
entries _ = []

-- The entries whose value is a string.
abbrev pub string_entries : List (Text × Value) → List (Text × Text)
string_entries [] = []
string_entries ((k, str s) ∷ es) = (k, s) ∷ string_entries es
string_entries (_ ∷ es) = string_entries es

-- `typeof value === 'string' ? value : fallback`
abbrev pub string_or : Text → Value → Text
string_or fallback (str s) = s
string_or fallback _ = fallback

-- `text || fallback`
abbrev pub text_or : Text → Text → Text
text_or [] fallback = fallback
text_or (c ∷ s) fallback = c ∷ s

abbrev error_fields : Value → Option (List (Text × Text))
unfolding entries_from
error_fields fields = if is_record fields then some (string_entries (entries fields)) else none

abbrev error_without_body : Response → ApiError
error_without_body r =
    api_error r.status (codes "request_failed") (text_or r.status_text (codes "Request failed"))
      none

unfoldable pub error_from : Response → ApiError
unfolding entries_from
error_from r = elim r.body [
  | none ↦ error_without_body r
  | some body ↦
      if is_record body
      then api_error r.status (string_or (codes "request_failed") (read body "code"))
          (string_or r.status_text (read body "message")) (error_fields (read body "fields"))
      else error_without_body r
]

unfoldable pub decoded : Response → (Value → Bool) → Result Value
unfolding error_from json_body
decoded r guard =
    if r.status == 401
    then err unauthorized
    else if not (is_ok r)
    then err (error_from r)
    else elim (json_body r) [
      | err e ↦ err e
      | ok body ↦ if guard body then ok body else err invalid_response
    ]

-- The status that is left to test where `response.ok` holds.
abbrev expect_status : ℕ → Response → Result (Unit {0})
expect_status n r = if r.status == n then ok tt else err invalid_response

unfoldable pub expect_no_content : Response → Result (Unit {0})
unfolding error_from
expect_no_content r = if not (is_ok r) then err (error_from r) else expect_status 204 r

-- `if (response.status === 401) throw new UnauthorizedError()` before it.
unfoldable pub deleted : Response → Result (Unit {0})
unfolding expect_no_content
deleted r = if r.status == 401 then err unauthorized else expect_no_content r

abbrev pub default_init : RequestInit
default_init = record { method = none; headers = []; body = no_body }

-- `jsonRequest(method, body)`, and the init of the create and update functions.
abbrev pub json_request : Text → Value → RequestInit
json_request method body = record {
  method = some method;
  headers = (codes "Content-Type", codes "application/json") ∷ [];
  body = json body;
}

-- An init with a method alone.
abbrev pub method_only : Text → RequestInit
method_only method = record { method = some method; headers = []; body = no_body }

abbrev pub request_of : Text → RequestInit → Request
request_of path init = record {
  path = path;
  init = init;
  credentials = codes "same-origin";
  headers = (codes "Accept", codes "application/json") ∷ init.headers;
}

abbrev pub network_error : ApiError
network_error = api_error 0 (codes "network_error") (codes "The server could not be reached") none

abbrev pub responded : {W : Type 0} → Option Response × W → Result Response × W
responded (some r, w) = (ok r, w)
responded (none, w) = (err network_error, w)

module _ {W : Type 0} (p : Platform W) where
  unfoldable pub fetch_api : Text → RequestInit → Exec W Response
  fetch_api path init w = responded (p.fetch (request_of path init) w)
