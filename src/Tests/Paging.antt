-- ===== src/Tests/Paging.antt =====
-- An infinite query that keeps its pages in a list, and a server with two pages of cars.
use my_cars.Prelude.{
  ℕ, zero, suc, Bool, true, false, List, [], ◌∷◌, ◌++◌, Option, none, some, Text, codes,
}
use my_cars.Json.{Value, null, str, obj, arr, item, nil, end, member}
use my_cars.Client.Http.{Platform, Result, ok, err}
use my_cars.Client.Query.{ExpenseFilter}
use my_cars.Overviews.Paging.{initial_page_param, get_next_page_param, InfiniteQuery}
use my_cars.Overviews.Paging.Laws.{is_given}
use my_cars.Tests.Client.{sample_car, response}

-- The pages, and whether loading more failed.
record Loaded : Type 0 where
  pages : Option (List Value)
  failed : Bool

abbrev last_cursor : List Value → Option Text
last_cursor [] = none
last_cursor (p ∷ []) = get_next_page_param p
last_cursor (p ∷ q ∷ ps) = last_cursor (q ∷ ps)

abbrev pages_of : Option (List Value) → List Value
pages_of none = []
pages_of (some ps) = ps

abbrev first_loaded : {W : Type 0} → Result Value × W → Loaded × W
first_loaded (ok p, w) = (record { pages = some (p ∷ []); failed = false }, w)
first_loaded (err e, w) = (record { pages = none; failed = false }, w)

abbrev next_loaded : {W : Type 0} → List Value → Result Value × W → Loaded × W
next_loaded ps (ok p, w) = (record { pages = some (ps ++ p ∷ []); failed = false }, w)
next_loaded ps (err e, w) = (record { pages = some ps; failed = true }, w)

abbrev pending : Option (List Value) → Bool
pending none = true
pending (some ps) = false

abbrev in_list : (W : Type 0) → InfiniteQuery Loaded W
in_list W = record {
  pages = λ s. s.pages;
  is_pending = λ s. pending s.pages;
  has_next_page = λ s. is_given (last_cursor (pages_of s.pages));
  is_fetch_next_page_error = λ s. s.failed;
  is_fetching_next_page = λ s. false;
  fetch_first = λ f w. first_loaded (f initial_page_param w);
  fetch_next_page = λ f s w. next_loaded (pages_of s.pages) (f (last_cursor (pages_of s.pages)) w);
}

abbrev page : Value → Value
page cursor =
    obj
      (member (codes "items") (arr (item sample_car nil)) (member (codes "nextCursor") cursor end))

-- The first request gets the first page, and every other one the last page.
abbrev answer : ℕ → Value
answer zero = page (str (codes "c2"))
answer (suc w) = page null

abbrev paged_server : Platform ℕ
paged_server = record {
  fetch = λ request w. (some (response 200 (some (answer w))), suc w);
  encode_uri_component = λ t. t;
  url_search_params = λ es. [];
}

abbrev no_filter : ExpenseFilter
no_filter = record { car_id = none; from = none; to = none }

abbrev two_pages : List Value
two_pages = answer 0 ∷ answer 1 ∷ []
