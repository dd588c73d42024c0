-- ===== src/Overviews/Paging.antt =====
-- The lists of the overviews, which are loaded page by page: the list queries of
-- frontend/src/{cars,refuels,repairs,tickets}/queries.ts, cars/expense-section.tsx and the pages in
-- routes/_authenticated that show such lists. The infinite query is the query library's, and a
-- parameter.
pub mod Served
pub mod Laws
use my_cars.Prelude.{
  Bool, true, false, List, [], ◌∷◌, ◌++◌, Option, none, some, Text, if◌then◌else◌,
}
use my_cars.Json.{Value, str, read, elements}
use my_cars.Client.Http.{Platform, Exec}
use my_cars.Client.Query.{ExpenseFilter, ListOptions}
use my_cars.Client.Entries.{get_cars, get_refuels, get_repairs, get_tickets}

pub data ListKind : Type 0 where
  cars refuels repairs tickets : ListKind

abbrev pub options : Option Text → ExpenseFilter → ListOptions
options cursor filter = record { cursor = cursor; limit = none; filter = filter }

-- `queryFn`, at its `pageParam`. The list of cars has no filter.
unfoldable pub query_fn :
    {W : Type 0} → Platform W → ListKind → ExpenseFilter → Option Text → Exec W Value
unfolding get_cars get_refuels get_repairs get_tickets
query_fn p cars filter cursor = get_cars p cursor none
query_fn p refuels filter cursor = get_refuels p (options cursor filter)
query_fn p repairs filter cursor = get_repairs p (options cursor filter)
query_fn p tickets filter cursor = get_tickets p (options cursor filter)

-- `initialPageParam`
abbrev pub initial_page_param : Option Text
initial_page_param = none

abbrev pub text_of : Value → Option Text
text_of (str s) = some s
text_of _ = none

-- `getNextPageParam`; null is none.
abbrev pub get_next_page_param : Value → Option Text
get_next_page_param last_page = text_of (read last_page "nextCursor")

-- `pages.flatMap((page) => page.items)`
abbrev pub flat_items : List Value → List Value
flat_items [] = []
flat_items (page ∷ pages) = elements (read page "items") ++ flat_items pages

-- `query.data?.pages.flatMap((page) => page.items) ?? []`
abbrev pub items_of : Option (List Value) → List Value
items_of none = []
items_of (some pages) = flat_items pages

-- An infinite query in a state `S`, with the pages it has, for a query function.
pub record InfiniteQuery (S W : Type 0) : Type 0 where
  pub pages : S → Option (List Value)
  pub is_pending : S → Bool
  pub has_next_page : S → Bool
  pub is_fetch_next_page_error : S → Bool
  pub is_fetching_next_page : S → Bool
  pub fetch_first : (Option Text → Exec W Value) → W → S × W
  pub fetch_next_page : (Option Text → Exec W Value) → S → W → S × W

-- What is shown of a list: with a table, whether loading more failed, and the button for loading
-- more, where there is one, by whether it is disabled.
pub data ListView : Type 0 where
  loading load_error empty : ListView
  table : List Value → Bool → Option Bool → ListView

module _ {S W : Type 0} (q : InfiniteQuery S W) where
  abbrev pub table_of : S → List Value → ListView
  table_of s [] = empty
  table_of s (v ∷ vs) =
      table (v ∷ vs) (q.is_fetch_next_page_error s)
        (if q.has_next_page s then some (q.is_fetching_next_page s) else none)

  abbrev loaded : S → Option (List Value) → ListView
  loaded s none = load_error
  loaded s (some pages) = table_of s (items_of (some pages))

  unfoldable pub list_view : S → ListView
  list_view s = if q.is_pending s then loading else loaded s (q.pages s)

  -- Whether the button for loading more is there and not disabled.
  abbrev pub can_load : ListView → Bool
  can_load (table vs failed (some false)) = true
  can_load _ = false

  -- A click on the button for loading more, where that is possible.
  unfoldable pub load_more : (Option Text → Exec W Value) → S × W → S × W
  unfolding list_view
  load_more f (s, w) = if can_load (list_view s) then q.fetch_next_page f s w else (s, w)
