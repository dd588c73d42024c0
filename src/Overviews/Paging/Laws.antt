-- ===== src/Overviews/Paging/Laws.antt =====
-- What a list shows after its pages were loaded one after another.
use my_cars.Prelude.{
  ℕ, zero, suc, ◌≡◌, Bool, true, false, List, [], ◌∷◌, ◌++◌, Option, none, some, Text,
}
use my_cars.Json.{Value}
use my_cars.Client.Http.{Exec, ok}
use my_cars.Overviews.Paging.{
  initial_page_param, get_next_page_param, InfiniteQuery, ListView, table, empty, load_more,
}

abbrev pub is_given : Option Text → Bool
is_given none = false
is_given (some s) = true

-- What the library documents of an infinite query with these options: it has data once the first
-- page has been fetched; the parameter of the next page is the one that the last page gives; a page
-- that is fetched is put behind the others; once it is, no page is being fetched.
pub record IsInfiniteQuery {S W : Type 0} (q : InfiniteQuery S W) : Type 0 where
  pub first :
      (f : Option Text → Exec W Value) (w w' : W) (page : Value)
      → f initial_page_param w ≡ (ok page, w')
      → (q.pages (q.fetch_first f w).0 ≡ some (page ∷ []))
        × ((q.fetch_first f w).1 ≡ w')
        × (q.is_fetching_next_page (q.fetch_first f w).0 ≡ false)
  pub pending : (s : S) (pages : List Value) → q.pages s ≡ some pages → q.is_pending s ≡ false
  pub has_next :
      (s : S) (ps : List Value) (last : Value)
      → q.pages s ≡ some (ps ++ last ∷ [])
      → q.has_next_page s ≡ is_given (get_next_page_param last)
  pub next :
      (f : Option Text → Exec W Value) (s : S) (w w' : W) (ps : List Value) (last page : Value)
      (cursor : Text)
      → q.pages s ≡ some (ps ++ last ∷ [])
      → get_next_page_param last ≡ some cursor
      → f (some cursor) w ≡ (ok page, w')
      → (q.pages (q.fetch_next_page f s w).0 ≡ some ((ps ++ last ∷ []) ++ page ∷ []))
        × ((q.fetch_next_page f s w).1 ≡ w')
        × (q.is_fetching_next_page (q.fetch_next_page f s w).0 ≡ false)

-- A list of which nothing is left to load.
abbrev pub shown : List Value → Bool → ListView
shown [] failed = empty
shown (v ∷ vs) failed = table (v ∷ vs) failed none

module _ {S W : Type 0} (q : InfiniteQuery S W) (f : Option Text → Exec W Value) where
  -- A number of clicks.
  abbrev pub clicked : ℕ → S × W → S × W
  clicked zero at = at
  clicked (suc n) at = clicked n (load_more q f at)

  -- All pages are there, and nothing is left to load.
  pub record IsComplete (pages : List Value) (s : S) : Type 0 where
    pub all_pages : q.pages s ≡ some pages
    pub none_left : q.has_next_page s ≡ false
