-- ===== src/Pages/Cache.antt =====
-- The client of the query library, whose cache the pages share: it is a parameter. A key consists of
-- texts and filters; the keys that are passed to its operations consist of texts.
use my_cars.Prelude.{
  ◌≡◌, Bool, true, false, ◌&&◌, List, [], ◌∷◌, Option, none, some, Text, text_eq, if◌then◌else◌,
}
use my_cars.Json.{Value}
use my_cars.Client.Http.{Exec, Result, ok}
use my_cars.Client.Query.{ExpenseFilter}

pub data Segment : Type 0 where
  text : Text → Segment
  filter : ExpenseFilter → Segment

abbrev pub Key : Type 0
Key = List Segment

-- The keys that begin with some texts.
abbrev pub starts_with : List Text → Key → Bool
starts_with [] k = true
starts_with (s ∷ p) [] = false
starts_with (s ∷ p) (Segment.text t ∷ k) = text_eq s t && starts_with p k
starts_with (s ∷ p) (Segment.filter f ∷ k) = false

-- The key that consists of some texts.
abbrev pub is_key : List Text → Key → Bool
is_key [] [] = true
is_key [] (t ∷ k) = false
is_key (s ∷ p) [] = false
is_key (s ∷ p) (Segment.text t ∷ k) = text_eq s t && is_key p k
is_key (s ∷ p) (Segment.filter f ∷ k) = false

-- The key of some texts, and the text keys with more segments behind.
abbrev pub extended : List Text → Key → Key
extended [] k = k
extended (s ∷ p) k = Segment.text s ∷ extended p k

-- `C` is what the cache holds, and `W` the outside world. The data of a query that has none yet is
-- none. `ensureQueryData` is given the key and the query function of its options.
pub record QueryClient (C W : Type 0) : Type 0 where
  pub get_query_data : Key → C → Option Value
  pub set_query_data : List Text → Value → C → C
  pub remove_queries : List Text → C → C
  pub invalidate_queries : List Text → C → C
  pub is_invalidated : Key → C → Bool
  pub ensure_query_data : List Text → Exec W Value → C → W → Result Value × (C × W)

abbrev pub set_given : {C W : Type 0} → QueryClient C W → List Text → C → Option Value → C
set_given q k c none = c
set_given q k c (some v) = q.set_query_data k v c

-- `setQueryData` with a function: a result that is undefined sets nothing.
abbrev pub update_query_data :
    {C W : Type 0} → QueryClient C W → List Text → (Option Value → Option Value) → C → C
update_query_data q k f c = set_given q k c (f (q.get_query_data (extended k []) c))

-- What the library documents. Removing drops the queries whose keys begin with the given one, and
-- data that is set is the data of that key. Invalidating keeps the data, and marks the queries whose
-- keys begin with the given one. `ensureQueryData` gives the cached data, and fetches what is not
-- cached.
pub record IsQueryClient {C W : Type 0} (q : QueryClient C W) : Type 0 where
  pub get_removed :
      (p : List Text) (k : Key) (c : C)
      → q.get_query_data k (q.remove_queries p c)
        ≡ (if starts_with p k then none else q.get_query_data k c)
  pub get_set :
      (p : List Text) (v : Value) (k : Key) (c : C)
      → q.get_query_data k (q.set_query_data p v c)
        ≡ (if is_key p k then some v else q.get_query_data k c)
  pub get_invalidated :
      (p : List Text) (k : Key) (c : C)
      → q.get_query_data k (q.invalidate_queries p c) ≡ q.get_query_data k c
  pub invalidated :
      (p : List Text) (k : Key) (c : C) (v : Value)
      → q.get_query_data k c ≡ some v
      → starts_with p k ≡ true
      → q.is_invalidated k (q.invalidate_queries p c) ≡ true
  pub not_invalidated :
      (p : List Text) (k : Key) (c : C)
      → starts_with p k ≡ false
      → q.is_invalidated k (q.invalidate_queries p c) ≡ q.is_invalidated k c
  pub ensured_cached :
      (p : List Text) (f : Exec W Value) (c : C) (w : W) (v : Value)
      → q.get_query_data (extended p []) c ≡ some v
      → q.ensure_query_data p f c w ≡ (ok v, (c, w))
  pub ensured_fetched :
      (p : List Text) (f : Exec W Value) (c : C) (w : W)
      → q.get_query_data (extended p []) c ≡ none
      → ((q.ensure_query_data p f c w).0 ≡ (f w).0) × ((q.ensure_query_data p f c w).1.1 ≡ (f w).1)
