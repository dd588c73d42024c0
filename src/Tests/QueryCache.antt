-- ===== src/Tests/QueryCache.antt =====
-- A query client whose cache is a function of the keys.
use my_cars.Prelude.{
  ◌≡◌, refl, Bool, true, false, List, [], Option, none, some, Text, if◌then◌else◌,
}
use my_cars.Json.{Value}
use my_cars.Client.Http.{Exec, Result, ok, err}
use my_cars.Pages.Cache.{Key, QueryClient, IsQueryClient, starts_with, is_key, extended}

pub record Queries : Type 0 where
  pub entry : Key → Option Value
  pub marked : Key → Bool

abbrev pub stored : List Text → Value → Queries → Queries
stored p v c = record c { entry = λ k. if is_key p k then some v else c.entry k }

abbrev fetched :
    {W : Type 0} → List Text → Queries → Result Value × W → Result Value × (Queries × W)
fetched p c (ok v, w) = (ok v, (stored p v c, w))
fetched p c (err e, w) = (err e, (c, w))

abbrev ensured :
    {W : Type 0}
    → List Text
    → Exec W Value
    → Queries
    → W
    → Option Value
    → Result Value × (Queries × W)
ensured p f c w none = fetched p c (f w)
ensured p f c w (some v) = (ok v, (c, w))

abbrev pub queries : (W : Type 0) → QueryClient Queries W
queries W = record {
  get_query_data = λ k c. c.entry k;
  set_query_data = stored;
  remove_queries = λ p c. record c { entry = λ k. if starts_with p k then none else c.entry k };
  invalidate_queries =
      λ p c. record c { marked = λ k. if starts_with p k then true else c.marked k };
  is_invalidated = λ k c. c.marked k;
  ensure_query_data = λ p f c w. ensured p f c w (c.entry (extended p []));
}

fetched_lem :
    {W : Type 0} (p : List Text) (c : Queries) (r : Result Value) (w : W)
    → ((fetched p c (r, w)).0 ≡ r) × ((fetched p c (r, w)).1.1 ≡ w)
fetched_lem p c (ok v) w = (refl, refl)
fetched_lem p c (err e) w = (refl, refl)

pub queries-IsQueryClient : (W : Type 0) → IsQueryClient (queries W)
queries-IsQueryClient W = record {
  get_removed = λ p k c. refl;
  get_set = λ p v k c. refl;
  get_invalidated = λ p k c. refl;
  invalidated = λ p k c v h e. rw e refl;
  not_invalidated = λ p k c e. rw e refl;
  ensured_cached = λ p f c w v e. rw e refl;
  ensured_fetched = λ p f c w e. rw e (fetched_lem p c (f w).0 (f w).1);
}

abbrev pub no_queries : Queries
no_queries = record { entry = λ k. none; marked = λ k. false }
