-- ===== src/Overviews/Paging/Served.antt =====
-- The pages that a server gives one after another, and their items.
use my_cars.Prelude.{
  ◌≡◌, refl, sym, List, [], ◌∷◌, ◌++◌, append_assoc, append-nil, Option, none, some, Text,
}
use my_cars.Json.{Value, Items, arr, items, read, elements}
use my_cars.Client.Http.{Exec, ok}
use my_cars.Overviews.Paging.{initial_page_param, get_next_page_param, flat_items}

-- The pages that the server gives from a state of the world on, each by the cursor of the one
-- before: behind a last page, and of a whole list.
pub data Behind {W : Type 0} (f : Option Text → Exec W Value)
    : Value → W → List Value → Type 0 where
  end : {last : Value} {w : W} → get_next_page_param last ≡ none → Behind f last w []
  more :
      {last : Value} {w : W} (cursor : Text) (page : Value) (w' : W) (pages : List Value)
      → get_next_page_param last ≡ some cursor
      → f (some cursor) w ≡ (ok page, w')
      → Behind f page w' pages
      → Behind f last w (page ∷ pages)

pub data Serves {W : Type 0} (f : Option Text → Exec W Value) : W → List Value → Type 0 where
  serves :
      {w : W} (page : Value) (w' : W) (pages : List Value)
      → f initial_page_param w ≡ (ok page, w')
      → Behind f page w' pages
      → Serves f w (page ∷ pages)

-- The items of pages, page by page.
abbrev pub HaveItems : List Value → List (List Value) → Type 0
HaveItems [] [] = Unit
HaveItems (page ∷ pages) (vs ∷ lists) =
    ((array : Items) × (read page "items" ≡ arr array) × (items array ≡ vs)) × HaveItems pages lists
HaveItems _ _ = ⊥

-- The first page has items, or it is the only one.
abbrev pub StartsShown : List (List Value) → Type 0
StartsShown ((v ∷ vs) ∷ lists) = Unit
StartsShown ([] ∷ []) = Unit
StartsShown _ = ⊥

abbrev pub all_of : List (List Value) → List Value
all_of [] = []
all_of (vs ∷ lists) = vs ++ all_of lists

pub flat_items-all_of :
    (pages : List Value) (lists : List (List Value))
    → HaveItems pages lists
    → flat_items pages ≡ all_of lists
flat_items-all_of [] [] h = refl
flat_items-all_of [] (vs ∷ lists) h = absurd h
flat_items-all_of (page ∷ pages) [] h = absurd h
flat_items-all_of (page ∷ pages) (vs ∷ lists) ((array, e, k), h) =
    rw (e, k, flat_items-all_of pages lists h) refl

pub flat_items-append :
    (ps : List Value) (page : Value)
    → flat_items (ps ++ page ∷ []) ≡ flat_items ps ++ elements (read page "items")
flat_items-append [] page = append-nil (elements (read page "items"))
flat_items-append (p ∷ ps) page =
    rw (flat_items-append ps page) (
      sym (append_assoc (elements (read p "items")) (flat_items ps) (elements (read page "items"))))

-- Where pages are left, there are items.
abbrev pub HasItems : List Value → List Value → Type 0
HasItems [] vs = Unit
HasItems (page ∷ rest) [] = ⊥
HasItems (page ∷ rest) (v ∷ vs) = Unit

pub HasItems-append :
    (page : Value) (rest vs ws : List Value) → HasItems (page ∷ rest) vs → HasItems rest (vs ++ ws)
HasItems-append page rest [] ws h = absurd h
HasItems-append page [] (v ∷ vs) ws h = tt
HasItems-append page (p ∷ rest) (v ∷ vs) ws h = tt

pub first-HasItems :
    (page : Value) (rest : List Value) (lists : List (List Value))
    → HaveItems (page ∷ rest) lists
    → StartsShown lists
    → HasItems rest (flat_items (page ∷ []))
first-HasItems page rest [] h k = absurd h
first-HasItems page [] (vs ∷ lists) h k = tt
first-HasItems page (p ∷ rest) ([] ∷ []) h k = absurd h.1
first-HasItems page (p ∷ rest) ([] ∷ vs ∷ lists) h k = absurd k
first-HasItems page (p ∷ rest) ((v ∷ vs) ∷ lists) ((array, e, i), h) k = rw (e, i) tt
