-- ===== src/Pages/Passkeys/Changes.antt =====
-- The updates of the cached list of passkeys in frontend/src/components/passkey-section.tsx.
pub mod Laws
use my_cars.Prelude.{
  Bool, not, List, [], ◌∷◌, ◌++◌, Option, none, some, Text, codes, text_eq, map, keep,
  if◌then◌else◌,
}
use my_cars.Json.{Value, Items, nil, item, arr, elements}
use my_cars.Pages.Entries.{id_of}

-- `list ?? []`
abbrev pub cached_list : Option Value → List Value
cached_list none = []
cached_list (some v) = elements v

abbrev pub list_items : List Value → Items
list_items [] = nil
list_items (v ∷ vs) = item v (list_items vs)

-- The array of some values.
abbrev pub list_value : List Value → Value
list_value vs = arr (list_items vs)

-- `[...list, created]`
unfoldable pub append : Value → List Value → List Value
append created list = list ++ created ∷ []

-- `item.id === renamed.id ? renamed : item`
abbrev pub replaced : Value → Value → Value
replaced renamed passkey = if text_eq (id_of passkey) (id_of renamed) then renamed else passkey

-- `list.map((item) => …)`
unfoldable pub replace : Value → List Value → List Value
replace renamed list = map (replaced renamed) list

-- `list.filter((passkey) => passkey.id !== removedId)`
unfoldable pub drop : Text → List Value → List Value
drop removed_id list = keep (λ passkey. not (text_eq (id_of passkey) removed_id)) list

-- A change that the server has made, and the update that follows it.
pub data Change : Type 0 where
  added renamed : Value → Change
  removed : Text → Change

unfoldable pub update : Change → List Value → List Value
unfolding append replace drop
update (added created) list = append created list
update (renamed passkey) list = replace passkey list
update (removed id) list = drop id list

unfoldable pub update_all : List Change → List Value → List Value
unfolding update
update_all [] list = list
update_all (change ∷ changes) list = update_all changes (update change list)
