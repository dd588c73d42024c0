-- ===== src/Pages/Passkeys/Changes/Laws.antt =====
-- The cached list of passkeys against the store that it stands for: a passkey for each id.
use my_cars.Prelude.{
  ◌≡◌, refl, ap, ◌∙◌, List, [], ◌∷◌, Option, none, some, Text, text_eq, text_eq_iff, arith,
  if◌then◌else◌, inl, inr, Bool-cases,
}
use my_cars.Json.{Value}
use my_cars.Pages.Entries.{id_of}
use my_cars.Pages.Passkeys.Changes.{
  Change, added, renamed, removed, append, replace, drop, update, update_all,
}

-- The passkey with an id, if there is one.
abbrev pub Store : Type 0
Store = Text → Option Value

abbrev pub change_given : Option Value → Value → Option Value
change_given none v = none
change_given (some u) v = some v

-- A change of the store: a passkey is renamed or removed only where there is one with its id.
abbrev pub store_step : Change → Store → Store
store_step (added v) m k = if text_eq (id_of v) k then some v else m k
store_step (renamed v) m k = if text_eq (id_of v) k then change_given (m k) v else m k
store_step (removed id) m k = if text_eq id k then none else m k

pub store_steps : List Change → Store → Store
store_steps [] m = m
store_steps (change ∷ changes) m = store_steps changes (store_step change m)

-- The store that a list stands for.
abbrev pub lookup : List Value → Store
lookup [] k = none
lookup (v ∷ vs) k = let rest = lookup vs k in if text_eq (id_of v) k then some v else rest

-- The id of a new passkey is not in use.
abbrev pub IsFresh : Change → List Value → Type 0
IsFresh (added v) list = lookup list (id_of v) ≡ none
IsFresh (renamed v) list = Unit
IsFresh (removed id) list = Unit

unfoldable pub AreFresh : List Change → List Value → Type 0
AreFresh [] list = Unit
AreFresh (change ∷ changes) list = IsFresh change list × AreFresh changes (update change list)

lookup-append :
    (v : Value) (list : List Value) (k : Text)
    → lookup list (id_of v) ≡ none
    → lookup (append v list) k ≡ (if text_eq (id_of v) k then some v else lookup list k)
unfolding append
lookup-append v [] k fresh = refl
lookup-append v (u ∷ list) k fresh = ground (
  arith,
  lookup-append v list k,
  text_eq_iff (id_of u) (id_of v),
  text_eq_iff (id_of u) k,
  text_eq_iff (id_of v) k,
)

lookup-replace :
    (v : Value) (list : List Value) (k : Text)
    → lookup (replace v list) k
      ≡ (if text_eq (id_of v) k then change_given (lookup list k) v else lookup list k)
unfolding replace
lookup-replace v [] k = ground arith
lookup-replace v (u ∷ list) k = elim (Bool-cases (text_eq (id_of u) (id_of v))) [
  | inl e ↦
      let same : id_of u ≡ id_of v = (text_eq_iff (id_of u) (id_of v)).0 e in
      rw e (rw same (ground (arith, lookup-replace v list k)))
  | inr e ↦ rw e (
      ground (
        arith,
        lookup-replace v list k,
        text_eq_iff (id_of u) (id_of v),
        text_eq_iff (id_of u) k,
        text_eq_iff (id_of v) k,
      ))
]

pub lookup-drop :
    (id : Text) (list : List Value) (k : Text)
    → lookup (drop id list) k ≡ (if text_eq id k then none else lookup list k)
unfolding drop
lookup-drop id [] k = ground arith
lookup-drop id (u ∷ list) k = elim (Bool-cases (text_eq (id_of u) id)) [
  | inl e ↦
      let same : id_of u ≡ id = (text_eq_iff (id_of u) id).0 e in
      rw e (rw same (ground (arith, lookup-drop id list k)))
  | inr e ↦ rw e (
      ground (
        arith,
        lookup-drop id list k,
        text_eq_iff (id_of u) id,
        text_eq_iff (id_of u) k,
        text_eq_iff id k,
      ))
]

lookup-update :
    (change : Change) (list : List Value) (k : Text)
    → IsFresh change list
    → lookup (update change list) k ≡ store_step change (lookup list) k
unfolding update
lookup-update (added v) list k fresh = lookup-append v list k fresh
lookup-update (renamed v) list k fresh = lookup-replace v list k
lookup-update (removed id) list k fresh = lookup-drop id list k

-- For any sequence of changes in which no passkey is added under an id that is in use, the cached
-- list that the updates lead to has, under each id, exactly the passkey that the changes of the
-- store lead to.
pub lookup-update_all :
    (changes : List Change) (list : List Value)
    → AreFresh changes list
    → lookup (update_all changes list) ≡ store_steps changes (lookup list)
unfolding update_all store_steps AreFresh
lookup-update_all [] list fresh = refl
lookup-update_all (change ∷ changes) list (here, later) =
    lookup-update_all changes (update change list) later
    ∙ ap (store_steps changes) (λ i k. lookup-update change list k here i)
