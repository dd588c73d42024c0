-- ===== src/Json/Schema.antt =====
-- What the API documents of a value, as a type of schemas with its meaning: an independent
-- description that the client's guards are measured against.
use my_cars.Prelude.{ℕ, ◌≡◌, ◌⊎◌, Bool, true, List, Text, any, All, text_eq}
use my_cars.Prelude.Int.{ℤ, pos}
use my_cars.Json.{Value, null, bool, num, str, arr, obj, integer, items, get, Items}

-- An object or an array: what `typeof value === 'object' && value !== null` lets through.
abbrev pub IsObject : Value → Type 0
IsObject (arr vs) = Unit
IsObject (obj ms) = Unit
IsObject _ = ⊥

mutual
  pub data Schema : Type 0 where
    text boolean whole count : Schema
    choice : List Text → Schema
    matching : (Text → Bool) → Schema
    nullable : Schema → Schema
    refined : (Value → Bool) → Schema → Schema
    list_of : Schema → Schema
    object : Fields → Schema

  pub data Fields : Type 0 where
    done : Fields
    field : Text → Schema → Fields → Fields

abbrev mutual
  pub Conforms : Schema → Value → Type 0
  Conforms text v = (s : Text) × (v ≡ str s)
  Conforms boolean v = (b : Bool) × (v ≡ bool b)
  Conforms whole v = (z : ℤ) × (v ≡ num (integer z))
  Conforms count v = (n : ℕ) × (v ≡ num (integer (pos n)))
  Conforms (choice names) v = (s : Text) × (v ≡ str s) × (any (text_eq s) names ≡ true)
  Conforms (matching p) v = (s : Text) × (v ≡ str s) × (p s ≡ true)
  Conforms (nullable t) v = (v ≡ null) ⊎ Conforms t v
  Conforms (refined p t) v = (p v ≡ true) × Conforms t v
  Conforms (list_of t) v = (vs : Items) × (v ≡ arr vs) × All (Conforms t) (items vs)
  Conforms (object fs) v = IsObject v × ConformsFields fs v

  pub ConformsFields : Fields → Value → Type 0
  ConformsFields done v = Unit
  ConformsFields (field k t fs) v = Conforms t (get v k) × ConformsFields fs v

-- A schema less its refinements.
abbrev mutual
  pub unrefined : Schema → Schema
  unrefined text = text
  unrefined boolean = boolean
  unrefined whole = whole
  unrefined count = count
  unrefined (choice names) = choice names
  unrefined (matching p) = matching p
  unrefined (nullable t) = nullable (unrefined t)
  unrefined (refined p t) = unrefined t
  unrefined (list_of t) = list_of (unrefined t)
  unrefined (object fs) = object (unrefined_fields fs)

  pub unrefined_fields : Fields → Fields
  unrefined_fields done = done
  unrefined_fields (field k t fs) = field k (unrefined t) (unrefined_fields fs)
