-- ===== src/Json.antt =====
-- JavaScript values as `response.json()` and a router's search give them, and the tests that the
-- program makes on them: `typeof`, `Array.isArray`, `===`, `Number.isInteger` and member access.
pub mod Schema
pub mod Check
use my_cars.Prelude.{
  Bool, true, false, List, [], ◌∷◌, Text, String, codes, text_eq, any, if◌then◌else◌,
}
use my_cars.Prelude.Int.{ℤ}

-- A number is an integer, or a number with a fraction, held by the text that String gives for it.
pub data Number : Type 0 where
  integer : ℤ → Number
  fraction : Text → Number

mutual
  pub data Value : Type 0 where
    undefined null : Value
    bool : Bool → Value
    num : Number → Value
    str : Text → Value
    arr : Items → Value
    obj : Members → Value

  pub data Items : Type 0 where
    nil : Items
    item : Value → Items → Items

  pub data Members : Type 0 where
    end : Members
    member : Text → Value → Members → Members

abbrev pub items : Items → List Value
items nil = []
items (item v vs) = v ∷ items vs

abbrev pub members : Members → List (Text × Value)
members end = []
members (member k v ms) = (k, v) ∷ members ms

-- `value.k` of an object. A missing member is undefined.
abbrev pub find_member : Text → Members → Value
find_member k end = undefined
find_member k (member j v ms) = if text_eq j k then v else find_member k ms

-- `value.k` for a name that no array has: the program reads such names only.
abbrev pub get : Value → Text → Value
get (obj ms) k = find_member k ms
get _ k = undefined

-- `value.name`, by the name's literal.
abbrev pub read : Value → String → Value
read v name = get v (codes name)

-- `typeof value === 'string'`
abbrev pub is_string : Value → Bool
is_string (str s) = true
is_string _ = false

-- `typeof value === 'boolean'`
abbrev pub is_boolean : Value → Bool
is_boolean (bool b) = true
is_boolean _ = false

-- `value === null`
abbrev pub is_null : Value → Bool
is_null null = true
is_null _ = false

-- `typeof value === 'number' && Number.isInteger(value)`
abbrev pub is_integer : Value → Bool
is_integer (num (integer z)) = true
is_integer _ = false

-- `Array.isArray(value)`
abbrev pub is_array : Value → Bool
is_array (arr vs) = true
is_array _ = false

-- The elements of an array; of none where the value is no array.
abbrev pub elements : Value → List Value
elements (arr vs) = items vs
elements _ = []

-- `value === s` for a string s.
abbrev pub equals_text : Text → Value → Bool
equals_text s (str t) = text_eq s t
equals_text s _ = false

-- `names.some((name) => name === value)` and `names.includes(value)`, for an array of strings.
abbrev pub one_of : List Text → Value → Bool
one_of names v = any (λ name. equals_text name v) names
