-- ===== src/Forms/Texts.antt =====
-- The texts of the entry forms (frontend/src/refuels/refuel-form.tsx and its likes): trimming,
-- decimal commas and whole numbers. The forms share the patterns.
pub mod Laws
use mathlib.Core.Option
use my_cars.Prelude.{
  ℕ, suc, ◌==◌, Bool, true, false, not, ◌&&◌, ◌||◌, List, [], ◌∷◌, ◌++◌, Option, none, some, Text,
  codes, text_eq, is_digit, all, any, leb, if◌then◌else◌,
}
use my_cars.Prelude.Int.{ℤ, pos, negsuc, ◌-ℤ◌}
use my_cars.Prelude.Digits.{show, read_digits}
use my_cars.Money.Decimal.{digits_then}

-- What `trim` removes.
abbrev pub is_space : ℕ → Bool
is_space c =
    leb 9 c && leb c 13
    || (any (λ n. c == n) (32 ∷ 160 ∷ 5760 ∷ 8232 ∷ 8233 ∷ 8239 ∷ 8287 ∷ 12288 ∷ 65279 ∷ [])
        || leb 8192 c && leb c 8202)

abbrev pub trim_start : Text → Text
trim_start [] = []
trim_start (c ∷ s) = let rest = trim_start s in if is_space c then rest else c ∷ s

-- A code unit before a text that is trimmed at its end.
abbrev pub before_trimmed : ℕ → Text → Text
before_trimmed c [] = if is_space c then [] else c ∷ []
before_trimmed c (d ∷ t) = c ∷ d ∷ t

abbrev pub trim_end : Text → Text
trim_end [] = []
trim_end (c ∷ s) = before_trimmed c (trim_end s)

-- `value.trim()`
unfoldable pub trim : Text → Text
trim s = trim_end (trim_start s)

-- Digits, a comma and digits: with a point for the comma. None for any other text.
abbrev pub comma_split : Text × Text → Option Text
comma_split (c ∷ w, d ∷ e ∷ f) =
    if d == b',' && all is_digit (e ∷ f) then some (c ∷ w ++ b'.' ∷ e ∷ f) else none
comma_split _ = none

-- The same behind `-?`.
abbrev pub comma_replaced : Text → Option Text
comma_replaced [] = none
comma_replaced (c ∷ s) =
    if c == b'-'
    then Option.map (λ t. c ∷ t) (comma_split (digits_then s))
    else comma_split (digits_then (c ∷ s))

abbrev pub or_unchanged : Text → Option Text → Text
or_unchanged value none = value
or_unchanged value (some t) = t

-- `/^-?\d+,\d+$/.test(value) ? value.replace(',', '.') : value`
unfoldable pub comma_to_point : Text → Text
comma_to_point value = or_unchanged value (comma_replaced value)

-- null, a number or 'invalid'.
pub data Odometer (N : Type 0) : Type 0 where
  absent : Odometer N
  whole : N → Odometer N
  invalid : Odometer N

-- `Number` of a text, and `String` of a number.
pub record Numerals (N : Type 0) : Type 0 where
  pub number : Text → N
  pub string : N → Text

abbrev pub has_digits : Text → Bool
has_digits [] = false
has_digits (c ∷ s) = all is_digit (c ∷ s)

-- `/^-?\d+$/.test(text)`
abbrev pub is_whole : Text → Bool
is_whole [] = false
is_whole (c ∷ s) = if c == b'-' then has_digits s else has_digits (c ∷ s)

module _ {N : Type 0} (numerals : Numerals N) where
  -- A trimmed text as a reading.
  abbrev pub read_whole : Text → Odometer N
  read_whole [] = absent
  read_whole (c ∷ s) = if is_whole (c ∷ s) then whole (numerals.number (c ∷ s)) else invalid

  -- What a form shows of a number: `value == null ? '' : String(value)`.
  unfoldable pub reading_text : Option N → Text
  reading_text none = []
  reading_text (some n) = numerals.string n

-- `value ?? ''`
abbrev pub or_empty : Option Text → Text
or_empty none = []
or_empty (some s) = s
