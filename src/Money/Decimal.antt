-- ===== src/Money/Decimal.antt =====
-- frontend/src/lib/decimal.ts: sums of decimal strings on scaled integers. A RangeError is none.
pub mod Parse
pub mod Render
pub mod Sum
pub mod Nested
pub mod Groups
use mathlib.Core.Option
use my_cars.Prelude.{
  ℕ, ◌+◌, ◌-◌, ◌==◌, Bool, true, false, List, [], ◌∷◌, ◌++◌, Option, none, some, Text, is_digit,
  pad_start, pad_end, length, take, drop, max, if◌then◌else◌,
}
use my_cars.Prelude.Int.{ℤ, pos, negsuc, ◌+ℤ◌, ◌-ℤ◌, abs_ℕ, ltb_ℤ}
use my_cars.Prelude.Digits.{show, read_digits}

-- The groups of the pattern `^(-?)(\d+)(?:\.(\d+))?$`.
pub record Parsed : Type 0 where
  pub negative : Bool
  pub whole : Text
  pub fraction : Text

-- `\d*`: the digits at the front, and the rest.
abbrev pub digits_then : Text → Text × Text
digits_then [] = ([], [])
digits_then (c ∷ s) =
    let rest = digits_then s in if is_digit c then (c ∷ rest.0, rest.1) else ([], c ∷ s)

-- What follows the point has to be digits, to the end.
abbrev pub close : Bool → Text → Text × Text → Option Parsed
close negative whole (e ∷ f, []) =
    some (record { negative = negative; whole = whole; fraction = e ∷ f })
close negative whole _ = none

-- `(\d+)(?:\.(\d+))?$`, the digits at the front being split off.
abbrev pub parse_split : Bool → Text × Text → Option Parsed
parse_split negative ([], rest) = none
parse_split negative (c ∷ w, []) =
    some (record { negative = negative; whole = c ∷ w; fraction = [] })
parse_split negative (c ∷ w, d ∷ rest) =
    if d == b'.' then close negative (c ∷ w) (digits_then rest) else none

abbrev pub parse_unsigned : Bool → Text → Option Parsed
parse_unsigned negative s = parse_split negative (digits_then s)

-- `decimal.exec(value)`
unfoldable pub parse : Text → Option Parsed
parse [] = none
parse (c ∷ s) = if c == b'-' then parse_unsigned true s else parse_unsigned false (c ∷ s)

-- `values.map(…)`, which throws at the first value that is no decimal.
unfoldable pub parse_all : List Text → Option (List Parsed)
unfolding parse
parse_all [] = some []
parse_all (v ∷ vs) = elim (parse v) [
  | none ↦ none
  | some p ↦ Option.map (λ ps. p ∷ ps) (parse_all vs)
]

-- `Math.max(0, ...parsed.map((p) => p.fraction.length))`
unfoldable pub scale_of : List Parsed → ℕ
scale_of [] = 0
scale_of (p ∷ ps) = max (length p.fraction) (scale_of ps)

-- `BigInt(whole + fraction.padEnd(scale, '0'))`, with the sign.
unfoldable pub units : ℕ → Parsed → ℤ
units scale p =
    let n = read_digits (p.whole ++ pad_end scale b'0' p.fraction) in
    if p.negative then pos 0 -ℤ pos n else pos n

-- The loop over the parsed values.
unfoldable pub total_from : ℕ → ℤ → List Parsed → ℤ
unfolding units
total_from scale total [] = total
total_from scale total (p ∷ ps) = total_from scale (total +ℤ units scale p) ps

abbrev sign_of : ℤ → Text
sign_of total = if ltb_ℤ total (pos 0) then b'-' ∷ [] else []

abbrev pub padded : ℕ → ℤ → Text
padded scale total = pad_start (scale + 1) b'0' (show (abs_ℕ total))

-- `digits.slice(0, -scale)` and `digits.slice(-scale)`, around the point.
abbrev pub with_point : ℕ → Text → Text
with_point scale digits =
    take (length digits - scale) digits ++ b'.' ∷ drop (length digits - scale) digits

unfoldable pub render : ℕ → ℤ → Text
render scale total =
    let digits = padded scale total in
    if scale == 0 then sign_of total ++ digits else sign_of total ++ with_point scale digits

abbrev add_up : List Parsed → Text
unfolding scale_of total_from render
add_up parsed = render (scale_of parsed) (total_from (scale_of parsed) (pos 0) parsed)

unfoldable pub sum_decimals : List Text → Option Text
unfolding parse_all scale_of total_from render
sum_decimals values = Option.map add_up (parse_all values)
