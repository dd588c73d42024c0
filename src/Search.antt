-- ===== src/Search.antt =====
-- frontend/src/lib/list-search.ts and frontend/src/dashboard/search.ts: the search of a route,
-- read from unvalidated values.
pub mod Laws
use mathlib.Core.Option
use my_cars.Prelude.{
  ℕ, ◌≡◌, refl, Bool, true, false, ◌&&◌, ◌||◌, ◌==◌, List, [], ◌∷◌, ◌++◌, Option, none, some, Text,
  codes, length, take, drop, all, leb, is_digit, if◌then◌else◌,
}
use my_cars.Prelude.Int.{pos, negsuc}
use my_cars.Prelude.Digits.{show, read_digits}
use my_cars.Json.{Value, str, num, integer, fraction, read}
use my_cars.Dates.{DateRuntime}
use my_cars.Dates.Range.{is_calendar_date, parts}

-- `[0-9a-f]` without regard to case.
abbrev pub is_hex : ℕ → Bool
is_hex c = is_digit c || (leb b'a' c && leb c b'f' || leb b'A' c && leb c b'F')

-- `[0-9a-f]{n}` at the end of the text.
abbrev hex_end : ℕ → Text → Bool
hex_end n s = length s == n && all is_hex s

abbrev dash : Text → Bool
dash (c ∷ []) = c == b'-'
dash _ = false

-- `[0-9a-f]{n}-`, and what follows.
abbrev hex_dash : ℕ → (Text → Bool) → Text → Bool
hex_dash n p s = hex_end n (take n s) && (dash (take 1 (drop n s)) && p (drop 1 (drop n s)))

-- `uuid.test(value)`
unfoldable pub uuid : Text → Bool
uuid s = hex_dash 8 (hex_dash 4 (hex_dash 4 (hex_dash 4 (hex_end 12)))) s

-- The search of an expense overview.
pub record ListSearch : Type 0 where
  pub car_id : Option Text
  pub from : Option Text
  pub to : Option Text

-- `typeof value === 'string' && uuid.test(value) ? value : undefined`
unfoldable pub car_id_of : Value → Option Text
unfolding uuid
car_id_of (str s) = if uuid s then some s else none
car_id_of _ = none

module _ {D : Type 0} (r : DateRuntime D) where
  -- `isCalendarDate(value) ? value : undefined`
  unfoldable pub calendar_date_of : Value → Option Text
  unfolding is_calendar_date parts
  calendar_date_of (str s) = if is_calendar_date r (str s) then some s else none
  calendar_date_of _ = none

  unfoldable pub validate_list_search : Value → ListSearch
  unfolding car_id_of calendar_date_of
  validate_list_search search = record {
    car_id = car_id_of (read search "carId");
    from = calendar_date_of (read search "from");
    to = calendar_date_of (read search "to");
  }

-- The dashboard's search.
pub record DashboardSearch : Type 0 where
  pub year : Option ℕ
  pub car_id : Option Text

-- `String(search.year)` of a number or a string, and '' of anything else.
unfoldable pub year_text : Value → Text
year_text (num (integer (pos n))) = show n
year_text (num (integer (negsuc n))) = b'-' ∷ show (Prim.Native.Nat.suc n)
year_text (num (fraction s)) = s
year_text (str s) = s
year_text _ = []

-- `/^\d{4}$/.test(year) ? Number(year) : undefined`
unfoldable pub year_of : Value → Option ℕ
unfolding year_text
year_of v =
    let year = year_text v in
    if length year == 4 && all is_digit year then some (read_digits year) else none

unfoldable pub validate_dashboard_search : Value → DashboardSearch
unfolding year_of car_id_of
validate_dashboard_search search = record {
  year = year_of (read search "year");
  car_id = car_id_of (read search "carId");
}
