-- ===== src/Search/Laws.antt =====
-- The searches of frontend/src/lib/list-search.ts and frontend/src/dashboard/search.ts, as the
-- values that a router holds.
use mathlib.Core.Option.{some-injective}
use mathlib.Core.Path.{subst}
use my_cars.Prelude.{
  ℕ, zero, suc, ◌^◌, ◌==◌, ◌≤◌, ◌<◌, ◌≡◌, ==_iff, refl, inl, inr, Bool, true, false, ◌&&◌, Option,
  none, some, Text, codes, length, all, is_digit, arith, Bool-cases, Option-cases, and_iff,
  if◌then◌else◌,
}
use my_cars.Prelude.Int.{pos}
use my_cars.Prelude.Digits.{show, show-digits, length-show, read_digits-show}
use my_cars.Prelude.Padded.{read_digits_bound}
use my_cars.Json.{Value, undefined, str, num, integer, obj, end, member, read}
use my_cars.Dates.{DateRuntime}
use my_cars.Dates.Range.{is_calendar_date}
use my_cars.Search.{
  uuid, ListSearch, car_id_of, calendar_date_of, validate_list_search, DashboardSearch, year_text,
  year_of, validate_dashboard_search,
}

-- A key of a search that the router holds.
abbrev pub optional_text : Option Text → Value
optional_text none = undefined
optional_text (some s) = str s

abbrev pub optional_year : Option ℕ → Value
optional_year none = undefined
optional_year (some n) = num (integer (pos n))

-- The searches as the values that the router holds.
abbrev pub list_search_value : ListSearch → Value
list_search_value s = obj (
    member (codes "carId") (optional_text s.car_id)
      (member (codes "from") (optional_text s.from) (member (codes "to") (optional_text s.to) end)))

abbrev pub dashboard_search_value : DashboardSearch → Value
dashboard_search_value s = obj (
    member (codes "year") (optional_year s.year)
      (member (codes "carId") (optional_text s.car_id) end))

kept :
    (t : Bool) (s : Text) (f : Value → Option Text)
    → (t ≡ true → f (str s) ≡ some s)
    → f undefined ≡ none
    → f (optional_text (if t then some s else none)) ≡ (if t then some s else none)
kept true s f h k = h refl
kept false s f h k = k

pub car_id_of_stable : (v : Value) → car_id_of (optional_text (car_id_of v)) ≡ car_id_of v
unfolding car_id_of
car_id_of_stable (str s) = kept (uuid s) s car_id_of (λ e. rw e refl) refl
car_id_of_stable _ = refl

pub calendar_date_of_stable :
    {D : Type 0} (r : DateRuntime D) (v : Value)
    → calendar_date_of r (optional_text (calendar_date_of r v)) ≡ calendar_date_of r v
unfolding calendar_date_of
calendar_date_of_stable r (str s) =
    kept (is_calendar_date r (str s)) s (calendar_date_of r) (λ e. rw e refl) refl
calendar_date_of_stable r _ = refl

-- The search of an expense overview, validated once more, is the same search.
pub validate_list_search_idempotent :
    {D : Type 0} (r : DateRuntime D) (search : Value)
    → validate_list_search r (list_search_value (validate_list_search r search))
      ≡ validate_list_search r search
unfolding validate_list_search
validate_list_search_idempotent r search = rw (
  car_id_of_stable (read search "carId"),
  calendar_date_of_stable r (read search "from"),
  calendar_date_of_stable r (read search "to"),
)

year_bound : (v : Value) (n : ℕ) → year_of v ≡ some n → n < 10000
unfolding year_of
year_bound v n e = elim (Bool-cases (length (year_text v) == 4 && all is_digit (year_text v))) [
  | inl h ↦
      let (l, ds) = (and_iff _ _).0 h in
      let bound = read_digits_bound (year_text v) ds in
      let same = some-injective _ _ (rw h at e) in
      subst (λ q. q < 10000) same (rw ((==_iff _ _).0 l) at bound)
  | inr h ↦ absurd (ground (arith, rw h at e))
]

small_power : (l : ℕ) → l ≤ 3 → 10 ^ l ≤ 1000
small_power zero h = omega arith
small_power (suc zero) h = omega arith
small_power (suc (suc zero)) h = omega arith
small_power (suc (suc (suc zero))) h = omega arith
small_power (suc (suc (suc (suc l)))) h = absurd (omega arith)

length-show_four : (n : ℕ) → 1000 ≤ n → n < 10000 → length (show n) ≡ 4
length-show_four n h k =
    let most = length-show n 3 k in
    let bound = rw (read_digits-show n) at (read_digits_bound (show n) (show-digits n)) in
    ground (arith, most, bound, small_power (length (show n)))

pub four_digits : (n : ℕ) → 1000 ≤ n → n < 10000 → year_of (num (integer (pos n))) ≡ some n
unfolding year_of year_text
four_digits n h k = rw (length-show_four n h k, show-digits n, read_digits-show n) refl

year_of_stable :
    (v : Value)
    → ((n : ℕ) → year_of v ≡ some n → 1000 ≤ n)
    → year_of (optional_year (year_of v)) ≡ year_of v
unfolding year_of year_text
year_of_stable v h = elim (Option-cases (year_of v)) [
  | inl e ↦ rw e refl
  | inr (n, e) ↦ rw e (four_digits n (h n e) (year_bound v n e))
]

-- A dashboard's search whose year, if it has one, is from 1000 on is the same search when it is
-- validated once more.
pub validate_dashboard_search_idempotent :
    (search : Value)
    → ((n : ℕ) → (validate_dashboard_search search).year ≡ some n → 1000 ≤ n)
    → validate_dashboard_search (dashboard_search_value (validate_dashboard_search search))
      ≡ validate_dashboard_search search
unfolding validate_dashboard_search
validate_dashboard_search_idempotent search h =
    rw (year_of_stable (read search "year") h, car_id_of_stable (read search "carId"))
