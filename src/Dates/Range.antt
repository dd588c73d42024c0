-- ===== src/Dates/Range.antt =====
-- frontend/src/lib/date-range.ts. A RangeError is none.
pub mod Format
pub mod Laws
pub mod Start
use mathlib.Core.Option
use my_cars.Prelude.{
  ℕ, ◌+◌, ◌-◌, ◌==◌, Bool, true, false, ◌&&◌, List, [], ◌∷◌, ◌++◌, Option, none, some, codes,
  is_digit, pad_start, min, if◌then◌else◌,
}
use my_cars.Prelude
use my_cars.Prelude.Int.{ℤ, pos, negsuc, sub_ℕ, ◌+ℤ◌, ◌-ℤ◌, eq_ℤ}
use my_cars.Prelude.Digits.{show, read_digits}
use my_cars.Json.{Value, str}
use my_cars.Dates.{DateRuntime}

-- The numbers of a text that matches `^(\d{4})-(\d{2})-(\d{2})$`, the month as it is written.
unfoldable pub match_date : Prelude.Text → Option (ℕ × ℕ × ℕ)
match_date (a ∷ b ∷ c ∷ d ∷ s ∷ e ∷ f ∷ t ∷ g ∷ h ∷ []) =
    if (is_digit a && (is_digit b && (is_digit c && is_digit d)))
      && ((is_digit e && is_digit f) && (is_digit g && is_digit h))
      && (s == b'-' && t == b'-')
    then some (read_digits (a ∷ b ∷ c ∷ d ∷ []), read_digits (e ∷ f ∷ []), read_digits (g ∷ h ∷ []))
    else none
match_date _ = none

module _ {D : Type 0} (r : DateRuntime D) where
  -- `date.getFullYear() === year && …`: whether the date has not rolled over.
  abbrev pub same_fields : D → ℕ → ℤ → ℕ → Bool
  same_fields t y m d = r.full_year t == y && (eq_ℤ (pos (r.month t)) m && r.date t == d)

  abbrev check_parts : ℕ × ℕ × ℕ → Option (ℕ × ℤ × ℕ)
  check_parts (y, m, d) =
      let month = sub_ℕ m 1 in
      if same_fields (r.make y month d) y month d then some (y, month, d) else none

  unfoldable pub parts : Prelude.Text → Option (ℕ × ℤ × ℕ)
  unfolding match_date Option.bind
  parts value = Option.bind (match_date value) check_parts

  abbrev is_some : Option (ℕ × ℤ × ℕ) → Bool
  is_some none = false
  is_some (some p) = true

  unfoldable pub is_calendar_date : Value → Bool
  unfolding parts
  is_calendar_date (str s) = is_some (parts s)
  is_calendar_date _ = false

  -- `pad(value, length)`
  abbrev pub pad : ℕ → ℕ → Prelude.Text
  pad value n = pad_start n b'0' (show value)

  unfoldable pub to_calendar_date : D → Prelude.Text
  to_calendar_date t =
      pad (r.full_year t) 4
      ++ (codes "-" ++ (pad (r.month t + 1) 2 ++ (codes "-" ++ pad (r.date t) 2)))

  unfoldable pub default_from : D → Prelude.Text
  unfolding to_calendar_date
  default_from today =
      let month = pos (r.month today) -ℤ pos 6 in
      let last_day = r.date (r.make (r.full_year today) (month +ℤ pos 1) 0) in
      to_calendar_date (r.make (r.full_year today) month (min (r.date today) last_day))

  abbrev pub start_of : ℕ × ℤ × ℕ → Prelude.Text
  start_of (y, m, d) = r.to_iso_string (r.make y m d)

  abbrev pub start_of_next : ℕ × ℤ × ℕ → Prelude.Text
  start_of_next (y, m, d) = r.to_iso_string (r.make y m (d + 1))

  -- The end of a range, where one is given.
  abbrev pub range_end : Option Prelude.Text → Option (Option Prelude.Text)
  range_end none = some none
  range_end (some to) = Option.map (λ p. some (start_of_next p)) (parts to)

  unfoldable pub date_range_to_instants :
      Prelude.Text → Option Prelude.Text → Option (Prelude.Text × Option Prelude.Text)
  unfolding parts Option.bind
  date_range_to_instants from to =
      Option.bind (parts from) λ start. Option.map (λ end. (start_of start, end)) (range_end to)

  unfoldable pub year_to_instants : ℕ → Prelude.Text × Prelude.Text
  year_to_instants year =
      (r.to_iso_string (r.make year (pos 0) 1), r.to_iso_string (r.make (year + 1) (pos 0) 1))
