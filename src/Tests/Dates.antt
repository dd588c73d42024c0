-- ===== src/Tests/Dates.antt =====
-- A calendar whose days are triples.
use my_cars.Prelude.{
  ℕ, ◌≡◌, ◌≤◌, refl, ◌↔◌, inl, inr, Bool, true, false, ◌&&◌, some, codes, leb, ltb, arith,
  Bool-cases, if◌then◌else◌,
}
use my_cars.Prelude.Int.{pos_part}
use my_cars.Json.{str}
use my_cars.Dates.{DateRuntime, IsCalendar, IsDay, days_in}
use my_cars.Dates.Range.{is_calendar_date}
use my_cars.Dates.Range.Format.{date_text}
use my_cars.Dates.Range.Laws.{Names, is_calendar_date_iff}
use my_cars.Dates.Deregistration.{is_deregistered}
use my_cars.Dates.Deregistration.Laws.{day_le, is_deregistered-day_le}

abbrev pub Day : Type 0
Day = ℕ × ℕ × ℕ

abbrev pub is_day : Day → Bool
is_day t = leb 100 t.0 && (ltb t.1 12 && (leb 1 t.2 && leb t.2 (days_in t.0 t.1)))

-- A triple that is no day stands for the first day of 1900.
abbrev pub sane : Day → Day
sane t = if is_day t then t else (1900, 0, 1)

abbrev pub triples : DateRuntime Day
triples = record {
  make = λ y m d. (y, pos_part m, d);
  full_year = λ t. (sane t).0;
  month = λ t. (sane t).1;
  date = λ t. (sane t).2;
  to_iso_string = λ t. codes "";
}

is_day-lem : (t : Day) → is_day t ≡ true → IsDay t.0 t.1 t.2
is_day-lem t h = record {
  month_in_year = ground arith;
  day_from = ground arith;
  day_to = ground arith;
}

pub IsDay-is_day : (y m d : ℕ) → 100 ≤ y → IsDay y m d → is_day (y, m, d) ≡ true
IsDay-is_day y m d h day = ground (arith, day.month_in_year, day.day_from, day.day_to)

pub sane-IsDay : (t : Day) → IsDay (sane t).0 (sane t).1 (sane t).2
unfolding days_in
sane-IsDay t = elim (Bool-cases (is_day t)) [
  | inl h ↦ rw h (is_day-lem t h)
  | inr h ↦
      rw h (record { month_in_year = omega arith; day_from = omega arith; day_to = omega arith })
]

triples-IsCalendar : IsCalendar triples
triples-IsCalendar = record {
  read_back = λ y m d h day. rw (IsDay-is_day y m d h day) (refl, refl, refl);
  fields_are_day = sane-IsDay;
  two_digit_year = λ y m d h k.
      let old : is_day (y, pos_part m, d) ≡ false = ground arith in rw old (omega arith);
}

is_calendar_date_iff_example :
    (is_calendar_date triples (str (codes "2023-02-29")) ≡ true)
    ↔ ((y : ℕ) × (m : ℕ) × (d : ℕ) × Names (codes "2023-02-29") y m d)
is_calendar_date_iff_example = is_calendar_date_iff triples triples-IsCalendar (codes "2023-02-29")

leap_day : IsDay 2024 1 29
unfolding days_in
leap_day = record { month_in_year = omega arith; day_from = omega arith; day_to = omega arith }

is_deregistered-day_le_example :
    is_deregistered triples
      (record { deregistration_date = some (date_text 2024 2 29); is_active = true })
      (2024, 2, 1)
    ≡ day_le (2024, 1, 29) (2024, 2, 1)
unfolding days_in
is_deregistered-day_le_example =
    is_deregistered-day_le triples triples-IsCalendar
      (record { deregistration_date = some (date_text 2024 2 29); is_active = true })
      (date_text 2024 2 29) 2024 1 29 (2024, 2, 1) refl
      (record { from_100 = omega arith; to_9999 = omega arith; day = leap_day; text = refl })
      (omega arith)
