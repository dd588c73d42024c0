-- ===== src/Dates/Range/Laws.antt =====
-- What frontend/src/lib/date-range.ts accepts as a calendar date, and what it prints.
use mathlib.Core.Option.{some-injective}
use my_cars.Prelude.{
  ℕ, ◌+◌, ◌≤◌, ◌<◌, ◌≡◌, refl, sym, ap, ◌∙◌, ◌↔◌, inl, inr, true, some, Text, arith, Bool-cases,
  Option-cases,
}
use my_cars.Prelude.Int.{ℤ, pos, sub_ℕ, eq_ℤ, neg_part}
use my_cars.Json.{str}
use my_cars.Dates.{DateRuntime, IsDay, IsCalendar, days_in}
use my_cars.Dates.Range.{
  match_date, same_fields, check_parts, parts, is_calendar_date, to_calendar_date,
}
use my_cars.Dates.Range.Format.{date_text, match_date-date_text, match_date-IsDateText, IsDateText}

-- A text that names a day of a year from 100 to 9999.
pub record Names (v : Text) (y m d : ℕ) : Type 0 where
  pub from_100 : 100 ≤ y
  pub to_9999 : y < 10000
  pub day : IsDay y m d
  pub text : v ≡ date_text y (m + 1) d

pub days_lt_100 : (y m d : ℕ) → IsDay y m d → d < 100
unfolding days_in
days_lt_100 y m d h = ground arith

month_of_pos : (m k : ℕ) → eq_ℤ (pos m) (sub_ℕ k 1) ≡ true → k ≡ m + 1
month_of_pos m k h = ground arith

month_to_pos : (m k : ℕ) → k ≡ m + 1 → sub_ℕ k 1 ≡ pos m
month_to_pos m k h = ground arith

month_neg : (k : ℕ) → neg_part (sub_ℕ k 1) ≤ 1
month_neg k = ground arith

same_fields_lem :
    {D : Type 0} (r : DateRuntime D) (t : D) (y m d : ℕ)
    → (r.full_year t ≡ y) × (r.month t ≡ m) × (r.date t ≡ d)
    → same_fields r t y (pos m) d ≡ true
same_fields_lem r t y m d (ey, em, ed) = ground arith

module _ {D : Type 0} (r : DateRuntime D) (cal : IsCalendar r) where
  check_parts-Names :
      (v : Text) (y k d : ℕ) (p : ℕ × ℤ × ℕ)
      → IsDateText v y k d
      → check_parts r (y, k, d) ≡ some p
      → (m : ℕ) × (p ≡ (y, pos m, d)) × Names v y m d
  check_parts-Names v y k d p t h =
      elim (Bool-cases (same_fields r (r.make y (sub_ℕ k 1) d) y (sub_ℕ k 1) d)) [
        | inr rolled ↦ cc (rw rolled at h)
        | inl same ↦
            let made = r.make y (sub_ℕ k 1) d in
            let ey : r.full_year made ≡ y = ground arith in
            let em : k ≡ r.month made + 1 = ground (arith, month_of_pos (r.month made) k) in
            let ed : r.date made ≡ d = ground arith in
            (
              r.month made,
              sym (some-injective _ _ (rw same at h))
                  ∙ ap (λ (z : ℤ). (y, z, d)) (month_to_pos (r.month made) k em),
              record {
                from_100 = ground (arith, cal.two_digit_year y (sub_ℕ k 1) d, month_neg k);
                to_9999 = t.year_bound;
                day = rw (ey, ed) at (cal.fields_are_day made);
                text = t.text ∙ ap (λ n. date_text y n d) em;
              },
            )
      ]

  -- A text parses to the parts of a day only if it names that day.
  pub parts-Names :
      (v : Text) (p : ℕ × ℤ × ℕ)
      → parts r v ≡ some p
      → (y : ℕ) × (m : ℕ) × (d : ℕ) × (p ≡ (y, pos m, d)) × Names v y m d
  unfolding parts
  parts-Names v p h = elim (Option-cases (match_date v)) [
    | inl unmatched ↦ cc (rw unmatched at h)
    | inr ((y, k, d), matched) ↦
        let (m, e, n) =
          check_parts-Names v y k d p (match_date-IsDateText v y k d matched) (rw matched at h) in
        (y, m, d, e, n)
  ]

  -- A text that names a day parses to its parts.
  pub Names-parts : (v : Text) (y m d : ℕ) → Names v y m d → parts r v ≡ some (y, pos m, d)
  unfolding parts
  Names-parts v y m d n =
      let back = cal.read_back y m d n.from_100 n.day in
      let k : sub_ℕ (m + 1) 1 ≡ pos m = month_to_pos m (m + 1) refl in
      let matched : match_date v ≡ some (y, m + 1, d) =
        ap match_date n.text
        ∙ match_date-date_text y (m + 1) d n.to_9999 (omega (arith, n.day.month_in_year))
            (days_lt_100 y m d n.day) in
      rw matched (rw k (rw (same_fields_lem r (r.make y (pos m) d) y m d back)))

  -- For a Date that keeps to the calendar, a text is a calendar date exactly when it names a day
  -- of a year from 100 to 9999: the pattern alone would take days that do not exist, and years
  -- below 100 are refused.
  pub is_calendar_date_iff :
      (v : Text)
      → (is_calendar_date r (str v) ≡ true) ↔ ((y : ℕ) × (m : ℕ) × (d : ℕ) × Names v y m d)
  unfolding is_calendar_date
  is_calendar_date_iff v = (
    λ h. elim (Option-cases (parts r v)) [
      | inl unparsed ↦ cc (rw unparsed at h)
      | inr (p, parsed) ↦ let (y, m, d, e, n) = parts-Names v p parsed in (y, m, d, n)
    ],
    λ (y, m, d, n). rw (Names-parts v y m d n),
  )

  -- For a Date that keeps to the calendar, the date that is printed for a Date of a year from 100
  -- to 9999 parses to the fields of that Date.
  pub parts-to_calendar_date :
      (t : D)
      → 100 ≤ r.full_year t
      → r.full_year t < 10000
      → parts r (to_calendar_date r t) ≡ some (r.full_year t, pos (r.month t), r.date t)
  unfolding to_calendar_date
  parts-to_calendar_date t from to =
      Names-parts _ (r.full_year t) (r.month t) (r.date t)
        (record { from_100 = from; to_9999 = to; day = cal.fields_are_day t; text = refl })
