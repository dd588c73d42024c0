-- ===== src/Dates/Range/Start.antt =====
-- The default start of frontend/src/lib/date-range.ts, for a Date whose months roll over.
use my_cars.Prelude.{
  ℕ, zero, suc, ◌+◌, ◌-◌, ◌≤◌, ◌<◌, ◌≡◌, refl, ap, ◌∙◌, inl, inr, leb, min, arith, Bool-cases,
  if◌then◌else◌,
}
use my_cars.Prelude.Int.{pos, negsuc, ◌+ℤ◌, ◌-ℤ◌}
use my_cars.Dates.{DateRuntime, IsDay, IsCalendar, days_in}
use my_cars.Dates.Range.{to_calendar_date, default_from}
use my_cars.Dates.Range.Laws.{Names}

-- What is documented of a Date made from fields that overflow, from the year 101 on: a month below
-- January is one of the year before, and day 0 is the last day of the month before.
pub record IsRolling {D : Type 0} (r : DateRuntime D) : Type 0 where
  pub earlier :
      (y k d : ℕ) → 101 ≤ y → k < 12 → r.make y (negsuc k) d ≡ r.make (y - 1) (pos (11 - k)) d
  pub month_end : (y m : ℕ) → 100 ≤ y → m < 12 → r.date (r.make y (pos (m + 1)) 0) ≡ days_in y m
  pub year_end : (y : ℕ) → 101 ≤ y → r.date (r.make y (pos 0) 0) ≡ days_in (y - 1) 11

-- The year and the month six months before a month.
abbrev pub six_back : ℕ → ℕ → ℕ × ℕ
six_back y m = if leb 6 m then (y, m - 6) else (y - 1, m + 6)

same_year_month : (m : ℕ) → 6 ≤ m → pos m -ℤ pos 6 ≡ pos (m - 6)
unfolding ◌-ℤ◌
same_year_month m h = ground arith

next_month : (m : ℕ) → pos m +ℤ pos 1 ≡ pos (m + 1)
unfolding ◌+ℤ◌
next_month m = ground arith

year_before_month : (m : ℕ) → m < 6 → pos m -ℤ pos 6 ≡ negsuc (5 - m)
unfolding ◌-ℤ◌
year_before_month m h = ground arith

next_negative : (k : ℕ) → negsuc (suc k) +ℤ pos 1 ≡ negsuc k
unfolding ◌+ℤ◌
next_negative k = ground arith

next_zero : negsuc 0 +ℤ pos 1 ≡ pos 0
unfolding ◌+ℤ◌
next_zero = refl

days_in_bounds : (y m : ℕ) → (28 ≤ days_in y m) × (days_in y m ≤ 31)
unfolding days_in
days_in_bounds y m = ground arith

module _ {D : Type 0} (r : DateRuntime D) (rolls : IsRolling r) (y m : ℕ) (from_101 : 101 ≤ y)
    (month : m < 12) where
  -- The month that is computed, as a month of its year.
  moved_back :
      (d : ℕ) → r.make y (pos m -ℤ pos 6) d ≡ r.make (six_back y m).0 (pos (six_back y m).1) d
  moved_back d = elim (Bool-cases (leb 6 m)) [
    | inl late ↦ rw (late, same_year_month m (ground arith)) refl
    | inr early ↦
        let k : 11 - (5 - m) ≡ m + 6 = ground arith in
        rw (early, year_before_month m (ground arith))
          (rolls.earlier y (5 - m) d from_101 (omega arith)
            ∙ ap (λ (n : ℕ). r.make (y - 1) (pos n) d) k)
  ]

  last_day_early :
      (k : ℕ) → k + m ≡ 5 → r.date (r.make y (negsuc k +ℤ pos 1) 0) ≡ days_in (y - 1) (m + 6)
  last_day_early zero e =
      let five : m ≡ 5 = omega arith in rw (next_zero, five) (rolls.year_end y from_101)
  last_day_early (suc k) e =
      let n : 11 - k ≡ m + 6 + 1 = omega arith in
      rw next_negative (
        ap r.date (rolls.earlier y k 0 from_101 (omega arith))
        ∙ rw n (rolls.month_end (y - 1) (m + 6) (omega arith) (omega arith)))

  last_day :
      r.date (r.make y (pos m -ℤ pos 6 +ℤ pos 1) 0) ≡ days_in (six_back y m).0 (six_back y m).1
  last_day = elim (Bool-cases (leb 6 m)) [
    | inl late ↦
        rw (late, same_year_month m (ground arith), next_month)
          (rolls.month_end y (m - 6) (omega arith) (omega arith))
    | inr early ↦
        rw (early, year_before_month m (ground arith)) (last_day_early (5 - m) (ground arith))
  ]

-- For a Date that keeps to the calendar and rolls months over, on a day of a year from 101 to 9999,
-- the default start is the same day six months before, or the last day of that month where it has
-- no such day.
pub default_from_lem :
    {D : Type 0} (r : DateRuntime D)
    → IsCalendar r
    → IsRolling r
    → (today : D) → 101 ≤ r.full_year today
    → r.full_year today < 10000
    → Names
        (default_from r today)
        (six_back (r.full_year today) (r.month today)).0
        (six_back (r.full_year today) (r.month today)).1
        (min (r.date today) (
          days_in
            (six_back (r.full_year today) (r.month today)).0
            (six_back (r.full_year today) (r.month today)).1))
unfolding default_from to_calendar_date
default_from_lem r cal rolls today from_101 to_9999 =
    let y = r.full_year today in
    let m = r.month today in
    let now = cal.fields_are_day today in
    let sy = (six_back y m).0 in
    let sm = (six_back y m).1 in
    let d = min (r.date today) (days_in sy sm) in
    let bounds = days_in_bounds sy sm in
    let from_100 : 100 ≤ sy = ground arith in
    let below : sy < 10000 = ground arith in
    let day : IsDay sy sm d = record {
      month_in_year = ground (arith, now.month_in_year);
      day_from = omega (arith, now.day_from, bounds.0);
      day_to = omega arith;
    } in
    let (ey, em, ed) = cal.read_back sy sm d from_100 day in
    let made =
      ap (λ (l : ℕ). r.make y (pos m -ℤ pos 6) (min (r.date today) l))
        (last_day r rolls y m from_101 now.month_in_year)
      ∙ moved_back r rolls y m from_101 now.month_in_year d in
    record {
      from_100 = from_100;
      to_9999 = below;
      day = day;
      text = ap (to_calendar_date r) made ∙ rw (ey, em, ed) refl;
    }
