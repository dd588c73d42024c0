-- ===== src/Tests/Charts.antt =====
-- A chart of three values, stepped by keys.
use my_cars.Prelude.{suc, ◌+◌, ◌-◌, ◌*◌, ◌/◌, ◌%◌, ◌≡◌, refl, false, none, some, List, All, arith}
use my_cars.Charts.TimeTicks.{LocalCalendar, TimeTick, day, unit_for, time_ticks}
use my_cars.Charts.TimeTicks.Laws.{IsOrdered, Inside, time_ticks-Inside}
use my_cars.Charts.Interaction.{ChartState, current}

abbrev at_one : ChartState
at_one = record { active = some 1; pressing = false }

abbrev at_none : ChartState
at_none = record { active = none; pressing = false }

none-current : current 3 at_none ≡ none
unfolding current
none-current = refl

-- A calendar of months of thirty days, from 1970 on.
abbrev thirty_days : LocalCalendar
thirty_days = record {
  full_year = λ t. 1970 + t / (360 * day);
  month_of = λ t. t / (30 * day) % 12;
  date_of = λ t. t / day % 30 + 1;
  day_of_week = λ t. t / day % 7;
  start_of_day = λ y m d. (((y - 1970) * 12 + m) * 30 + (d - 1)) * day;
  plus_days = λ t n. t + n * day;
}

thirty_days-IsOrdered : IsOrdered thirty_days
thirty_days-IsOrdered = record { week_later = λ t. omega arith; month_later = λ i h. omega arith }

time_ticks-Inside_example :
    (ticks : List TimeTick) × (time_ticks thirty_days (suc (90 * day)) (10 * day) (90 * day)
      ≡ some (unit_for (80 * day), ticks))
    × All (λ (t : TimeTick). Inside (10 * day) (90 * day) t.time) ticks
time_ticks-Inside_example =
    time_ticks-Inside thirty_days thirty_days-IsOrdered (10 * day) (90 * day) (omega arith)
