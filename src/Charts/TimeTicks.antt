-- ===== src/Charts/TimeTicks.antt =====
-- The time ticks of frontend/src/lib/chart-ticks.ts: calendar boundaries, and which of them are
-- labelled. Times are whole milliseconds; the local calendar is a parameter.
pub mod Laws
use mathlib.Core.Option
use my_cars.Prelude.{
  ℕ, zero, suc, ◌+◌, ◌-◌, ◌*◌, ◌/◌, ◌%◌, ◌==◌, Bool, ◌&&◌, List, [], ◌∷◌, Option, none, some, leb,
  ltb, length, keep, max, if◌then◌else◌,
}

pub data TimeUnit : Type 0 where
  week month quarter year : TimeUnit

pub record TimeTick : Type 0 where
  pub time : ℕ
  pub wide : Bool
  pub narrow : Bool

abbrev pub day : ℕ
day = 24 * 60 * 60 * 1000

abbrev pub wide_labels : ℕ
wide_labels = 10

abbrev pub narrow_labels : ℕ
narrow_labels = 5

unfoldable pub unit_for : ℕ → TimeUnit
unit_for span =
    if leb span (63 * day)
    then week
    else if leb span (400 * day)
    then month
    else if leb span (1461 * day)
    then quarter
    else year

-- The fields of `new Date(time)`; `start_of_day` is `new Date(year, month, day).getTime()`, and
-- `plus_days` is the time after `date.setDate(date.getDate() + n)`.
pub record LocalCalendar : Type 0 where
  pub full_year : ℕ → ℕ
  pub month_of : ℕ → ℕ
  pub date_of : ℕ → ℕ
  pub day_of_week : ℕ → ℕ
  pub start_of_day : ℕ → ℕ → ℕ → ℕ
  pub plus_days : ℕ → ℕ → ℕ

-- The loop over Mondays, with fuel for its rounds; none means that the fuel ran out.
pub weeks_from : LocalCalendar → ℕ → ℕ → ℕ → Option (List ℕ)
weeks_from cal to zero time = none
weeks_from cal to (suc fuel) time =
    let more = Option.map (λ times. time ∷ times) (weeks_from cal to fuel (cal.plus_days time 7)) in
    if ltb time to then more else some []

-- `boundaries('week', from, to)`
unfoldable pub week_boundaries : LocalCalendar → ℕ → ℕ → ℕ → Option (List ℕ)
unfolding weeks_from
week_boundaries cal fuel from to = weeks_from cal to fuel (
    cal.start_of_day (cal.full_year from) (cal.month_of from)
      (cal.date_of from + (8 - cal.day_of_week from) % 7))

abbrev pub months_of : TimeUnit → ℕ
months_of month = 1
months_of quarter = 3
months_of _ = 12

-- The loop over month indices, with fuel for its rounds; none means that the fuel ran out.
pub months_from : LocalCalendar → ℕ → ℕ → ℕ → ℕ → ℕ → Option (List ℕ)
months_from cal from to months zero index = none
months_from cal from to months (suc fuel) index =
    let time = cal.start_of_day (index / 12) (index % 12) 1 in
    let rest = months_from cal from to months fuel (index + months) in
    if leb to time
    then some []
    else if leb from time
    then Option.map (λ times. time ∷ times) rest
    else rest

-- `boundaries(unit, from, to)` for a unit of months.
unfoldable pub month_boundaries : LocalCalendar → TimeUnit → ℕ → ℕ → ℕ → Option (List ℕ)
unfolding months_from
month_boundaries cal unit fuel from to =
    let months = months_of unit in
    months_from cal from to months fuel
      (cal.full_year from * 12 + cal.month_of from / months * months)

-- `Math.ceil(n / labels)`, and at least 1.
abbrev pub every_for : ℕ → ℕ → ℕ
every_for n labels = max 1 ((n + (labels - 1)) / labels)

-- `times.map((time, i) => …)`
unfoldable pub label_from : ℕ → ℕ → ℕ → List ℕ → List TimeTick
label_from wide_every narrow_every i [] = []
label_from wide_every narrow_every i (time ∷ times) =
    record { time = time; wide = i % wide_every == 0; narrow = i % narrow_every == 0 }
    ∷ label_from wide_every narrow_every (i + 1) times

unfoldable pub label_ticks : List ℕ → List TimeTick
unfolding label_from
label_ticks times =
    label_from (every_for (length times) wide_labels) (every_for (length times) narrow_labels) 0
      times

-- `[1, 2, 5, 10].find((n) => count / n <= wideLabels) ?? Math.ceil(count / wideLabels)`
unfoldable pub year_step : ℕ → ℕ
year_step count =
    if leb count wide_labels
    then 1
    else if leb count (2 * wide_labels)
    then 2
    else if leb count (5 * wide_labels)
    then 5
    else if leb count (10 * wide_labels)
    then 10
    else (count + (wide_labels - 1)) / wide_labels

abbrev boundaries : LocalCalendar → ℕ → TimeUnit → ℕ → ℕ → Option (List ℕ)
unfolding week_boundaries month_boundaries
boundaries cal fuel week from to = week_boundaries cal fuel from to
boundaries cal fuel month from to = month_boundaries cal month fuel from to
boundaries cal fuel quarter from to = month_boundaries cal quarter fuel from to
boundaries cal fuel year from to = month_boundaries cal year fuel from to

-- Years are stepped; boundaries of the other units are kept as they are.
abbrev thin : LocalCalendar → TimeUnit → List ℕ → List ℕ
unfolding year_step
thin cal year times = keep (λ time. cal.full_year time % year_step (length times) == 0) times
thin cal _ times = times

abbrev pub inside : ℕ → ℕ → List ℕ → List ℕ
inside min_time max_time times = keep (λ time. ltb min_time time && ltb time max_time) times

unfoldable pub time_ticks : LocalCalendar → ℕ → ℕ → ℕ → Option (TimeUnit × List TimeTick)
unfolding unit_for week_boundaries month_boundaries label_ticks year_step
time_ticks cal fuel min_time max_time =
    let unit = unit_for (max_time - min_time) in
    Option.map (λ times. (unit, label_ticks (thin cal unit (inside min_time max_time times))))
      (boundaries cal fuel unit min_time max_time)
