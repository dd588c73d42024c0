-- ===== src/Charts/TimeTicks/Laws.antt =====
-- The loops and the ticks of frontend/src/lib/chart-ticks.ts.
use my_cars.Prelude.{
  ℕ, zero, suc, ◌+◌, ◌-◌, ◌*◌, ◌/◌, ◌%◌, ◌≤◌, ◌<◌, ◌≡◌, refl, inl, inr, Bool, true, false, ◌&&◌,
  List, [], ◌∷◌, some, leb, ltb, keep, All, arith, Bool-cases,
}
use my_cars.Charts.TimeTicks.{
  TimeUnit, week, month, quarter, year, TimeTick, LocalCalendar, unit_for, weeks_from, months_from,
  week_boundaries, month_boundaries, boundaries, thin, inside, label_from, label_ticks, time_ticks,
}

-- The first day of the month with this index.
abbrev month_start : LocalCalendar → ℕ → ℕ
month_start cal index = cal.start_of_day (index / 12) (index % 12) 1

-- What holds of a calendar: a week later is later, and from 1970 on a month starts after the
-- month before it.
pub record IsOrdered (cal : LocalCalendar) : Type 0 where
  pub week_later : (t : ℕ) → t < cal.plus_days t 7
  pub month_later :
      (i : ℕ)
      → 1970 * 12 ≤ i
      → cal.start_of_day (i / 12) (i % 12) 1 < cal.start_of_day ((i + 1) / 12) ((i + 1) % 12) 1

module _ (cal : LocalCalendar) (ordered : IsOrdered cal) (to : ℕ) where
  weeks_from-total :
      (f time : ℕ)
      → to ≤ time + f
      → (times : List ℕ) × (weeks_from cal to (suc f) time ≡ some times)
  unfolding weeks_from
  weeks_from-total zero time h = let past : ltb time to ≡ false = ground arith in ([], rw past refl)
  weeks_from-total (suc f) time h = elim (Bool-cases (ltb time to)) [
    | inr past ↦ ([], rw past refl)
    | inl before ↦
        let later = ordered.week_later time in
        let (times, e) = weeks_from-total f (cal.plus_days time 7) (omega (arith, later)) in
        (time ∷ times, rw (before, e) refl)
  ]

  later_month : (k i : ℕ) → 1970 * 12 ≤ i → month_start cal i + k ≤ month_start cal (i + k)
  later_month zero i h = let same : i + 0 ≡ i = omega arith in rw same (omega arith)
  later_month (suc k) i h =
      let same : i + suc k ≡ (i + k) + 1 = omega arith in
      rw same (omega (arith, later_month k i h, ordered.month_later (i + k) (omega arith)))

  months_from-total :
      (from months f index : ℕ)
      → 1 ≤ months
      → 1970 * 12 ≤ index
      → to ≤ month_start cal index + f
      → (times : List ℕ) × (months_from cal from to months (suc f) index ≡ some times)
  unfolding months_from
  months_from-total from months zero index m h b =
      let past : leb to (month_start cal index) ≡ true = ground arith in ([], rw past refl)
  months_from-total from months (suc f) index m h b =
      let time = month_start cal index in
      let (times, e) =
        months_from-total from months f (index + months) m (omega arith)
          (omega (arith, later_month months index h)) in
      elim (Bool-cases (leb to time)) [
        | inl past ↦ ([], rw past refl)
        | inr before ↦ elim (Bool-cases (leb from time)) [
          | inl kept ↦ (time ∷ times, rw (before, kept, e) refl)
          | inr early ↦ (times, rw (before, early, e) refl)
        ]
      ]

  boundaries-total :
      (unit : TimeUnit) (from : ℕ)
      → 1970 ≤ cal.full_year from
      → (times : List ℕ) × (boundaries cal (suc to) unit from to ≡ some times)
  unfolding week_boundaries month_boundaries
  boundaries-total week from h = weeks_from-total to _ (omega arith)
  boundaries-total month from h =
      months_from-total from 1 to _ (omega arith) (omega arith) (omega arith)
  boundaries-total quarter from h =
      months_from-total from 3 to _ (omega arith) (omega arith) (omega arith)
  boundaries-total year from h =
      months_from-total from 12 to _ (omega arith) (omega arith) (omega arith)

-- A time inside the axis.
abbrev pub Inside : ℕ → ℕ → ℕ → Type 0
Inside min_time max_time time = (min_time < time) × (time < max_time)

module _ (min_time max_time : ℕ) where
  inside-Inside : (times : List ℕ) → All (Inside min_time max_time) (inside min_time max_time times)
  inside-Inside [] = tt
  inside-Inside (time ∷ times) = elim (Bool-cases (ltb min_time time && ltb time max_time)) [
    | inl k ↦ rw k (ground arith, inside-Inside times)
    | inr k ↦ rw k (inside-Inside times)
  ]

  keep-Inside :
      (p : ℕ → Bool) (times : List ℕ)
      → All (Inside min_time max_time) times
      → All (Inside min_time max_time) (keep p times)
  keep-Inside p [] h = tt
  keep-Inside p (time ∷ times) (i, h) = elim (Bool-cases (p time)) [
    | inl k ↦ rw k (i, keep-Inside p times h)
    | inr k ↦ rw k (keep-Inside p times h)
  ]

  thin-Inside :
      (cal : LocalCalendar) (unit : TimeUnit) (times : List ℕ)
      → All (Inside min_time max_time) times
      → All (Inside min_time max_time) (thin cal unit times)
  unfolding thin
  thin-Inside cal year times h = keep-Inside _ times h
  thin-Inside cal _ times h = h

  label_from-Inside :
      (wide narrow i : ℕ) (times : List ℕ)
      → All (Inside min_time max_time) times
      → All (λ (t : TimeTick). Inside min_time max_time t.time) (label_from wide narrow i times)
  unfolding label_from
  label_from-Inside wide narrow i [] h = tt
  label_from-Inside wide narrow i (time ∷ times) (k, h) =
      (k, label_from-Inside wide narrow (i + 1) times h)

-- For a calendar whose weeks and months are in order and an axis that starts in 1970 or later, one
-- round for each millisecond up to its end is enough for the loops over boundaries: the ticks are
-- found, in the unit for the axis, and each lies inside the axis.
pub time_ticks-Inside :
    (cal : LocalCalendar) (ordered : IsOrdered cal) (min_time max_time : ℕ)
    → 1970 ≤ cal.full_year min_time
    → (ticks : List TimeTick) × (time_ticks cal (suc max_time) min_time max_time
        ≡ some (unit_for (max_time - min_time), ticks))
      × All (λ (t : TimeTick). Inside min_time max_time t.time) ticks
unfolding time_ticks label_ticks
time_ticks-Inside cal ordered min_time max_time h =
    let unit = unit_for (max_time - min_time) in
    let (times, e) = boundaries-total cal ordered max_time unit min_time h in
    let shown = thin cal unit (inside min_time max_time times) in
    (
      label_ticks shown,
      rw e refl,
      label_from-Inside min_time max_time _ _ 0 shown
          (thin-Inside min_time max_time cal unit _ (inside-Inside min_time max_time times)),
    )
