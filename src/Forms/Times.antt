-- ===== src/Forms/Times.antt =====
-- frontend/src/repairs/format.ts: the times of the entry forms, as a datetime-local input holds
-- them.
use my_cars.Prelude.{ℕ, ◌+◌, [], ◌∷◌, ◌++◌, Option, none, some, Text, codes, pad_start}
use my_cars.Prelude.Digits.{show}

-- The local fields of a Date; a month is counted from 0.
pub record LocalTime : Type 0 where
  pub year : ℕ
  pub month : ℕ
  pub date : ℕ
  pub hours : ℕ
  pub minutes : ℕ

-- `iso` is the ISO text of the instant that a wall-clock text stands for, and none where it is no
-- date. `local` has the local fields of the Date of an instant's text, and `now` those of
-- `new Date()`.
pub record Clock : Type 0 where
  pub iso : Text → Option Text
  pub local : Text → LocalTime
  pub now : LocalTime

-- `String(value).padStart(2, '0')`
abbrev pub pad : ℕ → Text
pad value = pad_start 2 b'0' (show value)

unfoldable pub to_local_input : LocalTime → Text
to_local_input t =
    show t.year
    ++ (codes "-"
        ++ (pad (t.month + 1)
            ++ (codes "-"
                ++ (pad t.date ++ (codes "T" ++ (pad t.hours ++ (codes ":" ++ pad t.minutes)))))))

unfoldable pub from_local_input : Clock → Text → Text
from_local_input clock [] = []
from_local_input clock (c ∷ s) = elim (clock.iso (c ∷ s)) [ none ↦ c ∷ s | some t ↦ t ]

-- The date of an entry that is edited, or the current time.
abbrev pub date_input : Clock → Option Text → Text
unfolding to_local_input
date_input clock none = to_local_input clock.now
date_input clock (some date) = to_local_input (clock.local date)
