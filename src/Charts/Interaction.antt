-- ===== src/Charts/Interaction.antt =====
-- frontend/src/components/use-chart-interaction.ts: the active value of a chart, set by pointer,
-- touch and keyboard. What is under the pointer is the chart's, and comes with the event.
pub mod Laws
use my_cars.Prelude.{
  ℕ, ◌+◌, ◌-◌, ◌==◌, Bool, true, false, not, ◌&&◌, Option, none, some, ltb, min, if◌then◌else◌,
}

pub data PointerType : Type 0 where
  mouse pen touch : PointerType

pub data Key : Type 0 where
  arrow_right arrow_left home end escape other : Key

-- The states of the hook: `active`, and the ref `pressing`.
pub record ChartState : Type 0 where
  pub active : Option ℕ
  pub pressing : Bool

-- `pick` with an empty plot area does nothing: its hit is none. Otherwise the hit is what
-- `hitTest` returns, an index or null.
pub data ChartEvent : Type 0 where
  tap_outside : ChartEvent
  pointer_down pointer_move : Option (Option ℕ) → ChartEvent
  pointer_up blur : ChartEvent
  pointer_leave : PointerType → ChartEvent
  -- whether the plot itself is focused, and not a part of it
  focus : Bool → ChartEvent
  key_down : Key → ChartEvent

-- `active !== null && active < count ? active : null`
abbrev below : ℕ → ℕ → Option ℕ
below count i = if ltb i count then some i else none

unfoldable pub current : ℕ → ChartState → Option ℕ
current count s = elim s.active [ none ↦ none | some i ↦ below count i ]

abbrev pick : Option (Option ℕ) → ChartState → ChartState
pick none s = s
pick (some hit) s = record s { active = hit }

-- The function that `keys` holds for a key, or undefined.
abbrev key_move : ℕ → Key → Option (Option ℕ → Option ℕ)
key_move count arrow_right =
    some (λ index. elim index [ none ↦ some 0 | some i ↦ some (min (i + 1) (count - 1)) ])
key_move count arrow_left = some (λ index. elim index [ none ↦ some 0 | some i ↦ some (i - 1) ])
key_move count home = some (λ index. some 0)
key_move count end = some (λ index. some (count - 1))
key_move count escape = some (λ index. none)
key_move count other = none

abbrev move : Option (Option ℕ → Option ℕ) → ℕ → Option ℕ → ChartState → ChartState
move none count at s = s
move (some next) count at s = if count == 0 then s else record s { active = next at }

abbrev is_none : Option ℕ → Bool
is_none none = true
is_none (some i) = false

abbrev is_touch : PointerType → Bool
is_touch touch = true
is_touch _ = false

abbrev focused : Bool → ℕ → ChartState → ChartState
unfolding current
focused own count s =
    if not own
    then s
    else if not s.pressing && is_none (current count s)
    then record { active = some 0; pressing = false }
    else record s { pressing = false }

-- The dismissing listener is there only while a value is current.
unfoldable pub chart_step : ℕ → ChartState → ChartEvent → ChartState
unfolding current
chart_step count s tap_outside = if is_none (current count s) then s else record s { active = none }
chart_step count s (pointer_down hit) = pick hit (record s { pressing = true })
chart_step count s (pointer_move hit) = pick hit s
chart_step count s pointer_up = record s { pressing = false }
chart_step count s (pointer_leave kind) = if is_touch kind then s else record s { active = none }
chart_step count s (focus own) = focused own count s
chart_step count s blur = record { active = none; pressing = false }
chart_step count s (key_down key) = move (key_move count key) count (current count s) s
