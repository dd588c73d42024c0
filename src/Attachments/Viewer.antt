-- ===== src/Attachments/Viewer.antt =====
-- The index of frontend/src/attachments/attachment-viewer.tsx: which of an entry's attachments is
-- shown, stepped by buttons, keys and swipes. Where the list is empty nothing is shown, whatever
-- the index.
pub mod Laws
pub mod Session
use my_cars.Prelude.{
  ℕ, suc, ◌+◌, ◌-◌, ◌*◌, Bool, true, false, not, ◌||◌, Option, none, some, ltb, min, if◌then◌else◌,
}
use my_cars.Prelude.Int.{ℤ, pos, ◌-ℤ◌, abs_ℕ, ltb_ℤ}

abbrev pub swipe_distance : ℕ
swipe_distance = 50

-- A pointer position, in whole CSS pixels.
pub record Point : Type 0 where
  pub x : ℤ
  pub y : ℤ

pub record ViewerState : Type 0 where
  pub index : ℕ
  pub swipe_start : Option Point

pub data ViewerEvent : Type 0 where
  press_previous press_next arrow_left arrow_right other_key pointer_cancel : ViewerEvent
  pointer_down pointer_up : Point → ViewerEvent

-- `Math.max(i - 1, 0)`
abbrev previous : ℕ → ℕ
previous i = i - 1

-- `Math.min(i + 1, total - 1)`
abbrev next : ℕ → ℕ → ℕ
next total i = min (i + 1) (total - 1)

-- The move of a swipe from `start` to `end`.
abbrev pub swipe : ℕ → Point → Point → ℕ → ℕ
swipe total start end i =
    let dx = end.x -ℤ start.x in
    let dy = end.y -ℤ start.y in
    if ltb (abs_ℕ dx) swipe_distance || ltb (abs_ℕ dx) (2 * abs_ℕ dy)
    then i
    else if ltb_ℤ dx (pos 0)
    then next total i
    else previous i

abbrev swipe_from : ℕ → Option Point → Point → ℕ → ℕ
swipe_from total none end i = i
swipe_from total (some start) end i = swipe total start end i

-- The buttons are disabled at the ends, so a press there does nothing.
unfoldable pub view_step : ℕ → ViewerState → ViewerEvent → ViewerState
view_step total s press_previous = record s { index = previous s.index }
view_step total s press_next = record s { index = next total s.index }
view_step total s arrow_left = record s { index = previous s.index }
view_step total s arrow_right = record s { index = next total s.index }
view_step total s other_key = s
view_step total s pointer_cancel = record s { swipe_start = none }
view_step total s (pointer_down at) = record s { swipe_start = some at }
view_step total s (pointer_up at) = record {
  index = swipe_from total s.swipe_start at s.index;
  swipe_start = none;
}
