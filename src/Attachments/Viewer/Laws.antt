-- ===== src/Attachments/Viewer/Laws.antt =====
-- The index of frontend/src/attachments/attachment-viewer.tsx.
use my_cars.Prelude.{ℕ, ◌+◌, ◌≤◌, ◌<◌, Option, none, some, arith}
use my_cars.Attachments.Viewer.{
  Point, ViewerState, ViewerEvent, press_previous, pointer_up, view_step, swipe, swipe_from,
}

-- At most one step away.
abbrev pub Near : ℕ → ℕ → Type 0
Near i j = (i ≤ j + 1) × (j ≤ i + 1)

swipe-Near :
    (total i : ℕ) (start end : Point)
    → i < total
    → (swipe total start end i < total) × Near i (swipe total start end i)
swipe-Near total i start end h = ground arith

-- Where the index is inside the list, an event leaves it inside the list, and moves it by one at
-- most: from the ends there is no wrapping around.
pub view_step_bounds :
    (total : ℕ) (s : ViewerState) (e : ViewerEvent)
    → s.index < total
    → ((view_step total s e).index < total) × Near s.index (view_step total s e).index
unfolding view_step
view_step_bounds total s (pointer_up at) h =
    elim s.swipe_start
      as (λ (o : Option Point).
        (swipe_from total o at s.index < total) × Near s.index (swipe_from total o at s.index)) [
          | none ↦ omega arith
          | some start ↦ swipe-Near total s.index start at h
        ]
view_step_bounds total s press_previous h = omega arith
view_step_bounds total s _ h = omega arith
