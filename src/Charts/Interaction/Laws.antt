-- ===== src/Charts/Interaction/Laws.antt =====
-- The active value of frontend/src/components/use-chart-interaction.ts.
use my_cars.Prelude.{
  ℕ, zero, suc, ◌+◌, ◌-◌, ◌<◌, ◌≡◌, ap, ◌∙◌, true, Option, none, some, arith, min,
}
use my_cars.Charts.Interaction.{
  ChartState, pointer_down, blur, focus, key_down, Key, arrow_right, arrow_left, home, end, escape,
  other, current, chart_step,
}

-- Where a key moves to from no value, or from a value: an arrow key to the first or the neighbour,
-- without wrapping around, Home and End to the ends, Escape to none.
abbrev pub key_target : ℕ → Key → Option ℕ → Option ℕ
key_target count arrow_right none = some 0
key_target count arrow_right (some i) = some (min (i + 1) (count - 1))
key_target count arrow_left none = some 0
key_target count arrow_left (some i) = some (i - 1)
key_target count home at = some 0
key_target count end at = some (count - 1)
key_target count escape at = none
key_target count other at = at

current_bound : (count : ℕ) (s : ChartState) (i : ℕ) → current count s ≡ some i → i < count
unfolding current
current_bound count s i h = ground arith

-- In a chart with values, a press of a key makes the key's target the current value: the first or
-- the neighbour for an arrow key, an end for Home and End, none for Escape, and the same for any
-- other key.
pub key_down_target :
    (count : ℕ) (s : ChartState) (key : Key)
    → 0 < count
    → current count (chart_step count s (key_down key)) ≡ key_target count key (current count s)
unfolding chart_step
key_down_target count s arrow_right h = ground arith
key_down_target count s key h = ground arith

-- A press of the pointer that focuses the plot keeps the value that the press picked; a focus by
-- the keyboard, while no value is current, shows the first.
pub focus_keeps_pick :
    (count : ℕ) (s : ChartState) (hit : Option (Option ℕ))
    → ((chart_step count (chart_step count s (pointer_down hit)) (focus true)).active
        ≡ (chart_step count s (pointer_down hit)).active)
      × ((chart_step count (chart_step count s blur) (focus true)).active ≡ some 0)
unfolding chart_step
focus_keeps_pick count s none = ground arith
focus_keeps_pick count s (some hit) = ground arith

-- `n` presses of a key.
pub presses : ℕ → Key → ℕ → ChartState → ChartState
presses count key zero s = s
presses count key (suc n) s = presses count key n (chart_step count s (key_down key))

presses_right :
    (count n i : ℕ) (s : ChartState)
    → 0 < count
    → current count s ≡ some i
    → current count (presses count arrow_right n s) ≡ some (min (i + n) (count - 1))
unfolding presses
presses_right count zero i s h e = e ∙ ap some (omega (arith, current_bound count s i e))
presses_right count (suc n) i s h e =
    let s' = chart_step count s (key_down arrow_right) in
    let e' : current count s' ≡ some (min (i + 1) (count - 1)) =
      key_down_target count s arrow_right h ∙ ap (key_target count arrow_right) e in
    presses_right count n (min (i + 1) (count - 1)) s' h e' ∙ ap some (omega arith)

-- In a chart with values, stepping to the right from no value visits the values in order and stays
-- on the last: after n + 1 presses value n is current, or the last one.
pub presses_right_from_none :
    (count n : ℕ) (s : ChartState)
    → 0 < count
    → current count s ≡ none
    → current count (presses count arrow_right (suc n) s) ≡ some (min n (count - 1))
unfolding presses
presses_right_from_none count n s h e =
    let s' = chart_step count s (key_down arrow_right) in
    presses_right count n 0 s' h
      (key_down_target count s arrow_right h ∙ ap (key_target count arrow_right) e)
    ∙ ap some (omega arith)
