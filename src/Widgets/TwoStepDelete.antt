-- ===== src/Widgets/TwoStepDelete.antt =====
-- frontend/src/components/two-step-delete-button.tsx: a delete button that asks once more. The
-- focus is where the component has put it last; `onConfirm` calls are counted.
use my_cars.Prelude.{
  ℕ, suc, ◌+◌, ◌≡◌, Bool, true, false, Bool-cases, inl, inr, not, ◌&&◌, ◌||◌, List, [], ◌∷◌, arith,
  if◌then◌else◌,
}

pub data Focus : Type 0 where
  elsewhere trigger_button cancel_button : Focus

-- `armed`, the ref `disarmedByUser`, the focus, and the calls of `onConfirm`.
pub record DeleteButton : Type 0 where
  pub armed : Bool
  pub disarmed_by_user : Bool
  pub focus : Focus
  pub confirmed : ℕ

pub data Click : Type 0 where
  trigger confirm cancel : Click

abbrev pub unarmed : DeleteButton
unarmed = record { armed = false; disarmed_by_user = false; focus = elsewhere; confirmed = 0 }

-- The effect, which runs when `armed` has changed. A disabled button takes no focus.
unfoldable pub after_change : Bool → DeleteButton → DeleteButton
after_change pending b =
    if b.armed
    then (if pending then b else record b { focus = cancel_button })
    else if b.disarmed_by_user
    then record b { disarmed_by_user = false; focus = trigger_button }
    else b

-- A click while the deletion is pending or not. The trigger is there only while the button is not
-- armed, the other two only while it is; those are disabled while it is pending. A button that is
-- taken away or replaced takes the focus with it.
unfoldable pub click : Bool → DeleteButton → Click → DeleteButton
unfolding after_change
click pending b trigger =
    if b.armed then b else after_change pending (record b { armed = true; focus = elsewhere })
click pending b confirm =
    if not b.armed || pending then b else record b { confirmed = b.confirmed + 1 }
click pending b cancel =
    if not b.armed || pending
    then b
    else after_change pending
        (record b { armed = false; disarmed_by_user = true; focus = elsewhere })

abbrev pub clicks : DeleteButton → List (Bool × Click) → DeleteButton
unfolding click
clicks b [] = b
clicks b ((pending, c) ∷ cs) = clicks (click pending b c) cs

-- The clicks on confirm that count: those between a click on the trigger and the next on cancel
-- that are made while nothing is pending.
abbrev pub answered : Bool → List (Bool × Click) → ℕ
answered asked [] = 0
answered asked ((pending, trigger) ∷ cs) = answered true cs
answered asked ((pending, confirm) ∷ cs) =
    let more = answered asked cs in if asked && not pending then suc more else more
answered asked ((pending, cancel) ∷ cs) =
    let kept = answered asked cs in
    let closed = answered false cs in if pending then kept else closed

-- From any state, onConfirm is called once for each click on confirm that answers an open question
-- while nothing is pending.
pub clicks-confirmed :
    (b : DeleteButton) (cs : List (Bool × Click))
    → (clicks b cs).confirmed ≡ b.confirmed + answered b.armed cs
unfolding click after_change
clicks-confirmed b [] = omega arith
clicks-confirmed b ((true, trigger) ∷ cs) = elim (Bool-cases b.armed) [
  | inl e ↦ rw e (rw e at (clicks-confirmed b cs))
  | inr e ↦ rw e (clicks-confirmed (record b { armed = true; focus = elsewhere }) cs)
]
clicks-confirmed b ((false, trigger) ∷ cs) = elim (Bool-cases b.armed) [
  | inl e ↦ rw e (rw e at (clicks-confirmed b cs))
  | inr e ↦ rw e (clicks-confirmed (record b { armed = true; focus = cancel_button }) cs)
]
clicks-confirmed b ((true, confirm) ∷ cs) = elim (Bool-cases b.armed) [
  | inl e ↦ rw e (rw e at (clicks-confirmed b cs))
  | inr e ↦ rw e (rw e at (clicks-confirmed b cs))
]
clicks-confirmed b ((false, confirm) ∷ cs) = elim (Bool-cases b.armed) [
  | inl e ↦
      let rest = clicks-confirmed (record b { confirmed = b.confirmed + 1 }) cs in
      rw e (omega (arith, rw e at rest))
  | inr e ↦ rw e (rw e at (clicks-confirmed b cs))
]
clicks-confirmed b ((true, cancel) ∷ cs) = elim (Bool-cases b.armed) [
  | inl e ↦ rw e (rw e at (clicks-confirmed b cs))
  | inr e ↦ rw e (rw e at (clicks-confirmed b cs))
]
clicks-confirmed b ((false, cancel) ∷ cs) = elim (Bool-cases b.armed) [
  | inl e ↦ rw e (
      clicks-confirmed
        (record b { armed = false; disarmed_by_user = false; focus = trigger_button }) cs)
  | inr e ↦ rw e (rw e at (clicks-confirmed b cs))
]
