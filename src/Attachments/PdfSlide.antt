-- ===== src/Attachments/PdfSlide.antt =====
-- The effect of frontend/src/attachments/pdf-slide.tsx that loads a document, while the slide may be
-- left. What the loading waits for arrives as events, in any order that they can come in.
pub mod Laws
use my_cars.Prelude.{Bool, true, false, not, List, [], ◌∷◌, Option, none, some, if◌then◌else◌}

-- What the effect waits for: the module and the bytes, then the document, then nothing more.
pub data Phase : Type 0 where
  fetching loading finished : Phase

-- A task of the PDF library that was started: running, or destroyed.
pub data Task : Type 0 where
  running destroyed : Task

-- The states `doc` and `failed` of the slide, and the variables of the effect: `cancelled`, and the
-- task that `destroy` would destroy.
pub record SlideState (D : Type 0) : Type 0 where
  pub doc : Option D
  pub failed : Bool
  pub phase : Phase
  pub cancelled : Bool
  pub task : Option Task

-- The bytes arrive; the document is loaded; what is awaited is rejected, or the answer is no
-- success; a page of the document calls `onError`, which is `fail`; the slide is left.
pub data SlideEvent (D : Type 0) : Type 0 where
  fetched : SlideEvent D
  loaded : D → SlideEvent D
  rejected : SlideEvent D
  page_failed : SlideEvent D
  left : SlideEvent D

-- `destroy?.()`
abbrev destroy : Option Task → Option Task
destroy none = none
destroy (some t) = some destroyed

module _ {D : Type 0} where
  abbrev pub opened : SlideState D
  opened = record { doc = none; failed = false; phase = fetching; cancelled = false; task = none }

  -- `if (cancelled) return`, and otherwise the task is started.
  abbrev start_task : SlideState D → SlideState D
  start_task s =
      if s.cancelled
      then record s { phase = finished }
      else record s { phase = loading; task = some running }

  abbrev show : D → SlideState D → SlideState D
  show d s =
      if s.cancelled
      then record s { phase = finished }
      else record s { phase = finished; doc = some d }

  -- The `catch`.
  abbrev fail : SlideState D → SlideState D
  fail s =
      if s.cancelled
      then record s { phase = finished }
      else record s { phase = finished; failed = true }

  -- `fail`, which the pages are given: they are there while a document is shown, and gone with the
  -- slide.
  abbrev fail_page : SlideState D → Option D → SlideState D
  fail_page s none = s
  fail_page s (some d) = if s.cancelled then s else record s { failed = true }

  -- An event that is not awaited in a phase does not come in it.
  abbrev pub step_in : Phase → SlideState D → SlideEvent D → SlideState D
  step_in p s left = record s { cancelled = true; task = destroy s.task }
  step_in p s page_failed = fail_page s s.doc
  step_in fetching s fetched = start_task s
  step_in fetching s rejected = fail s
  step_in loading s (loaded d) = show d s
  step_in loading s rejected = fail s
  step_in p s e = s

  unfoldable pub slide_step : SlideState D → SlideEvent D → SlideState D
  slide_step s e = step_in s.phase s e

  unfoldable pub slide_run : SlideState D → List (SlideEvent D) → SlideState D
  unfolding slide_step
  slide_run s [] = s
  slide_run s (e ∷ es) = slide_run (slide_step s e) es
