-- ===== src/Attachments/PdfPages.antt =====
-- The pages of a document in frontend/src/attachments/pdf-slide.tsx: each is drawn by effects when
-- it first scrolls into view, and the first failure replaces them all by a message. What the effects
-- wait for arrives as events, in any order that they can come in.
pub mod Laws
use my_cars.Prelude.{
  ℕ, zero, suc, Bool, true, false, not, ◌&&◌, ◌||◌, List, [], ◌∷◌, Option, none, some, map,
  if◌then◌else◌,
}

-- What the effects of a page wait for: to be seen, the page, its drawing, or nothing more.
pub data PagePhase : Type 0 where
  hidden getting drawing finished : PagePhase

-- A drawing task that was started: running, or cancelled.
pub data DrawTask : Type 0 where
  running cancelled : DrawTask

-- The states `visible` and `aspect` of a page, and the variables of its effects: `cancelled`, the
-- task that `cancelRender` would cancel, and whether `onError` was called in the last step.
pub record PageState (N : Type 0) : Type 0 where
  pub phase : PagePhase
  pub aspect : Option N
  pub is_cancelled : Bool
  pub task : Option DrawTask
  pub reports : Bool

-- The observer's entries, by whether one intersects; the page; the end of the drawing; a
-- rejection, by whether it is a cancellation; the page is taken off the screen.
pub data PageEvent (N : Type 0) : Type 0 where
  observed : Bool → PageEvent N
  got_page : N → PageEvent N
  drawn : PageEvent N
  rejected : Bool → PageEvent N
  left : PageEvent N

-- `cancelRender?.()`
abbrev pub cancel : Option DrawTask → Option DrawTask
cancel none = none
cancel (some t) = some cancelled

module _ {N : Type 0} where
  -- A page at its start. Without an IntersectionObserver it is visible at once.
  abbrev pub new_page : Bool → PageState N
  new_page has_observer = record {
    phase = if has_observer then hidden else getting;
    aspect = none;
    is_cancelled = false;
    task = none;
    reports = false;
  }

  -- The clean-up of the effects.
  abbrev pub leave : PageState N → PageState N
  leave p = record p { is_cancelled = true; task = cancel p.task; reports = false }

  abbrev quiet : PageState N → PageState N
  quiet p = record p { reports = false }

  -- The observer is disconnected when the page is left.
  abbrev see : Bool → PageState N → PageState N
  see some_intersect p =
      if some_intersect && not p.is_cancelled
      then record p { phase = getting; reports = false }
      else quiet p

  -- `if (cancelled) return`, and otherwise the drawing is started.
  abbrev draw : N → PageState N → PageState N
  draw a p =
      if p.is_cancelled
      then record p { phase = finished; reports = false }
      else record p { phase = drawing; aspect = some a; task = some running; reports = false }

  -- `if (!cancelled && !isCancellation(error)) onError()`
  abbrev fail : Bool → PageState N → PageState N
  fail is_cancellation p = record p {
    phase = finished;
    reports = not p.is_cancelled && not is_cancellation;
  }

  -- An event that is not awaited in a phase does not come in it.
  abbrev pub step_in : PagePhase → PageState N → PageEvent N → PageState N
  step_in _ p left = leave p
  step_in hidden p (observed some_intersect) = see some_intersect p
  step_in getting p (got_page a) = draw a p
  step_in getting p (rejected c) = fail c p
  step_in drawing p drawn = record p { phase = finished; reports = false }
  step_in drawing p (rejected c) = fail c p
  step_in _ p e = quiet p

  unfoldable pub page_step : PageState N → PageEvent N → PageState N
  page_step p e = step_in p.phase p e

-- The pages on the screen, and the slide's `failed`.
pub record Pages (N : Type 0) : Type 0 where
  pub pages : List (PageState N)
  pub failed : Bool

module _ {N : Type 0} where
  abbrev pub step_at : ℕ → PageEvent N → List (PageState N) → List (PageState N)
  step_at i e [] = []
  step_at zero e (p ∷ ps) = page_step p e ∷ ps
  step_at (suc i) e (p ∷ ps) = p ∷ step_at i e ps

  abbrev pub reported : ℕ → List (PageState N) → Bool
  reported i [] = false
  reported zero (p ∷ ps) = p.reports
  reported (suc i) (p ∷ ps) = reported i ps

  -- The slide shows the message in place of the pages, which are left.
  unfoldable pub pages_step : Pages N → ℕ × PageEvent N → Pages N
  unfolding page_step
  pages_step s (i, e) =
      let pages = step_at i e s.pages in
      if reported i pages
      then record { pages = map leave pages; failed = true }
      else record s { pages = pages }

  unfoldable pub pages_run : Pages N → List (ℕ × PageEvent N) → Pages N
  unfolding pages_step
  pages_run s [] = s
  pages_run s (e ∷ es) = pages_run (pages_step s e) es
