-- ===== src/Attachments/PdfSlide/Laws.antt =====
-- What is certain of a slide that is left, and of one that is not.
use mathlib.Core.Option.{some-injective}
use mathlib.Core.Path.{subst}
use my_cars.Prelude.{◌≡◌, refl, sym, Bool, true, false, List, [], ◌∷◌, Option, none, some}
use my_cars.Attachments.PdfSlide.{
  Phase, fetching, loading, finished, Task, running, destroyed, SlideState, SlideEvent, fetched,
  loaded, rejected, page_failed, left, opened, destroy, fail_page, step_in, slide_step, slide_run,
}

-- No task is running.
abbrev pub is_released : Option Task → Bool
is_released none = true
is_released (some running) = false
is_released (some destroyed) = true

destroy-released : (t : Option Task) → is_released (destroy t) ≡ true
destroy-released none = refl
destroy-released (some t) = refl

module _ {D : Type 0} where
  -- A slide that was left shows what it showed, and no task is running.
  pub record IsLeft (before s : SlideState D) : Type 0 where
    pub cancelled : s.cancelled ≡ true
    pub same_doc : s.doc ≡ before.doc
    pub same_failed : s.failed ≡ before.failed
    pub released : is_released s.task ≡ true

  left-IsLeft : (s : SlideState D) → IsLeft s (slide_step s left)
  unfolding slide_step
  left-IsLeft s = record {
    cancelled = refl;
    same_doc = refl;
    same_failed = refl;
    released = destroy-released s.task;
  }

  finished_too :
      (before s : SlideState D)
      → IsLeft before s
      → IsLeft before (record s { phase = finished; cancelled = true })
  finished_too before s h = record {
    cancelled = refl;
    same_doc = h.same_doc;
    same_failed = h.same_failed;
    released = h.released;
  }

  fail_page-cancelled :
      (s : SlideState D) (doc : Option D) → s.cancelled ≡ true → fail_page s doc ≡ s
  fail_page-cancelled s none h = refl
  fail_page-cancelled s (some d) h = rw h refl

  step_in-IsLeft :
      (before s : SlideState D) (p : Phase) (e : SlideEvent D)
      → IsLeft before s
      → IsLeft before (step_in p s e)
  step_in-IsLeft before s p left h = record {
    cancelled = refl;
    same_doc = h.same_doc;
    same_failed = h.same_failed;
    released = destroy-released s.task;
  }
  step_in-IsLeft before s p page_failed h =
      subst (IsLeft before) (sym (fail_page-cancelled s s.doc h.cancelled)) h
  step_in-IsLeft before s fetching fetched h = rw h.cancelled (finished_too before s h)
  step_in-IsLeft before s fetching rejected h = rw h.cancelled (finished_too before s h)
  step_in-IsLeft before s fetching (loaded d) h = h
  step_in-IsLeft before s loading fetched h = h
  step_in-IsLeft before s loading rejected h = rw h.cancelled (finished_too before s h)
  step_in-IsLeft before s loading (loaded d) h = rw h.cancelled (finished_too before s h)
  step_in-IsLeft before s finished fetched h = h
  step_in-IsLeft before s finished rejected h = h
  step_in-IsLeft before s finished (loaded d) h = h

  slide_run-IsLeft :
      (before s : SlideState D) (es : List (SlideEvent D))
      → IsLeft before s
      → IsLeft before (slide_run s es)
  unfolding slide_run slide_step
  slide_run-IsLeft before s [] h = h
  slide_run-IsLeft before s (e ∷ es) h =
      slide_run-IsLeft before (slide_step s e) es (step_in-IsLeft before s s.phase e h)

  -- Whenever a slide is left, and whatever arrives afterwards, its state is the one that it was left
  -- in, so that nothing is set on a slide that is gone, and no task keeps running.
  pub slide_run-left :
      (s : SlideState D) (later : List (SlideEvent D)) → IsLeft s (slide_run s (left ∷ later))
  unfolding slide_run
  slide_run-left s later = slide_run-IsLeft s (slide_step s left) later (left-IsLeft s)

  -- Whether a page fails before the slide is left.
  abbrev pub page_fails : List (SlideEvent D) → Bool
  page_fails [] = false
  page_fails (left ∷ es) = false
  page_fails (page_failed ∷ es) = true
  page_fails (e ∷ es) = page_fails es

  -- What the answers that are awaited in a phase come to, if they come before the slide is left: the
  -- document, or none for a failure; and whether a failure is shown, which is also that of a page of
  -- the document.
  unfoldable pub outcome : Phase → List (SlideEvent D) → Option (Option D × Bool)
  outcome p [] = none
  outcome p (left ∷ es) = none
  outcome p (page_failed ∷ es) = outcome p es
  outcome fetching (fetched ∷ es) = outcome loading es
  outcome fetching (rejected ∷ es) = some (none, true)
  outcome fetching (loaded d ∷ es) = outcome fetching es
  outcome loading (loaded d ∷ es) = some (some d, page_fails es)
  outcome loading (rejected ∷ es) = some (none, true)
  outcome loading (fetched ∷ es) = outcome loading es
  outcome finished (e ∷ es) = none

  abbrev at_end : Option D → Bool → Bool → Option Task → SlideState D
  at_end doc failed cancelled task = record {
    doc = doc;
    failed = failed;
    phase = finished;
    cancelled = cancelled;
    task = task;
  }

  abbrev waiting : Phase → Option Task → SlideState D
  waiting p task = record { doc = none; failed = false; phase = p; cancelled = false; task = task }

  -- A document and whether a failure is shown.
  abbrev pub Ends : SlideState D → Option D × Bool → Type 0
  Ends s r = (s.doc ≡ r.0) × (s.failed ≡ r.1)

  -- Once nothing more is awaited: a slide that was left, one without a document, one that shows a
  -- failure, and one that shows a document.
  left_keeps :
      (doc : Option D) (failed : Bool) (task : Option Task) (es : List (SlideEvent D))
      → Ends (slide_run (at_end doc failed true task) es) (doc, failed)
  unfolding slide_run slide_step
  left_keeps doc failed task [] = (refl, refl)
  left_keeps doc failed task (left ∷ es) = left_keeps doc failed (destroy task) es
  left_keeps none failed task (page_failed ∷ es) = left_keeps none failed task es
  left_keeps (some d) failed task (page_failed ∷ es) = left_keeps (some d) failed task es
  left_keeps doc failed task (fetched ∷ es) = left_keeps doc failed task es
  left_keeps doc failed task (rejected ∷ es) = left_keeps doc failed task es
  left_keeps doc failed task (loaded d ∷ es) = left_keeps doc failed task es

  failed_keeps :
      (doc : Option D) (task : Option Task) (es : List (SlideEvent D))
      → Ends (slide_run (at_end doc true false task) es) (doc, true)
  unfolding slide_run slide_step
  failed_keeps doc task [] = (refl, refl)
  failed_keeps doc task (left ∷ es) = left_keeps doc true (destroy task) es
  failed_keeps none task (page_failed ∷ es) = failed_keeps none task es
  failed_keeps (some d) task (page_failed ∷ es) = failed_keeps (some d) task es
  failed_keeps doc task (fetched ∷ es) = failed_keeps doc task es
  failed_keeps doc task (rejected ∷ es) = failed_keeps doc task es
  failed_keeps doc task (loaded d ∷ es) = failed_keeps doc task es

  shown_keeps :
      (d : D) (task : Option Task) (es : List (SlideEvent D))
      → Ends (slide_run (at_end (some d) false false task) es) (some d, page_fails es)
  unfolding slide_run slide_step
  shown_keeps d task [] = (refl, refl)
  shown_keeps d task (left ∷ es) = left_keeps (some d) false (destroy task) es
  shown_keeps d task (page_failed ∷ es) = failed_keeps (some d) task es
  shown_keeps d task (fetched ∷ es) = shown_keeps d task es
  shown_keeps d task (rejected ∷ es) = shown_keeps d task es
  shown_keeps d task (loaded d' ∷ es) = shown_keeps d task es

  ends : (s : SlideState D) {a r : Option D × Bool} → Ends s a → some a ≡ some r → Ends s r
  ends s h e = subst (Ends s) (some-injective _ _ e) h

  run-outcome :
      (p : Phase) (task : Option Task) (es : List (SlideEvent D)) (r : Option D × Bool)
      → outcome p es ≡ some r
      → Ends (slide_run (waiting p task) es) r
  unfolding slide_run slide_step outcome
  run-outcome p task [] r e = cc
  run-outcome p task (left ∷ es) r e = cc
  run-outcome p task (page_failed ∷ es) r e = run-outcome p task es r e
  run-outcome fetching task (fetched ∷ es) r e = run-outcome loading (some running) es r e
  run-outcome fetching task (rejected ∷ es) r e =
      ends (slide_run (at_end none true false task) es) (failed_keeps none task es) e
  run-outcome fetching task (loaded d ∷ es) r e = run-outcome fetching task es r e
  run-outcome loading task (fetched ∷ es) r e = run-outcome loading task es r e
  run-outcome loading task (rejected ∷ es) r e =
      ends (slide_run (at_end none true false task) es) (failed_keeps none task es) e
  run-outcome loading task (loaded d ∷ es) r e =
      ends (slide_run (at_end (some d) false false task) es) (shown_keeps d task es) e
  run-outcome finished task (fetched ∷ es) r e = cc
  run-outcome finished task (rejected ∷ es) r e = cc
  run-outcome finished task (loaded d ∷ es) r e = cc

  -- Where the awaited answers come before the slide is left, however they are spread among other
  -- events, the slide does not stay in loading: it has the document if there is one, and it shows
  -- the failure exactly if there is none or a page of the document fails before the slide is left.
  pub slide_run-outcome :
      (es : List (SlideEvent D)) (r : Option D × Bool)
      → outcome fetching es ≡ some r
      → Ends (slide_run opened es) r
  slide_run-outcome es r e = run-outcome fetching none es r e
