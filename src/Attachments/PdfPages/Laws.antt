-- ===== src/Attachments/PdfPages/Laws.antt =====
-- What the pages of a document do when the slide has failed.
use my_cars.Prelude.{
  ℕ, zero, suc, ◌≡◌, refl, inl, inr, Bool, true, false, List, [], ◌∷◌, Option, none, some, map, All,
  replicate, Bool-cases, arith,
}
use my_cars.Attachments.PdfPages.{
  PagePhase, hidden, DrawTask, running, PageState, PageEvent, rejected, left, new_page, leave,
  cancel, step_in, page_step, Pages, step_at, reported, pages_step, pages_run,
}

abbrev pub is_running : Option DrawTask → Bool
is_running (some running) = true
is_running _ = false

stopped : (t : Option DrawTask) → is_running (cancel t) ≡ false
stopped none = refl
stopped (some t) = refl

module _ {N : Type 0} where
  -- A page that was left draws nothing and reports nothing.
  abbrev pub IsLeft : PageState N → Type 0
  IsLeft p = (p.is_cancelled ≡ true) × (is_running p.task ≡ false) × (p.reports ≡ false)

  abbrev IsQuiet : PageState N → Type 0
  IsQuiet p = p.is_cancelled ≡ true → IsLeft p

  leave-IsLeft : (p : PageState N) → IsLeft (leave p)
  leave-IsLeft p = (refl, stopped p.task, refl)

  step_in-IsLeft :
      (phase : PagePhase) (p : PageState N) (e : PageEvent N)
      → IsLeft p
      → IsLeft (step_in phase p e)
  step_in-IsLeft hidden p left h = leave-IsLeft p
  step_in-IsLeft phase p e h = ground arith

  step_in-IsQuiet :
      (phase : PagePhase) (p : PageState N) (e : PageEvent N)
      → p.is_cancelled ≡ false
      → IsQuiet (step_in phase p e)
  step_in-IsQuiet hidden p left h k = leave-IsLeft p
  step_in-IsQuiet phase p e h k = ground arith

  page_step-IsLeft : (p : PageState N) (e : PageEvent N) → IsLeft p → IsLeft (page_step p e)
  unfolding page_step
  page_step-IsLeft p e h = step_in-IsLeft p.phase p e h

  page_step-IsQuiet : (p : PageState N) (e : PageEvent N) → IsQuiet p → IsQuiet (page_step p e)
  unfolding page_step
  page_step-IsQuiet p e h k = elim (Bool-cases p.is_cancelled) [
    | inl gone ↦ step_in-IsLeft p.phase p e (h gone)
    | inr here ↦ step_in-IsQuiet p.phase p e here k
  ]

  step_at-All :
      (P : PageState N → Type 0) (e : PageEvent N)
      → ((p : PageState N) → P p → P (page_step p e))
      → (i : ℕ) (ps : List (PageState N)) → All P ps
      → All P (step_at i e ps)
  step_at-All P e keeps i [] h = tt
  step_at-All P e keeps zero (p ∷ ps) (h, hs) = (keeps p h, hs)
  step_at-All P e keeps (suc i) (p ∷ ps) (h, hs) = (h, step_at-All P e keeps i ps hs)

  leave-All : (ps : List (PageState N)) → All IsLeft (map leave ps)
  leave-All [] = tt
  leave-All (p ∷ ps) = (leave-IsLeft p, leave-All ps)

  All-IsQuiet : (ps : List (PageState N)) → All IsLeft ps → All IsQuiet ps
  All-IsQuiet [] h = tt
  All-IsQuiet (p ∷ ps) (h, hs) = (λ k. h, All-IsQuiet ps hs)

  record IsSound (s : Pages N) : Type 0 where
    quiet_pages : All IsQuiet s.pages
    failed_left : s.failed ≡ true → All IsLeft s.pages

  pages_step-IsSound :
      (s : Pages N) (i : ℕ) (e : PageEvent N) → IsSound s → IsSound (pages_step s (i, e))
  unfolding pages_step
  pages_step-IsSound s i e h =
      let ps = step_at i e s.pages in
      elim (Bool-cases (reported i ps)) [
        | inl failure ↦ rw failure (record {
          quiet_pages = All-IsQuiet (map leave ps) (leave-All ps);
          failed_left = λ k. leave-All ps;
        })
        | inr fine ↦ rw fine (record {
          quiet_pages = step_at-All IsQuiet e (λ p. page_step-IsQuiet p e) i s.pages h.quiet_pages;
          failed_left =
              λ k. step_at-All IsLeft e (λ p. page_step-IsLeft p e) i s.pages (h.failed_left k);
        })
      ]

  pages_run-IsSound :
      (s : Pages N) (es : List (ℕ × PageEvent N)) → IsSound s → IsSound (pages_run s es)
  unfolding pages_run
  pages_run-IsSound s [] h = h
  pages_run-IsSound s ((i, e) ∷ es) h =
      pages_run-IsSound (pages_step s (i, e)) es (pages_step-IsSound s i e h)

new_pages-IsQuiet :
    (N : Type 0) (n : ℕ) (has_observer : Bool)
    → All IsQuiet (replicate n (new_page {N = N} has_observer))
new_pages-IsQuiet N zero has_observer = tt
new_pages-IsQuiet N (suc n) has_observer = (λ k. cc, new_pages-IsQuiet N n has_observer)

module _ {N : Type 0} where
  -- A document of any number of pages that is shown anew.
  abbrev pub shown : ℕ → Bool → Pages N
  shown n has_observer = record { pages = replicate n (new_page has_observer); failed = false }

  -- Whatever arrives for the pages of a document, and in whichever order: once the slide has
  -- failed, every page was left, no page is being drawn, and none reports an error.
  pub pages_run-failed :
      (n : ℕ) (has_observer : Bool) (es : List (ℕ × PageEvent N))
      → (pages_run (shown n has_observer) es).failed ≡ true
      → All IsLeft (pages_run (shown n has_observer) es).pages
  pages_run-failed n has_observer es k =
      let start : IsSound (shown n has_observer) = record {
        quiet_pages = new_pages-IsQuiet N n has_observer;
        failed_left = λ k. cc;
      } in
      (pages_run-IsSound (shown n has_observer) es start).failed_left k

  -- A rejection, if it is one, is a cancellation.
  abbrev pub IsHarmless : ℕ × PageEvent N → Type 0
  IsHarmless (i, rejected c) = c ≡ true
  IsHarmless (i, _) = Unit

  step_in-silent :
      (phase : PagePhase) (p : PageState N) (i : ℕ) (e : PageEvent N)
      → IsHarmless (i, e)
      → (step_in phase p e).reports ≡ false
  step_in-silent phase p i (rejected c) h = ground arith
  step_in-silent phase p i e h = ground arith

  IsHarmless-at : (i : ℕ) (e : PageEvent N) → IsHarmless (suc i, e) → IsHarmless (i, e)
  IsHarmless-at i (rejected c) h = h
  IsHarmless-at i _ h = tt

  reported-step_at :
      (i : ℕ) (e : PageEvent N) (ps : List (PageState N))
      → IsHarmless (i, e)
      → reported i (step_at i e ps) ≡ false
  unfolding page_step
  reported-step_at i e [] h = refl
  reported-step_at zero e (p ∷ ps) h = step_in-silent p.phase p zero e h
  reported-step_at (suc i) e (p ∷ ps) h = reported-step_at i e ps (IsHarmless-at i e h)

  -- Cancellations alone never make the slide fail.
  pub pages_run-harmless :
      (s : Pages N) (es : List (ℕ × PageEvent N))
      → All IsHarmless es
      → s.failed ≡ false
      → (pages_run s es).failed ≡ false
  unfolding pages_run pages_step
  pages_run-harmless s [] h k = k
  pages_run-harmless s ((i, e) ∷ es) (h, hs) k =
      pages_run-harmless (pages_step s (i, e)) es hs (rw (reported-step_at i e s.pages h) k)
