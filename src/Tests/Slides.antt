-- ===== src/Tests/Slides.antt =====
-- A slide that is left early, a document of which a page fails, and a chart of two lines.
use my_cars.Prelude.{
  length, none, Option, ◌&&◌, Text, text_eq, if◌then◌else◌, ℕ, ◌≡◌, refl, true, false, [], ◌∷◌,
  List, some, codes, ltb, arith,
}
use my_cars.Attachments.PdfSlide.{
  SlideEvent, fetched, loaded, page_failed, left, opened, fetching, slide_run,
}
use my_cars.Attachments.PdfSlide.Laws.{IsLeft, outcome, slide_run-left, slide_run-outcome}
use my_cars.Charts.Lines.{LinePoint, LineSeries, Numbers, ordered, hit_test}
use my_cars.Charts.Lines.Laws.{count}
use my_cars.Charts.Series.{Parsing, Refuel, price_series}
use my_cars.Charts.Series.Laws.{is_taken, passes, price_series_lem}
use my_cars.Charts.Lines.Hits.{IsOrder, IsHit, hit_test-IsHit}

slide_run-left_example : IsLeft (opened {D = ℕ}) (slide_run opened (left ∷ fetched ∷ loaded 3 ∷ []))
slide_run-left_example = slide_run-left opened (fetched ∷ loaded 3 ∷ [])

abbrev answers : List (SlideEvent ℕ)
answers = fetched ∷ loaded 3 ∷ page_failed ∷ left ∷ []

comes : outcome fetching answers ≡ some (some 3, true)
unfolding outcome
comes = refl

slide_run-outcome_example :
    ((slide_run opened answers).doc ≡ some 3) × ((slide_run opened answers).failed ≡ true)
slide_run-outcome_example = slide_run-outcome answers (some 3, true) comes

-- Numbers of which 99 is not finite.
abbrev numbers : Numbers ℕ
numbers = record { is_finite = λ k. ltb k 99; lt = ltb }

abbrev point : ℕ → ℕ → LinePoint ℕ
point t v = record { id = codes "p"; time = t; value = v }

abbrev two_lines : List (LineSeries ℕ)
two_lines =
    record {
      key = codes "a";
      label = codes "A";
      is_right = false;
      points = point 1 5 ∷ point 4 99 ∷ point 6 2 ∷ [];
    }
    ∷ record { key = codes "b"; label = codes "B"; is_right = true; points = point 1 7 ∷ [] }
    ∷ []

ltb-IsOrder : IsOrder ltb
ltb-IsOrder = record {
  irreflexive = λ a. ground arith;
  transitive = λ a b c h k. ground arith;
  connected = λ a b c h k. ground arith;
}

hit_test-IsHit_example :
    (d : ℕ) × IsHit ltb 99 (7 ∷ 3 ∷ 99 ∷ 3 ∷ []) (hit_test ltb 99 (7 ∷ 3 ∷ 99 ∷ 3 ∷ [])) d
hit_test-IsHit_example = hit_test-IsHit ltb 99 ltb-IsOrder (7 ∷ 3 ∷ 99 ∷ 3 ∷ [])

abbrev parsing : Parsing ℕ
parsing = record { parse_date = length; number = length }

abbrev refuel : Text → Text → Refuel
refuel car fuel = record {
  id = codes "r";
  car_id = car;
  fuel = fuel;
  date = codes "2024-05-03";
  unit_price = codes "1.79";
  consumption = none;
}

-- One car is electric, one burns diesel, and no other is known.
abbrev fuel_of : Text → Option Text
fuel_of id =
    if text_eq id (codes "e")
    then some (codes "electric")
    else if text_eq id (codes "d")
    then some (codes "diesel")
    else none

abbrev refuels : List Refuel
refuels =
    refuel (codes "e") (codes "ac")
    ∷ refuel (codes "d") (codes "ac")
    ∷ refuel (codes "d") (codes "normal")
    ∷ refuel (codes "x") (codes "normal")
    ∷ []

price_series_lem_example :
    count (λ o. true) (ordered numbers (price_series parsing fuel_of refuels))
    ≡ count
        (λ item.
          is_taken item.fuel (fuel_of item.car_id)
          && passes numbers parsing fuel_of (λ p. true) item)
        refuels
price_series_lem_example = price_series_lem numbers parsing fuel_of (λ p. true) refuels
