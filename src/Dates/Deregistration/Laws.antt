-- ===== src/Dates/Deregistration/Laws.antt =====
-- The comparison of date texts in frontend/src/cars/deregistration.ts.
use my_cars.Prelude.{
  ℕ, suc, ◌+◌, ◌^◌, ◌<◌, ◌==◌, ◌≡◌, refl, sym, ap, ◌∙◌, ◌↔◌, Bool, true, [], ◌∷◌, ◌++◌, some, Text,
  length, text_le, text_eq, text_eq_iff, leb, arith, pad_start, if◌then◌else◌, ==_iff,
}
use my_cars.Prelude.Digits.{show, read_digits}
use my_cars.Prelude.Padded.{text_le-digits, length-padded, read_digits-padded, padded-digits}
use my_cars.Dates.{DateRuntime, IsCalendar}
use my_cars.Dates.Range.Format.{date_text}
use my_cars.Dates.Range.Laws.{Names, days_lt_100}
use my_cars.Dates.Deregistration.{CarState, is_deregistered}

-- Texts of one length in front are compared first.
text_le-append :
    (s t u w : Text)
    → length s ≡ length t
    → text_le (s ++ u) (t ++ w) ≡ (if text_eq s t then text_le u w else text_le s t)
text_le-append [] [] u w l = refl
text_le-append [] (d ∷ t) u w l = absurd (omega arith)
text_le-append (c ∷ s) [] u w l = absurd (omega arith)
text_le-append (c ∷ s) (d ∷ t) u w l = ground (arith, text_le-append s t u w)

same_test : (a b : Bool) → (a ≡ true) ↔ (b ≡ true) → a ≡ b
same_test a b h = ground arith

-- Numbers padded to one length.
module _ (n m k : ℕ) (hn : n < 10 ^ suc k) (hm : m < 10 ^ suc k) where
  abbrev left : Text
  left = pad_start (suc k) b'0' (show n)

  abbrev right : Text
  right = pad_start (suc k) b'0' (show m)

  text_eq-numbers : text_eq left right ≡ (n == m)
  text_eq-numbers =
      let spelled : left ≡ right → n ≡ m =
        λ e. sym (read_digits-padded n k hn) ∙ ap read_digits e ∙ read_digits-padded m k hm in
      same_test _ _ (
        λ h. (==_iff n m).1 (spelled ((text_eq_iff left right).0 h)),
        λ h.
            (text_eq_iff left right).1
              (ap (λ x. pad_start (suc k) b'0' (show x)) ((==_iff n m).0 h)),
      )

  text_le-numbers : text_le left right ≡ leb n m
  text_le-numbers =
      text_le-digits left right (length-padded n k hn ∙ sym (length-padded m k hm))
        (padded-digits n (suc k)) (padded-digits m (suc k))
      ∙ rw (read_digits-padded n k hn, read_digits-padded m k hm)

  text_le_padded :
      (u w : Text) → text_le (left ++ u) (right ++ w) ≡ (if n == m then text_le u w else leb n m)
  text_le_padded u w =
      text_le-append left right u w (length-padded n k hn ∙ sym (length-padded m k hm))
      ∙ rw (text_eq-numbers, text_le-numbers)

-- The order of two days.
abbrev pub day_le : ℕ × ℕ × ℕ → ℕ × ℕ × ℕ → Bool
day_le (y, m, d) (y', m', d') =
    if y == y' then (if m == m' then leb d d' else leb m m') else leb y y'

pub text_le-date_text :
    (y m d y' m' d' : ℕ)
    → (y < 10000) × (m < 100) × (d < 100)
    → (y' < 10000) × (m' < 100) × (d' < 100)
    → text_le (date_text y m d) (date_text y' m' d') ≡ day_le (y, m, d) (y', m', d')
text_le-date_text y m d y' m' d' (hy, hm, hd) (hy', hm', hd') =
    text_le_padded y y' 3 hy hy' _ _
    ∙ ap (λ b. if y == y' then b else leb y y')
        (text_le_padded m m' 1 hm hm' _ _
          ∙ ap (λ b. if m == m' then b else leb m m') (text_le-numbers d d' 1 hd hd'))

-- For a Date that keeps to the calendar and is of a year below 10000, and a deregistration date
-- that names a day from the year 100 to 9999, a car is deregistered exactly when that day is the
-- Date's day or an earlier one: the order of the texts is the order of the days.
pub is_deregistered-day_le :
    {D : Type 0} (r : DateRuntime D) (cal : IsCalendar r) (car : CarState) (v : Text) (y m d : ℕ)
    (today : D)
    → car.deregistration_date ≡ some v
    → Names v y m d
    → r.full_year today < 10000
    → is_deregistered r car today
      ≡ day_le (y, m, d) (r.full_year today, r.month today, r.date today)
unfolding is_deregistered
is_deregistered-day_le r cal car v y m d today given names bound =
    let now = cal.fields_are_day today in
    rw (given, names.text)
      (text_le-date_text y (m + 1) d (r.full_year today) (r.month today + 1) (r.date today)
          (names.to_9999, omega (arith, names.day.month_in_year), days_lt_100 y m d names.day)
          (bound, omega (arith, now.month_in_year), days_lt_100 _ _ _ now)
        ∙ ground arith)
