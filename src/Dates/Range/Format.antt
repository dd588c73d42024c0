-- ===== src/Dates/Range/Format.antt =====
-- The texts YYYY-MM-DD of frontend/src/lib/date-range.ts.
use mathlib.Core.Path.{subst}
use mathlib.Core.Option.{some-injective}
use my_cars.Prelude.{
  ℕ, ◌<◌, ◌==◌, ◌≡◌, refl, sym, ◌∙◌, inl, inr, Bool, true, ◌&&◌, [], ◌∷◌, ◌++◌, some, Text, codes,
  is_digit, pad_start, all, length, arith, and_iff, Bool-cases, ==_iff,
}
use my_cars.Prelude.Digits.{show, read_digits}
use my_cars.Prelude.Padded.{
  length-padded, read_digits-padded, padded-digits, padded_of_digits, read_digits_bound,
}
use my_cars.Dates.Range.{match_date}

-- The text of a date, the month counted from 1.
abbrev pub date_text : ℕ → ℕ → ℕ → Text
date_text y m d =
    pad_start 4 b'0' (show y)
    ++ (codes "-" ++ (pad_start 2 b'0' (show m) ++ (codes "-" ++ pad_start 2 b'0' (show d))))

two_cells : (s : Text) → length s ≡ 2 → (a : ℕ) × (b : ℕ) × (s ≡ a ∷ b ∷ [])
two_cells [] l = absurd (omega arith)
two_cells (a ∷ []) l = absurd (omega arith)
two_cells (a ∷ b ∷ []) l = (a, b, refl)
two_cells (a ∷ b ∷ c ∷ s) l = absurd (omega arith)

four_cells :
    (s : Text) → length s ≡ 4 → (a : ℕ) × (b : ℕ) × (c : ℕ) × (d : ℕ) × (s ≡ a ∷ b ∷ c ∷ d ∷ [])
four_cells [] l = absurd (omega arith)
four_cells (a ∷ []) l = absurd (omega arith)
four_cells (a ∷ b ∷ []) l = absurd (omega arith)
four_cells (a ∷ b ∷ c ∷ []) l = absurd (omega arith)
four_cells (a ∷ b ∷ c ∷ d ∷ []) l = (a, b, c, d, refl)
four_cells (a ∷ b ∷ c ∷ d ∷ e ∷ s) l = absurd (omega arith)

-- The test of the pattern, and the digits of the three parts.
module _ (a b c d e f g h s : Bool) where
  regroup :
      (a && (b && (c && (d && true)))) ≡ true
      → (e && (f && true)) ≡ true
      → (g && (h && true)) ≡ true
      → s ≡ true
      → ((a && (b && (c && d))) && ((e && f) && (g && h)) && s) ≡ true
  regroup p q r dashes = ground arith

  ungroup :
      ((a && (b && (c && d))) && ((e && f) && (g && h)) && s) ≡ true
      → ((a && (b && (c && (d && true)))) ≡ true)
        × ((e && (f && true)) ≡ true)
        × ((g && (h && true)) ≡ true)
        × (s ≡ true)
  ungroup test = ground arith

-- Three texts of digits of the right lengths match.
match_digits :
    (ys ms ds : Text)
    → (length ys ≡ 4) × (length ms ≡ 2) × (length ds ≡ 2)
    → (all is_digit ys ≡ true) × (all is_digit ms ≡ true) × (all is_digit ds ≡ true)
    → match_date (ys ++ (codes "-" ++ (ms ++ (codes "-" ++ ds))))
      ≡ some (read_digits ys, read_digits ms, read_digits ds)
unfolding match_date
match_digits ys ms ds (ly, lm, ld) (hy, hm, hd) =
    let (a, b, c, d, ey) = four_cells ys ly in
    let (e, f, em) = two_cells ms lm in
    let (g, h, ed) = two_cells ds ld in
    let dy : all is_digit (a ∷ b ∷ c ∷ d ∷ []) ≡ true = rw ey at hy in
    let dm : all is_digit (e ∷ f ∷ []) ≡ true = rw em at hm in
    let dd : all is_digit (g ∷ h ∷ []) ≡ true = rw ed at hd in
    rw (ey, em, ed)
      (rw (
        regroup (is_digit a) (is_digit b) (is_digit c) (is_digit d) (is_digit e) (is_digit f)
          (is_digit g) (is_digit h) true dy dm dd refl))

-- Printing a date and matching it gives the date back.
pub match_date-date_text :
    (y m d : ℕ) → y < 10000 → m < 100 → d < 100 → match_date (date_text y m d) ≡ some (y, m, d)
match_date-date_text y m d hy hm hd =
    match_digits (pad_start 4 b'0' (show y)) (pad_start 2 b'0' (show m)) (pad_start 2 b'0' (show d))
      (length-padded y 3 hy, length-padded m 1 hm, length-padded d 1 hd)
      (padded-digits y 4, padded-digits m 2, padded-digits d 2)
    ∙ rw (read_digits-padded y 3 hy, read_digits-padded m 1 hm, read_digits-padded d 1 hd)

module _ (a b c d s e f t g h : ℕ) where
  abbrev cells : Text
  cells = a ∷ b ∷ c ∷ d ∷ s ∷ e ∷ f ∷ t ∷ g ∷ h ∷ []

  abbrev all_cells : Bool
  all_cells =
      (is_digit a && (is_digit b && (is_digit c && is_digit d)))
      && ((is_digit e && is_digit f) && (is_digit g && is_digit h))
      && (s == b'-' && t == b'-')

  cells_printed :
      all_cells ≡ true
      → date_text
          (read_digits (a ∷ b ∷ c ∷ d ∷ []))
          (read_digits (e ∷ f ∷ []))
          (read_digits (g ∷ h ∷ []))
        ≡ cells
  cells_printed test =
      let p =
        ungroup (is_digit a) (is_digit b) (is_digit c) (is_digit d) (is_digit e) (is_digit f)
          (is_digit g) (is_digit h) (s == b'-' && t == b'-') test in
      let (es, et) = (and_iff (s == b'-') (t == b'-')).0 p.3 in
      rw (
        padded_of_digits 3 (a ∷ b ∷ c ∷ d ∷ []) refl p.0,
        padded_of_digits 1 (e ∷ f ∷ []) refl p.1,
        padded_of_digits 1 (g ∷ h ∷ []) refl p.2,
        (==_iff s b'-').0 es,
        (==_iff t b'-').0 et,
      )

  cells_bounds :
      all_cells ≡ true
      → (read_digits (a ∷ b ∷ c ∷ d ∷ []) < 10000)
        × (read_digits (e ∷ f ∷ []) < 100)
        × (read_digits (g ∷ h ∷ []) < 100)
  cells_bounds test =
      let p =
        ungroup (is_digit a) (is_digit b) (is_digit c) (is_digit d) (is_digit e) (is_digit f)
          (is_digit g) (is_digit h) (s == b'-' && t == b'-') test in
      (
        read_digits_bound (a ∷ b ∷ c ∷ d ∷ []) p.0,
        read_digits_bound (e ∷ f ∷ []) p.1,
        read_digits_bound (g ∷ h ∷ []) p.2,
      )

-- What a text that matches says of its numbers.
pub record IsDateText (v : Text) (y m d : ℕ) : Type 0 where
  pub text : v ≡ date_text y m d
  pub year_bound : y < 10000
  pub month_bound : m < 100
  pub day_bound : d < 100

pub match_date-IsDateText :
    (v : Text) (y m d : ℕ) → match_date v ≡ some (y, m, d) → IsDateText v y m d
unfolding match_date
match_date-IsDateText (a ∷ b ∷ c ∷ e ∷ s ∷ f ∷ g ∷ t ∷ h ∷ i ∷ []) y m d found =
    elim (Bool-cases (all_cells a b c e s f g t h i)) [
      | inr fails ↦ cc (rw fails at found)
      | inl test ↦
          let parts = some-injective _ _ (rw test at found) in
          let q = cells_printed a b c e s f g t h i test in
          let k = cells_bounds a b c e s f g t h i test in
          subst (λ (x : ℕ × ℕ × ℕ). IsDateText (cells a b c e s f g t h i) x.0 x.1 x.2) parts
            (record { text = sym q; year_bound = k.0; month_bound = k.1; day_bound = k.2 })
    ]
match_date-IsDateText _ y m d found = cc
