-- ===== src/Forms/Car/Laws.antt =====
-- What the car form of frontend/src/cars/car-form.tsx sends, and when it refuses.
use mathlib.Core.Option
use mathlib.Core.Path.{ap₂}
use my_cars.Prelude.{
  Bool-cases, inl, inr, ℕ, ◌≡◌, ◌≢◌, ◌+◌, refl, sym, ap, ◌∙◌, true, Option, none, some, [], ◌∷◌,
  ◌++◌, Text, all, all-append, text_le, codes, arith, pad_start, Bool, false,
}
use my_cars.Prelude.Digits.{show}
use my_cars.Prelude.Padded.{padded-digits}
use my_cars.Money.Decimal.{Parsed}
use my_cars.Money.Decimal.Parse.{IsDecimal, print, minus, behind_point}
use my_cars.Dates.Range.Format.{date_text}
use my_cars.Dates.Range.Laws.{Names, days_lt_100}
use my_cars.Dates.Deregistration.Laws.{day_le, text_le-date_text}
use my_cars.Forms.Texts.{trim, comma_to_point, or_empty}
use my_cars.Forms.Texts.Laws.{
  no_space, digits-no_space, trim-no_space, print-no_space, comma_to_point-print,
}
use my_cars.Forms.Car.{
  Car, CarForm, initial_values, optional, decimal, to_input, order_reasons, non_empty, submitted,
  date_order_reasons, submit,
}

-- A text that is given is not empty, and has no white space around it.
abbrev pub IsTidyText : Option Text → Type 0
IsTidyText none = Unit
IsTidyText (some s) = (s ≢ []) × (trim s ≡ s)

-- A price that is given is a decimal with a point.
abbrev pub IsPrice : Option Text → Type 0
IsPrice none = Unit
IsPrice (some s) = (p : Parsed) × IsDecimal p × (s ≡ print p)

pub record IsTidy (car : Car) : Type 0 where
  pub first_registration : IsTidyText car.first_registration
  pub license_plate : IsTidyText car.license_plate
  pub fin : IsTidyText car.fin
  pub purchase_date : IsTidyText car.purchase_date
  pub purchase_price : IsPrice car.purchase_price
  pub deregistration_date : IsTidyText car.deregistration_date
  pub information : IsTidyText car.information

optional-or_empty : (o : Option Text) → IsTidyText o → optional (or_empty o) ≡ o
unfolding optional trim
optional-or_empty none t = refl
optional-or_empty (some []) t = absurd (t.0 refl)
optional-or_empty (some (c ∷ s)) t = rw t.1 refl

append-ne-nil : (s u t : Text) → t ≢ [] → s ++ (t ++ u) ≢ []
append-ne-nil [] u [] ne e = ne refl
append-ne-nil [] u (c ∷ t) ne e = ground arith
append-ne-nil (c ∷ s) u t ne e = ground arith

print-ne-nil : (p : Parsed) → IsDecimal p → print p ≢ []
print-ne-nil p d e =
    append-ne-nil (minus p.negative) (behind_point p.fraction) p.whole d.has_whole e

decimal-optional : (o : Option Text) → IsPrice o → Option.map decimal (optional (or_empty o)) ≡ o
unfolding decimal optional
decimal-optional none t = refl
decimal-optional (some s) (p, d, e) =
    let tidy : IsTidyText (some s) = (
      λ empty. print-ne-nil p d (sym e ∙ empty),
      ap trim e ∙ trim-no_space (print p) (print-no_space p d) ∙ sym e,
    ) in
    ap (Option.map decimal) (optional-or_empty (some s) tidy)
    ∙ ap some (ap comma_to_point e ∙ comma_to_point-print p d ∙ sym e)

-- The form of a car whose optional texts are non-empty and trimmed where they are given, and whose
-- price is a decimal where it is given, holds that car: what it would send is the car itself.
pub to_input-initial_values : (car : Car) → IsTidy car → to_input (initial_values (some car)) ≡ car
unfolding to_input initial_values
to_input-initial_values car t = λ i. record car {
  first_registration = optional-or_empty car.first_registration t.first_registration i;
  license_plate = optional-or_empty car.license_plate t.license_plate i;
  fin = optional-or_empty car.fin t.fin i;
  purchase_date = optional-or_empty car.purchase_date t.purchase_date i;
  purchase_price = decimal-optional car.purchase_price t.purchase_price i;
  deregistration_date = optional-or_empty car.deregistration_date t.deregistration_date i;
  information = optional-or_empty car.information t.information i;
}

padded-no_space : (k n : ℕ) → all no_space (pad_start k b'0' (show n)) ≡ true
padded-no_space k n = digits-no_space (pad_start k b'0' (show n)) (padded-digits n k)

date_text-no_space : (y m d : ℕ) → all no_space (date_text y m d) ≡ true
date_text-no_space y m d =
    all-append no_space (pad_start 4 b'0' (show y)) _ (padded-no_space 4 y) (
      all-append no_space (pad_start 2 b'0' (show m)) _ (padded-no_space 2 m) (padded-no_space 2 d))

Names-trim : (v : Text) (y m d : ℕ) → Names v y m d → trim v ≡ v
Names-trim v y m d n =
    ap trim n.text
    ∙ trim-no_space (date_text y (m + 1) d) (date_text-no_space y (m + 1) d)
    ∙ sym n.text

-- Whether onSubmit is called.
abbrev pub is_sent : CarForm × Option Car → Bool
is_sent (f, none) = false
is_sent (f, some car) = true

non_empty_lem : (s : Text) → s ≢ [] → non_empty s ≡ true
non_empty_lem [] ne = absurd (ne refl)
non_empty_lem (c ∷ s) ne = refl

date_text-non_empty : (y m d : ℕ) → non_empty (date_text y m d) ≡ true
date_text-non_empty y m d =
    non_empty_lem (date_text y m d) (append-ne-nil (pad_start 4 b'0' (show y)) _ (codes "-") (cc))

submitted-order :
    (f : CarForm) (first deregistration : Text)
    → non_empty first ≡ true
    → non_empty deregistration ≡ true
    → is_sent (submitted f (order_reasons first deregistration)) ≡ text_le first deregistration
unfolding submitted
submitted-order f first deregistration h k = elim (Bool-cases (text_le first deregistration)) [
  | inl e ↦ rw (h, k, e) refl
  | inr e ↦ rw (h, k, e) refl
]

-- Where the dates name days of the years from 100 to 9999, the form hands a car to onSubmit exactly
-- when the day of first registration is not after the day of deregistration.
pub submit-day_le :
    (f : CarForm) (y m d y' m' d' : ℕ)
    → Names f.values.first_registration y m d
    → Names f.values.deregistration_date y' m' d'
    → is_sent (submit f) ≡ day_le (y, m, d) (y', m', d')
unfolding submit date_order_reasons
submit-day_le f y m d y' m' d' n n' =
    ap₂ (λ a b. is_sent (submitted f (order_reasons a b)))
      (Names-trim f.values.first_registration y m d n ∙ n.text)
      (Names-trim f.values.deregistration_date y' m' d' n' ∙ n'.text)
    ∙ submitted-order f (date_text y (m + 1) d) (date_text y' (m' + 1) d')
        (date_text-non_empty y (m + 1) d) (date_text-non_empty y' (m' + 1) d')
    ∙ text_le-date_text y (m + 1) d y' (m' + 1) d'
        (n.to_9999, omega (arith, n.day.month_in_year), days_lt_100 y m d n.day)
        (n'.to_9999, omega (arith, n'.day.month_in_year), days_lt_100 y' m' d' n'.day)
    ∙ ground arith
