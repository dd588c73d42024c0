-- ===== src/Forms/Repair/Laws.antt =====
-- What the repair form of frontend/src/repairs/repair-form.tsx sends.
use mathlib.Core.Option
use mathlib.Core.Path.{ap₂}
use my_cars.Prelude.{◌≡◌, refl, sym, ap, ◌∙◌, [], Option, none, some, Text}
use my_cars.Prelude.Int.{ℤ}
use my_cars.Money.Decimal.{Parsed, parse}
use my_cars.Money.Decimal.Parse.{IsDecimal, print, parse_complete}
use my_cars.Forms.Texts.{trim, comma_to_point, Numerals, read_whole, reading_text}
use my_cars.Forms.Texts.Laws.{
  trim-no_space, print-no_space, print_comma, print_comma-no_space, comma_to_point-print,
  comma_to_point-print_comma, read_whole-reading_text, reading_text-no_space, reading_of,
  IsNumerals, AllSafe,
}
use my_cars.Forms.Times.{Clock, from_local_input, to_local_input}
use my_cars.Forms.Repair.{
  Repair, RepairForm, initial_values, decimal, odometer, submitted, input_of, submit,
}

-- An amount that is written with a decimal point or a decimal comma, and without spaces, is sent
-- as the decimal with a point, which parses to the parts that were written.
pub decimal-comma :
    (p : Parsed)
    → IsDecimal p
    → (decimal (print_comma p) ≡ print p)
      × (decimal (print p) ≡ print p)
      × (parse (print p) ≡ some p)
unfolding decimal
decimal-comma p d = (
  ap comma_to_point (trim-no_space (print_comma p) (print_comma-no_space p d))
      ∙ comma_to_point-print_comma p d,
  ap comma_to_point (trim-no_space (print p) (print-no_space p d)) ∙ comma_to_point-print p d,
  parse_complete p d,
)

-- The form of a repair that is edited, as it opens.
abbrev pub opened : {N : Type 0} → Numerals N → Clock → Repair N → RepairForm
unfolding initial_values to_local_input reading_text
opened numerals clock r = record {
  values = initial_values numerals clock (some r) [];
  local_reasons = [];
  edits = 0;
}

module _ {N : Type 0} (numerals : Numerals N) (of_integer : ℤ → N)
    (laws : IsNumerals numerals of_integer) where
  odometer-reading_text :
      (r : Option ℤ)
      → AllSafe r
      → odometer numerals (reading_text numerals (Option.map of_integer r))
        ≡ reading_of (Option.map of_integer r)
  unfolding odometer
  odometer-reading_text r h =
      ap (read_whole numerals) (
        trim-no_space (reading_text numerals (Option.map of_integer r))
          (reading_text-no_space numerals of_integer laws r h))
      ∙ read_whole-reading_text numerals of_integer laws r h

  submitted-reading_of :
      (clock : Clock) (f : RepairForm) (reading : Option N)
      → submitted numerals clock f (reading_of reading)
        ≡ (f, some (input_of numerals clock f.values reading))
  unfolding submitted
  submitted-reading_of clock f none = refl
  submitted-reading_of clock f (some n) = refl

  -- Where String writes the integers that doubles hold exactly as their digits, and Number reads them
  -- back: the form of a repair whose reading is missing or such an integer, whose amount is a
  -- decimal and whose description is trimmed sends, when it is submitted as it was opened, the
  -- repair's own values, with the time as the input shows it.
  pub submit-opened :
      (clock : Clock) (r : Repair N) (reading : Option ℤ) (p : Parsed)
      → r.odometer_reading ≡ Option.map of_integer reading
      → AllSafe reading
      → r.amount ≡ print p
      → IsDecimal p
      → trim r.description ≡ r.description
      → submit numerals clock (opened numerals clock r) ≡ (
        opened numerals clock r,
        some (record r { date = from_local_input clock (to_local_input (clock.local r.date)) }),
      )
  unfolding submit initial_values
  submit-opened clock r reading p same safe amount d trimmed =
      ap (submitted numerals clock (opened numerals clock r)) read_back
      ∙ submitted-reading_of clock (opened numerals clock r) r.odometer_reading
      ∙ ap
          (λ (t : Text × Text). (
            opened numerals clock r,
            some (record r {
              date = from_local_input clock (to_local_input (clock.local r.date));
              amount = t.0;
              description = t.1;
            }),
          ))
          (ap₂ (λ a t. (a, t)) (amount_sent ∙ sym amount) trimmed)
    where
      amount_sent : decimal r.amount ≡ print p
      amount_sent = ap decimal amount ∙ (decimal-comma p d).1

      read_back :
          odometer numerals (reading_text numerals r.odometer_reading)
          ≡ reading_of r.odometer_reading
      read_back =
          ap (λ o. odometer numerals (reading_text numerals o)) same
          ∙ odometer-reading_text reading safe
          ∙ ap reading_of (sym same)
