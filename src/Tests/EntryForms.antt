-- ===== src/Tests/EntryForms.antt =====
-- A repair with an odometer reading, and a car with a price and dates.
use my_cars.Prelude.{
  ◌≡◌, ◌≢◌, ◌==◌, ◌∷◌, ◌∙◌, ap, suc, Text, all, is_digit, and_iff, if◌then◌else◌, refl, true, false,
  [], none, some, codes, arith,
}
use my_cars.Prelude.Int.{ℤ, pos, negsuc, ◌-ℤ◌}
use my_cars.Prelude.Digits.{show, show-digits, show-ne-nil, read_digits, read_digits-show}
use my_cars.Money.Decimal.{Parsed}
use my_cars.Money.Decimal.Parse.{IsDecimal, digit_is_no_dash}
use my_cars.Dates.{days_in}
use my_cars.Dates.Range.Laws.{Names}
use my_cars.Dates.Deregistration.Laws.{day_le}
use my_cars.Forms.Texts.{trim, Numerals}
use my_cars.Forms.Texts.Laws.{written, IsNumerals}
use my_cars.Forms.Times.{Clock, LocalTime, from_local_input, to_local_input}
use my_cars.Forms.Repair.{Repair, submit}
use my_cars.Forms.Repair.Laws.{opened, submit-opened}
use my_cars.Forms.Car
use my_cars.Forms.Car.Laws.{IsTidy, is_sent, to_input-initial_values, submit-day_le}

abbrev price : Parsed
price = record { negative = false; whole = codes "12"; fraction = codes "50" }

price-IsDecimal : IsDecimal price
price-IsDecimal = record { has_whole = λ e. cc; whole_digits = refl; fraction_digits = refl }

abbrev noon : LocalTime
noon = record { year = 2024; month = 4; date = 3; hours = 12; minutes = 5 }

-- A clock that stands still.
abbrev clock : Clock
clock = record { iso = λ t. some (codes "2024-05-03T12:05"); local = λ t. noon; now = noon }

-- Numbers that are exact.
abbrev read_exact : Text → ℤ
read_exact [] = pos 0
read_exact (c ∷ s) = if c == b'-' then pos 0 -ℤ pos (read_digits s) else pos (read_digits (c ∷ s))

abbrev exact : Numerals ℤ
exact = record { number = read_exact; string = written }

read_exact-digits : (s : Text) → s ≢ [] → all is_digit s ≡ true → read_exact s ≡ pos (read_digits s)
read_exact-digits [] ne h = absurd (ne refl)
read_exact-digits (c ∷ s) ne h =
    rw (digit_is_no_dash c ((and_iff (is_digit c) (all is_digit s)).0 h).0) refl

read_exact-written : (z : ℤ) → read_exact (written z) ≡ z
unfolding ◌-ℤ◌
read_exact-written (pos n) =
    read_exact-digits (show n) (show-ne-nil n) (show-digits n) ∙ ap pos (read_digits-show n)
read_exact-written (negsuc n) = rw (read_digits-show (suc n)) (ground arith)

exact-IsNumerals : IsNumerals exact (λ z. z)
exact-IsNumerals = record { string_of = λ z h. refl; number_of = λ z h. read_exact-written z }

abbrev repair : Repair ℤ
repair = record {
  car_id = codes "c1";
  date = codes "2024-05-03T12:05";
  station = codes "Workshop";
  odometer_reading = some (pos 120034);
  type = codes "service";
  amount = codes "12.50";
  description = codes "oil change";
}

trimmed : trim (codes "oil change") ≡ codes "oil change"
unfolding trim
trimmed = refl

submit-opened_example : submit exact clock (opened exact clock repair) ≡ (
  opened exact clock repair,
  some (record repair { date = from_local_input clock (to_local_input (clock.local repair.date)) }),
)
submit-opened_example =
    submit-opened exact (λ z. z) exact-IsNumerals clock repair (some (pos 120034)) price refl
      (omega arith) refl price-IsDecimal trimmed

abbrev car : Car.Car
car = record {
  type = codes "estate";
  make = codes "Maker";
  name = codes "Family car";
  fuel = codes "diesel";
  first_registration = some (codes "2019-03-01");
  license_plate = none;
  fin = some (codes "X 1");
  purchase_date = none;
  purchase_price = some (codes "12.50");
  is_active = true;
  deregistration_date = none;
  information = some (codes "two keys");
}

car-IsTidy : IsTidy car
unfolding trim
car-IsTidy = record {
  first_registration = (λ e. cc, refl);
  license_plate = tt;
  fin = (λ e. cc, refl);
  purchase_date = tt;
  purchase_price = (price, price-IsDecimal, refl);
  deregistration_date = tt;
  information = (λ e. cc, refl);
}

to_input-initial_values_example : Car.to_input (Car.initial_values (some car)) ≡ car
to_input-initial_values_example = to_input-initial_values car car-IsTidy

-- A car that was deregistered the day before it was registered.
abbrev form : Car.CarForm
form = record {
  values = record (Car.initial_values (some car)) {
    first_registration = codes "2024-03-01";
    deregistration_date = codes "2024-02-29";
  };
  local_reasons = [];
  edits = 0;
}

registered : Names (codes "2024-03-01") 2024 2 1
unfolding days_in show
registered = record {
  from_100 = omega arith;
  to_9999 = omega arith;
  day = record { month_in_year = omega arith; day_from = omega arith; day_to = omega arith };
  text = refl;
}

deregistered : Names (codes "2024-02-29") 2024 1 29
unfolding days_in show
deregistered = record {
  from_100 = omega arith;
  to_9999 = omega arith;
  day = record { month_in_year = omega arith; day_from = omega arith; day_to = omega arith };
  text = refl;
}

submit-day_le_example : is_sent (Car.submit form) ≡ day_le (2024, 2, 1) (2024, 1, 29)
submit-day_le_example = submit-day_le form 2024 2 1 2024 1 29 registered deregistered
