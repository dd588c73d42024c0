-- ===== src/Tests/Forms.antt =====
-- A refuel of an electric car and searches of a route.
use mathlib.Core.Path.{subst}
use mathlib.Core.Option.{some-injective}
use my_cars.Prelude.Digits.{read_digits}
use my_cars.Prelude.{ℕ, ◌≡◌, ◌≤◌, ◌⊎◌, true, false, any, List, [], ◌∷◌, some, codes, text_eq, arith}
use my_cars.Json.{Value, obj, str, member, end}
use my_cars.Client.Enums.{refuel_fuels_for}
use my_cars.Forms.Refuel.{FormCar, RefuelForm, car_fuel, change_car}
use my_cars.Forms.Refuel.Laws.{change_car_lem}
use my_cars.Dates.{DateRuntime}
use my_cars.Search.{validate_dashboard_search, year_of, year_text}

abbrev cars : List FormCar
cars = record { id = codes "e1"; fuel = codes "electric" } ∷ []

abbrev form : RefuelForm
form = record {
  values = record {
    car_id = [];
    date = [];
    station = [];
    odometer_reading = [];
    fuel = codes "special";
    quantity = [];
    amount = [];
  };
  local_reasons = [];
  edits = 0;
}

change_car_lem_example :
    ((change_car cars (codes "e1") form).values.car_id ≡ codes "e1")
    × (any
          (text_eq (change_car cars (codes "e1") form).values.fuel)
          (refuel_fuels_for (car_fuel (codes "e1") cars))
        ≡ true)
    × (((change_car cars (codes "e1") form).values.fuel ≡ codes "special")
        ⊎ (any (text_eq (codes "special")) (refuel_fuels_for (car_fuel (codes "e1") cars)) ≡ false))
change_car_lem_example = change_car_lem cars (codes "e1") form

-- A Date that is always the same day.
abbrev one_day : DateRuntime Unit
one_day = record {
  make = λ y m d. tt;
  full_year = λ t. 2024;
  month = λ t. 0;
  date = λ t. 1;
  to_iso_string = λ t. [];
}

abbrev dated : Value
dated = obj (member (codes "from") (str (codes "2024-01-01")) end)

abbrev of_year : Value
of_year = obj (member (codes "year") (str (codes "2024")) end)

from_1000 : (n : ℕ) → (validate_dashboard_search of_year).year ≡ some n → 1000 ≤ n
unfolding validate_dashboard_search year_of year_text read_digits
from_1000 n e = subst (λ q. 1000 ≤ q) (some-injective _ _ e) (omega arith)
