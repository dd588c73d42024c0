-- ===== src/Charts/Series.antt =====
-- The series of frontend/src/refuels/fuel-price-chart.tsx and consumption-chart.tsx, which the line
-- chart draws. `Date.parse` and `Number` are parameters, and the translated labels are left out.
pub mod Laws
use my_cars.Prelude.{
  Bool, true, false, ◌&&◌, List, [], ◌∷◌, ◌++◌, Option, none, some, Text, codes, text_eq, map, keep,
}
use my_cars.Client.Enums.{car_fuels, refuel_fuels_for}
use my_cars.Charts.Lines.{LinePoint, LineSeries}

-- What the charts read of a refuel.
pub record Refuel : Type 0 where
  pub id : Text
  pub car_id : Text
  pub fuel : Text
  pub date : Text
  pub unit_price : Text
  pub consumption : Option Text

pub record Parsing (N : Type 0) : Type 0 where
  pub parse_date : Text → N
  pub number : Text → N

-- `cars.get(item.carId)?.fuel === carFuel`
abbrev pub is_fuel : Text → Option Text → Bool
is_fuel car_fuel none = false
is_fuel car_fuel (some fuel) = text_eq fuel car_fuel

module _ {N : Type 0} (parsing : Parsing N) where
  abbrev pub price_point : Refuel → LinePoint N
  price_point item = record {
    id = item.id;
    time = parsing.parse_date item.date;
    value = parsing.number item.unit_price;
  }

  -- The points of a refuel without a consumption, and of one with it.
  abbrev pub consumption_point : Refuel → Option Text → List (LinePoint N)
  consumption_point item none = []
  consumption_point item (some consumption) =
      record {
        id = item.id;
        time = parsing.parse_date item.date;
        value = parsing.number consumption;
      }
      ∷ []

  -- The points of the consumption chart.
  unfoldable pub consumption_points : List Refuel → List (LinePoint N)
  consumption_points [] = []
  consumption_points (item ∷ items) =
      consumption_point item item.consumption ++ consumption_points items

  -- The fuel of a car that is known.
  module _ (fuel_of : Text → Option Text) where
    -- The test of `items.filter`.
    abbrev pub is_priced : Text → Text → Refuel → Bool
    is_priced car_fuel fuel item = text_eq item.fuel fuel && is_fuel car_fuel (fuel_of item.car_id)

    -- The series of a pair of a car fuel and a subtype.
    abbrev pub price_line : List Refuel → Text → Text → LineSeries N
    price_line items car_fuel fuel = record {
      key = car_fuel ++ (codes "-" ++ fuel);
      label = [];
      is_right = text_eq car_fuel (codes "electric");
      points = map price_point (keep (is_priced car_fuel fuel) items);
    }

    abbrev pub fuel_lines : List Refuel → Text → List Text → List (LineSeries N)
    fuel_lines items car_fuel fuels = map (price_line items car_fuel) fuels

    abbrev pub car_lines : List Refuel → List Text → List (LineSeries N)
    unfolding refuel_fuels_for
    car_lines items [] = []
    car_lines items (car_fuel ∷ rest) =
        fuel_lines items car_fuel (refuel_fuels_for (some car_fuel)) ++ car_lines items rest

    -- `carFuels.flatMap((carFuel) => …)`
    unfoldable pub price_series : List Refuel → List (LineSeries N)
    unfolding car_lines
    price_series items = car_lines items car_fuels
