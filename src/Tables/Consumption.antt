-- ===== src/Tables/Consumption.antt =====
-- The consumption that a row of frontend/src/refuels/refuel-table.tsx shows.
use mathlib.Core.Path.{subst}
use mathlib.Core.Option.{some-injective}
use my_cars.Prelude.{
  Option-cases, ◌≡◌, ◌≢◌, refl, ap, inl, inr, ◌⊎◌, true, false, Bool-cases, List, [], ◌∷◌, ◌++◌, ℕ,
  get_elem?, any, Option, none, some, Text, codes, text_eq, text_eq_iff,
}
use my_cars.Locale.{Locale}
use my_cars.Dates.{DateRuntime}
use my_cars.Tables.Units.{
  Intl, DisplayUnits, VolumeUnit, liter, gallon, DistanceUnit, kilometer, mile, quantity_symbol,
  consumption_symbol, volume_symbol, distance_symbol, format_decimal, quantity_consumption, written,
}
use my_cars.Tables.Data.{Car, Refuel, Cell, shown, no_value, consumption_column}
use my_cars.Tables.Rows.{
  derived_of, consumption_of, consumption_cell, car_at, fuel_at, refuel_row, refuel_table,
}

-- What the consumption of a row is read from, for any id: if no refuel of the chart has it, there is
-- none, and otherwise it is the last of the chart's refuels that has it.
pub derived_of_lem :
    (chart : List Refuel) (id : Text)
    → ((derived_of chart id ≡ none) × (any (λ item. text_eq item.id id) chart ≡ false))
      ⊎ ((before : List Refuel) × (found : Refuel) × (after : List Refuel) × (derived_of chart id
            ≡ some found)
          × (chart ≡ before ++ found ∷ after)
          × (found.id ≡ id)
          × (any (λ item. text_eq item.id id) after ≡ false))
unfolding derived_of
derived_of_lem [] id = inl (refl, refl)
derived_of_lem (item ∷ chart) id = elim (derived_of_lem chart id) [
  | inr (before, found, after, h, e, k, l) ↦
      inr (item ∷ before, found, after, rw h, ap (λ xs. item ∷ xs) e, k, l)
  | inl (h, l) ↦ elim (Bool-cases (text_eq item.id id)) [
    | inl b ↦ inr ([], item, chart, rw (h, b), refl, (text_eq_iff item.id id).0 b, l)
    | inr b ↦ inl (rw (h, b), rw (b, l))
  ]
]

-- What holds of the consumption of the last of the refuels with an id, or of none.
abbrev pub OfLast : List Refuel → Text → (Option Text → Type 0) → Type 0
OfLast chart id P =
    (P none × (any (λ item. text_eq item.id id) chart ≡ false))
    ⊎ ((before : List Refuel) × (found : Refuel) × (after : List Refuel) × P found.consumption
        × (chart ≡ before ++ found ∷ after)
        × (found.id ≡ id)
        × (any (λ item. text_eq item.id id) after ≡ false))

derived_of-OfLast :
    (chart : List Refuel) (id : Text) (P : Option Text → Type 0)
    → P (consumption_of (derived_of chart id))
    → OfLast chart id P
derived_of-OfLast chart id P h = elim (derived_of_lem chart id) [
  | inl (e, l) ↦ inl (subst (λ o. P (consumption_of o)) e h, l)
  | inr (before, found, after, e, k, l, m) ↦
      inr (before, found, after, subst (λ o. P (consumption_of o)) e h, k, l, m)
]

-- The car of an id is known.
abbrev pub IsKnown : Option (Text → Option Car) → Text → Car → Type 0
IsKnown cars id car = (by_id : Text → Option Car) × (cars ≡ some by_id) × (by_id id ≡ some car)

-- The fuel of the car of an id where the car is known, and another fuel where it is not.
abbrev pub IsFuel : Option (Text → Option Car) → Option Text → Text → Option Text → Type 0
IsFuel cars other id fuel =
    ((car : Car) × IsKnown cars id car × (fuel ≡ some car.fuel))
    ⊎ (((car : Car) → IsKnown cars id car → ⊥) × (fuel ≡ other))

fuel_at-IsFuel :
    (cars : Option (Text → Option Car)) (other : Option Text) (id : Text)
    → IsFuel cars other id (fuel_at (car_at cars id) other)
fuel_at-IsFuel none other id = inr (λ car (by_id, e, k). cc, refl)
fuel_at-IsFuel (some by_id) other id = elim (Option-cases (by_id id)) [
  | inl e ↦ inr (
    λ car (by_id', e', k). let same = ap (λ g. g id) (some-injective _ _ e') in cc (e, k, same),
    rw e refl,
  )
  | inr (car, e) ↦ inl (car, (by_id, refl, e), rw e refl)
]

-- The unit of a quantity of a fuel: kilowatt-hours for an electric car, and otherwise the account's.
abbrev pub volume_text : VolumeUnit → Text
volume_text liter = codes "l"
volume_text gallon = codes "gal"

abbrev pub distance_text : DistanceUnit → Text
distance_text kilometer = codes "km"
distance_text mile = codes "mi"

abbrev pub IsUnit : DisplayUnits → Option Text → Text → Type 0
IsUnit u fuel unit =
    ((fuel ≡ some (codes "electric")) × (unit ≡ codes "kWh"))
    ⊎ ((fuel ≢ some (codes "electric")) × (unit ≡ volume_text u.volume_unit))

volume_symbol_lem : (v : VolumeUnit) → volume_symbol v ≡ volume_text v
volume_symbol_lem liter = refl
volume_symbol_lem gallon = refl

distance_symbol_lem : (d : DistanceUnit) → distance_symbol d ≡ distance_text d
distance_symbol_lem kilometer = refl
distance_symbol_lem mile = refl

quantity_symbol-IsUnit :
    (u : DisplayUnits) (fuel : Option Text) → IsUnit u fuel (quantity_symbol u fuel)
unfolding quantity_symbol
quantity_symbol-IsUnit u none = inr (λ e. cc, volume_symbol_lem u.volume_unit)
quantity_symbol-IsUnit u (some fuel) = elim (Bool-cases (text_eq fuel (codes "electric"))) [
  | inl e ↦ inl (ap some ((text_eq_iff fuel (codes "electric")).0 e), rw e refl)
  | inr e ↦ inr (
    λ k. let same = (text_eq_iff fuel (codes "electric")).1 (some-injective _ _ k) in cc (e, same),
    rw e (volume_symbol_lem u.volume_unit),
  )
]

module _ {D N E : Type 0} (r : DateRuntime D) (today : D) (intl : Intl N E) (locale : Locale) where
  -- A text as a number with two digits, or unchanged where it is none.
  abbrev pub IsNumber : Text → Text → Type 0
  IsNumber value text =
      ((intl.is_finite (intl.number value) ≡ true)
        × (text ≡ intl.format_number locale 2 (intl.number value)))
      ⊎ ((intl.is_finite (intl.number value) ≡ false) × (text ≡ value))

  format_decimal-IsNumber :
      (value : Text) → IsNumber value (format_decimal intl locale (written value) 2)
  unfolding format_decimal
  format_decimal-IsNumber value = elim (Bool-cases (intl.is_finite (intl.number value))) [
    | inl e ↦ inl (e, rw e refl)
    | inr e ↦ inr (e, rw e refl)
  ]

  module _ (u : DisplayUnits) where
    -- The cell of a consumption for a fuel.
    abbrev pub ShowsConsumption : Option Text → Cell → Option Text → Type 0
    ShowsConsumption fuel cell none = cell ≡ no_value
    ShowsConsumption fuel cell (some value) =
        (number : Text) × (unit : Text) × IsNumber value number
        × IsUnit u fuel unit
        × (cell
            ≡ shown (
                number
                ++ (codes " " ++ (unit ++ (codes "/100 " ++ distance_text u.distance_unit)))))

    consumption_cell-ShowsConsumption :
        (fuel consumption : Option Text)
        → ShowsConsumption fuel
            (consumption_cell r today intl locale u fuel consumption)
            consumption
    unfolding quantity_consumption consumption_symbol
    consumption_cell-ShowsConsumption fuel none = refl
    consumption_cell-ShowsConsumption fuel (some value) = (
      format_decimal intl locale (written value) 2,
      quantity_symbol u fuel,
      format_decimal-IsNumber value,
      quantity_symbol-IsUnit u fuel,
      rw (distance_symbol_lem u.distance_unit) refl,
    )

    -- In the column of consumptions, a row of the table of refuels shows the consumption of the last
    -- of the chart's refuels with the row's id: the number, its unit (kWh for an electric car, and
    -- otherwise the account's unit of volumes) and the account's unit of distances, for the fuel of
    -- the row's car where the car is known; where no refuel of the chart has the id, or the last
    -- that has it has no consumption, the row shows none.
    pub refuel_row-ShowsConsumption :
        (cars : Option (Text → Option Car)) (car_fuel : Option Text) (chart items : List Refuel)
        → (total : Option N) (item : Refuel)
        → (i : ℕ) × (cell : Cell) × (fuel : Option Text) × (get_elem?
              (refuel_table r today intl locale u cars car_fuel chart items total).columns
              i
            ≡ some consumption_column)
          × (get_elem? (refuel_row r today intl locale u cars car_fuel chart item).cells i
              ≡ some cell)
          × IsFuel cars car_fuel item.car_id fuel
          × OfLast chart item.id (ShowsConsumption fuel cell)
    unfolding refuel_row refuel_table
    refuel_row-ShowsConsumption none car_fuel chart items total item = (
      6,
      _,
      fuel_at none car_fuel,
      refl,
      refl,
      fuel_at-IsFuel none car_fuel item.car_id,
      derived_of-OfLast chart item.id _
          (consumption_cell-ShowsConsumption _ (consumption_of (derived_of chart item.id))),
    )
    refuel_row-ShowsConsumption (some by_id) car_fuel chart items total item = (
      7,
      _,
      fuel_at (by_id item.car_id) car_fuel,
      refl,
      refl,
      fuel_at-IsFuel (some by_id) car_fuel item.car_id,
      derived_of-OfLast chart item.id _
          (consumption_cell-ShowsConsumption _ (consumption_of (derived_of chart item.id))),
    )
