-- ===== src/Charts/Series/Laws.antt =====
-- Which refuels the chart of fuel prices draws.
use mathlib.Core.Path.{ap₂}
use my_cars.Prelude.{
  and_assoc, ℕ, ◌+◌, ◌≡◌, refl, sym, ap, ◌∙◌, inl, inr, Bool, true, false, not, ◌&&◌, List, [], ◌∷◌,
  ◌++◌, Option, none, some, Text, text_eq, text_eq_iff, any, arith, if◌then◌else◌, Bool-cases,
}
use my_cars.Client.Enums.{car_fuels, is_electric, refuel_fuels_for}
use my_cars.Charts.Lines.{LinePoint, LineSeries, Numbers, ordered}
use my_cars.Charts.Lines.Laws.{count, both_finite, drawn_count, ordered_lem}
use my_cars.Charts.Series.{
  Refuel, Parsing, is_fuel, price_point, is_priced, price_line, fuel_lines, car_lines, price_series,
}

-- No text stands twice in a list.
abbrev pub distinct : List Text → Bool
distinct [] = true
distinct (w ∷ ws) = not (any (text_eq w) ws) && distinct ws

-- How many of some texts are a given one, where a condition holds.
abbrev hits : Text → Bool → List Text → ℕ
hits x b [] = 0
hits x b (w ∷ ws) = (if text_eq x w && b then 1 else 0) + hits x b ws

hits-distinct :
    (x : Text) (b : Bool) (ws : List Text)
    → distinct ws ≡ true
    → hits x b ws ≡ (if any (text_eq x) ws && b then 1 else 0)
hits-distinct x b [] h = refl
hits-distinct x b (w ∷ ws) h = elim (Bool-cases (text_eq x w)) [
  | inl e ↦
      let same : x ≡ w = (text_eq_iff x w).0 e in
      rw same (ground (arith, hits-distinct w b ws, text_eq_iff w w))
  | inr e ↦ rw e (ground (arith, hits-distinct x b ws))
]

refuel_fuels_for-distinct : (car_fuel : Option Text) → distinct (refuel_fuels_for car_fuel) ≡ true
unfolding refuel_fuels_for
refuel_fuels_for-distinct car_fuel = elim (Bool-cases (is_electric car_fuel)) [
  | inl e ↦ rw e refl
  | inr e ↦ rw e refl
]

-- Whether the fuel of a refuel is one that a car of some fuel takes.
abbrev pub is_taken : Text → Option Text → Bool
is_taken fuel none = false
is_taken fuel (some car_fuel) =
    any (text_eq car_fuel) car_fuels && any (text_eq fuel) (refuel_fuels_for (some car_fuel))

-- The pairs of a car fuel and a subtype that fit a subtype and the fuel of a car.
abbrev pair_hits : Text → Bool → Option Text → List Text → ℕ
pair_hits x b o [] = 0
pair_hits x b o (car_fuel ∷ rest) =
    hits x (is_fuel car_fuel o && b) (refuel_fuels_for (some car_fuel)) + pair_hits x b o rest

pair_hits-none : (x : Text) (b : Bool) (cars : List Text) → pair_hits x b none cars ≡ 0
pair_hits-none x b [] = refl
pair_hits-none x b (car_fuel ∷ rest) =
    let fuels = refuel_fuels_for (some car_fuel) in
    let here : hits x false fuels ≡ 0 =
      hits-distinct x false fuels (refuel_fuels_for-distinct (some car_fuel)) ∙ ground arith in
    omega (arith, here, pair_hits-none x b rest)

pair_hits-some :
    (x : Text) (b : Bool) (g : Text) (cars : List Text)
    → pair_hits x b (some g) cars ≡ hits g (any (text_eq x) (refuel_fuels_for (some g)) && b) cars
pair_hits-some x b g [] = refl
pair_hits-some x b g (car_fuel ∷ rest) =
    let fuels = refuel_fuels_for (some car_fuel) in
    let here =
      hits-distinct x (text_eq g car_fuel && b) fuels (refuel_fuels_for-distinct (some car_fuel)) in
    elim (Bool-cases (text_eq g car_fuel)) [
      | inl e ↦
          let same : g ≡ car_fuel = (text_eq_iff g car_fuel).0 e in
          ap (λ k. k + pair_hits x b (some g) rest) here
          ∙ rw (pair_hits-some x b g rest) (
              rw e (
                ap
                  (λ k.
                    (if any (text_eq x) (refuel_fuels_for (some k)) && b then 1 else 0)
                    + hits g (any (text_eq x) (refuel_fuels_for (some g)) && b) rest)
                  (sym same)))
      | inr e ↦
          ap (λ k. k + pair_hits x b (some g) rest) here
          ∙ rw (pair_hits-some x b g rest) (rw e (ground arith))
    ]

pair_hits_lem :
    (x : Text) (b : Bool) (o : Option Text)
    → pair_hits x b o car_fuels ≡ (if is_taken x o && b then 1 else 0)
pair_hits_lem x b none = pair_hits-none x b car_fuels
pair_hits_lem x b (some g) =
    pair_hits-some x b g car_fuels
    ∙ hits-distinct g (any (text_eq x) (refuel_fuels_for (some g)) && b) car_fuels refl
    ∙ ap (λ (t : Bool). if t then 1 else 0)
        (sym
          (and_assoc (any (text_eq g) car_fuels) (any (text_eq x) (refuel_fuels_for (some g))) b))

module _ {N : Type 0} (n : Numbers N) (parsing : Parsing N) (fuel_of : Text → Option Text)
    (f : LinePoint N → Bool) where
  abbrev pub passes : Refuel → Bool
  passes item =
      n.is_finite (parsing.parse_date item.date)
      && (n.is_finite (parsing.number item.unit_price) && f (price_point parsing item))

  drawn_count-append :
      (xs ys : List (LineSeries N))
      → drawn_count n f (xs ++ ys) ≡ drawn_count n f xs + drawn_count n f ys
  drawn_count-append [] ys = omega arith
  drawn_count-append (x ∷ xs) ys = omega (arith, drawn_count-append xs ys)

  -- One more refuel on one line.
  line_count :
      (car_fuel fuel : Text) (item : Refuel) (items : List Refuel)
      → count
          (λ p. both_finite n p && f p)
          (price_line parsing fuel_of (item ∷ items) car_fuel fuel).points
        ≡ (if text_eq item.fuel fuel && (is_fuel car_fuel (fuel_of item.car_id) && passes item)
            then 1
            else 0)
          + count
              (λ p. both_finite n p && f p)
              (price_line parsing fuel_of items car_fuel fuel).points
  line_count car_fuel fuel item items =
      elim (Bool-cases (is_priced parsing fuel_of car_fuel fuel item)) [
        | inl e ↦ rw e (ground arith)
        | inr e ↦ rw e (ground arith)
      ]

  fuel_count :
      (car_fuel : Text) (fuels : List Text) (item : Refuel) (items : List Refuel)
      → drawn_count n f (fuel_lines parsing fuel_of (item ∷ items) car_fuel fuels)
        ≡ hits item.fuel (is_fuel car_fuel (fuel_of item.car_id) && passes item) fuels
          + drawn_count n f (fuel_lines parsing fuel_of items car_fuel fuels)
  fuel_count car_fuel [] item items = refl
  fuel_count car_fuel (fuel ∷ fuels) item items =
      omega (arith, line_count car_fuel fuel item items, fuel_count car_fuel fuels item items)

  abbrev car_hits : Refuel → List Text → ℕ
  car_hits item cars = pair_hits item.fuel (passes item) (fuel_of item.car_id) cars

  car_count :
      (cars : List Text) (item : Refuel) (items : List Refuel)
      → drawn_count n f (car_lines parsing fuel_of (item ∷ items) cars)
        ≡ car_hits item cars + drawn_count n f (car_lines parsing fuel_of items cars)
  unfolding car_lines
  car_count [] item items = refl
  car_count (car_fuel ∷ cars) item items = omega (
    arith,
    drawn_count-append
        (fuel_lines parsing fuel_of (item ∷ items) car_fuel (refuel_fuels_for (some car_fuel)))
        (car_lines parsing fuel_of (item ∷ items) cars),
    drawn_count-append
        (fuel_lines parsing fuel_of items car_fuel (refuel_fuels_for (some car_fuel)))
        (car_lines parsing fuel_of items cars),
    fuel_count car_fuel (refuel_fuels_for (some car_fuel)) item items,
    car_count cars item items,
  )

  fuel_count-nil :
      (car_fuel : Text) (fuels : List Text)
      → drawn_count n f (fuel_lines parsing fuel_of [] car_fuel fuels) ≡ 0
  fuel_count-nil car_fuel [] = refl
  fuel_count-nil car_fuel (fuel ∷ fuels) = omega (arith, fuel_count-nil car_fuel fuels)

  car_count-nil : (cars : List Text) → drawn_count n f (car_lines parsing fuel_of [] cars) ≡ 0
  unfolding car_lines
  car_count-nil [] = refl
  car_count-nil (car_fuel ∷ cars) = omega (
    arith,
    drawn_count-append (fuel_lines parsing fuel_of [] car_fuel (refuel_fuels_for (some car_fuel)))
        (car_lines parsing fuel_of [] cars),
    fuel_count-nil car_fuel (refuel_fuels_for (some car_fuel)),
    car_count-nil cars,
  )

  price_count :
      (items : List Refuel)
      → drawn_count n f (car_lines parsing fuel_of items car_fuels)
        ≡ count (λ item. is_taken item.fuel (fuel_of item.car_id) && passes item) items
  price_count [] = car_count-nil car_fuels
  price_count (item ∷ items) =
      car_count car_fuels item items
      ∙ ap₂ ◌+◌ (pair_hits_lem item.fuel (passes item) (fuel_of item.car_id)) (price_count items)

  -- Of any kind, the chart of fuel prices has as many points as there are refuels of that kind whose
  -- car is known and takes their fuel, and whose date and price are finite numbers: none is drawn
  -- twice, and no other one is drawn.
  pub price_series_lem :
      (items : List Refuel)
      → count (λ o. f o.point) (ordered n (price_series parsing fuel_of items))
        ≡ count (λ item. is_taken item.fuel (fuel_of item.car_id) && passes item) items
  unfolding price_series
  price_series_lem items =
      (ordered_lem n (price_series parsing fuel_of items) f).1 ∙ price_count items
