-- ===== src/Forms/Refuel/Laws.antt =====
-- The car and the fuel of frontend/src/refuels/refuel-form.tsx.
use my_cars.Prelude.{
  ◌≡◌, refl, ◌⊎◌, true, false, List, Option, Text, any, text_eq, Bool-cases, inl, inr,
}
use my_cars.Client.Enums.{refuel_fuels_for, default_refuel_fuel, is_electric}
use my_cars.Forms.Refuel.{RefuelForm, FormCar, car_fuel, change_car}

default-allowed :
    (car : Option Text) → any (text_eq (default_refuel_fuel car)) (refuel_fuels_for car) ≡ true
unfolding default_refuel_fuel refuel_fuels_for
default-allowed car = elim (Bool-cases (is_electric car)) [ inl e ↦ rw e refl | inr e ↦ rw e refl ]

-- After a car was chosen, the form holds that car and a fuel that the car takes; the fuel is the
-- one from before, unless the car does not take that one.
pub change_car_lem :
    (cars : List FormCar) (id : Text) (f : RefuelForm)
    → ((change_car cars id f).values.car_id ≡ id)
      × (any (text_eq (change_car cars id f).values.fuel) (refuel_fuels_for (car_fuel id cars))
          ≡ true)
      × (((change_car cars id f).values.fuel ≡ f.values.fuel)
          ⊎ (any (text_eq f.values.fuel) (refuel_fuels_for (car_fuel id cars)) ≡ false))
unfolding change_car
change_car_lem cars id f =
    elim (Bool-cases (any (text_eq f.values.fuel) (refuel_fuels_for (car_fuel id cars)))) [
      | inl e ↦ (refl, rw e e, inl (rw e refl))
      | inr e ↦ (refl, rw e (default-allowed (car_fuel id cars)), inr e)
    ]
