-- ===== src/Tables/Overviews/Laws.antt =====
-- The rows of the table of frontend/src/routes/_authenticated/cars/index.tsx.
use my_cars.Prelude.{◌≡◌, refl, ◌⊎◌, true, false, All, List, length, get_elem?, Option, none, some}
use my_cars.Locale.{Locale}
use my_cars.Dates.{DateRuntime}
use my_cars.Tables.Units.{Intl, DisplayUnits}
use my_cars.Tables.Data.{CarBadge, car_link}
use my_cars.Tables.Rows.{car_row_class}
use my_cars.Tables.Laws.{car_row_class-car_state_badge, All-map}
use my_cars.Tables.Overviews.{CarItem, car_row, car_table}

module _ {D N E : Type 0} (r : DateRuntime D) (today : D) (intl : Intl N E) (locale : Locale) where
  module _ (u : DisplayUnits) where
    -- A row of the table of cars is muted exactly if the link to its car has a badge beside it.
    pub car_row-car_state_badge :
        (item : CarItem)
        → (badge : Option CarBadge) × (get_elem? (car_row r today intl locale u item).cells 2
            ≡ some (car_link item.id (some item.car.name) badge))
          × ((((car_row r today intl locale u item).muted ≡ false) × (badge ≡ none))
              ⊎ ((b : CarBadge) × ((car_row r today intl locale u item).muted ≡ true)
                  × (badge ≡ some b)))
    unfolding car_row car_row_class
    car_row-car_state_badge item = (_, refl, car_row_class-car_state_badge r today (some item.car))

    -- Every row of the table of cars has as many cells as the header has columns.
    pub length-car_row :
        (items : List CarItem)
        → All
            (λ row. length row.cells ≡ length (car_table r today intl locale u items).columns)
            (car_table r today intl locale u items).rows
    unfolding car_table car_row
    length-car_row items = All-map _ _ (λ item. refl) items
