-- ===== src/Tables/Laws.antt =====
-- The rows and columns of the tables of frontend/src/refuels/refuel-table.tsx,
-- frontend/src/repairs/repair-table.tsx and frontend/src/tickets/ticket-table.tsx.
use my_cars.Prelude.{
  ℕ, ◌+◌, ◌≡◌, refl, inl, inr, ◌⊎◌, Bool, true, false, not, ◌||◌, List, [], ◌∷◌, map, All, length,
  Option, none, some, Text, if◌then◌else◌,
}
use my_cars.Locale.{Locale}
use my_cars.Dates.{DateRuntime}
use my_cars.Dates.Deregistration.{is_deregistered, is_car_muted}
use my_cars.Tables.Units.{Intl, DisplayUnits}
use my_cars.Tables.Data.{Car, Refuel, Repair, Ticket, CarBadge, deregistered, inactive, Span, Table}
use my_cars.Tables.Rows.{
  car_row_class, car_state_badge, refuel_row, repair_row, ticket_row, refuel_table, repair_table,
  ticket_table,
}

-- The columns that cells span.
abbrev pub width : List Span → ℕ
width [] = 0
width (s ∷ ss) = s.columns + width ss

-- Every row, and the footer if there is one, is as wide as the header.
abbrev pub IsRectangular : Table → Type 0
IsRectangular t =
    All (λ row. length row.cells ≡ length t.columns) t.rows
    × ((t.footer ≡ []) ⊎ (width t.footer ≡ length t.columns))

pub All-map :
    {A B : Type 0} (P : B → Type 0) (f : A → B)
    → ((a : A) → P (f a))
    → (xs : List A) → All P (map f xs)
All-map P f h [] = tt
All-map P f h (x ∷ xs) = (h x, All-map P f h xs)

badge_cases :
    (active gone : Bool) (badge : Option CarBadge)
    → badge ≡ (if gone then some deregistered else if active then none else some inactive)
    → (((not active || gone) ≡ false) × (badge ≡ none))
      ⊎ ((b : CarBadge) × ((not active || gone) ≡ true) × (badge ≡ some b))
badge_cases true true badge h = inr (deregistered, refl, h)
badge_cases true false badge h = inl (refl, h)
badge_cases false true badge h = inr (deregistered, refl, h)
badge_cases false false badge h = inr (inactive, refl, h)

-- A row is muted exactly if its car has a badge, which says that the car is deregistered if it is.
pub car_row_class-car_state_badge :
    {D : Type 0} (r : DateRuntime D) (today : D) (car : Option Car)
    → ((car_row_class r today car ≡ false) × (car_state_badge r today car ≡ none))
      ⊎ ((badge : CarBadge) × (car_row_class r today car ≡ true)
          × (car_state_badge r today car ≡ some badge))
unfolding car_row_class car_state_badge is_car_muted
car_row_class-car_state_badge r today none = inl (refl, refl)
car_row_class-car_state_badge r today (some car) =
    badge_cases car.state.is_active (is_deregistered r car.state today)
      (car_state_badge r today (some car)) refl

module _ {D N E : Type 0} (r : DateRuntime D) (today : D) (intl : Intl N E) (locale : Locale) where
  module _ (u : DisplayUnits) where
    refuel_table-IsRectangular :
        (cars : Option (Text → Option Car)) (car_fuel : Option Text) (chart items : List Refuel)
        → (total : Option N)
        → IsRectangular (refuel_table r today intl locale u cars car_fuel chart items total)
    unfolding refuel_table refuel_row
    refuel_table-IsRectangular none f chart items none = (All-map _ _ (λ a. refl) items, inl refl)
    refuel_table-IsRectangular none f chart items (some t) =
        (All-map _ _ (λ a. refl) items, inr refl)
    refuel_table-IsRectangular (some cars) f chart items none =
        (All-map _ _ (λ a. refl) items, inl refl)
    refuel_table-IsRectangular (some cars) f chart items (some t) =
        (All-map _ _ (λ a. refl) items, inr refl)

    repair_table-IsRectangular :
        (cars : Option (Text → Option Car)) (items : List Repair) (total : Option N)
        → IsRectangular (repair_table r today intl locale u cars items total)
    unfolding repair_table repair_row
    repair_table-IsRectangular none items none = (All-map _ _ (λ a. refl) items, inl refl)
    repair_table-IsRectangular none items (some t) = (All-map _ _ (λ a. refl) items, inr refl)
    repair_table-IsRectangular (some cars) items none = (All-map _ _ (λ a. refl) items, inl refl)
    repair_table-IsRectangular (some cars) items (some t) =
        (All-map _ _ (λ a. refl) items, inr refl)

    ticket_table-IsRectangular :
        (cars : Option (Text → Option Car)) (items : List Ticket) (total : Option N)
        → IsRectangular (ticket_table r today intl locale u cars items total)
    unfolding ticket_table ticket_row
    ticket_table-IsRectangular none items none = (All-map _ _ (λ a. refl) items, inl refl)
    ticket_table-IsRectangular none items (some t) = (All-map _ _ (λ a. refl) items, inr refl)
    ticket_table-IsRectangular (some cars) items none = (All-map _ _ (λ a. refl) items, inl refl)
    ticket_table-IsRectangular (some cars) items (some t) =
        (All-map _ _ (λ a. refl) items, inr refl)

    -- In the tables of refuels, repairs and tickets, with a column for cars or without: every row
    -- has as many cells as the header has columns, and the footer, if there is one, spans as many.
    pub tables-IsRectangular :
        (cars : Option (Text → Option Car)) (car_fuel : Option Text) (total : Option N)
        → (chart refuels : List Refuel) (repairs : List Repair) (tickets : List Ticket)
        → IsRectangular (refuel_table r today intl locale u cars car_fuel chart refuels total)
          × IsRectangular (repair_table r today intl locale u cars repairs total)
          × IsRectangular (ticket_table r today intl locale u cars tickets total)
    tables-IsRectangular cars car_fuel total chart refuels repairs tickets = (
      refuel_table-IsRectangular cars car_fuel chart refuels total,
      repair_table-IsRectangular cars repairs total,
      ticket_table-IsRectangular cars tickets total,
    )
