-- ===== src/Money/Monthly.antt =====
-- frontend/src/dashboard/monthly-expenses.ts: a year's expenses by local month and kind. The local
-- year and month of an instant are the Date's, and a parameter.
pub mod Laws
pub mod Totals
pub mod Kinds
use mathlib.Core.Option
use my_cars.Prelude.{
  ℕ, zero, suc, ◌==◌, Bool, true, false, not, ◌&&◌, List, [], ◌∷◌, ◌++◌, Option, none, some, Text,
  replicate, if◌then◌else◌,
}
use my_cars.Money.Decimal.{sum_decimals}

pub data ExpenseKind : Type 0 where
  refuel repair ticket : ExpenseKind

-- What the grouping reads of an expense row.
pub record ExpenseRow : Type 0 where
  pub kind : ExpenseKind
  pub date : Text
  pub amount : Text

-- `getFullYear()` and `getMonth()` of `new Date(text)`; none where they are NaN.
pub record LocalDates : Type 0 where
  pub year_month : Text → Option (ℕ × ℕ)

-- One entry for each kind: the amounts of a month, and their sums.
pub record ByKind {ℓ} (A : Type ℓ) : Type ℓ where
  pub refuel : A
  pub repair : A
  pub ticket : A

abbrev pub no_amounts : ByKind (List Text)
no_amounts = record { refuel = []; repair = []; ticket = [] }

-- `month[kind].push(amount)`
abbrev pub push_kind : ExpenseKind → Text → ByKind (List Text) → ByKind (List Text)
push_kind ExpenseKind.refuel amount m = record m { refuel = m.refuel ++ (amount ∷ []) }
push_kind ExpenseKind.repair amount m = record m { repair = m.repair ++ (amount ∷ []) }
push_kind ExpenseKind.ticket amount m = record m { ticket = m.ticket ++ (amount ∷ []) }

-- `amounts[month][kind].push(amount)`
abbrev pub push_at : ℕ → ExpenseKind → Text → List (ByKind (List Text)) → List (ByKind (List Text))
push_at month kind amount [] = []
push_at zero kind amount (m ∷ ms) = push_kind kind amount m ∷ ms
push_at (suc month) kind amount (m ∷ ms) = m ∷ push_at month kind amount ms

-- The body of the loop, for an item's year and month.
abbrev pub group_dated :
    ℕ → ExpenseRow → Option (ℕ × ℕ) → List (ByKind (List Text)) → List (ByKind (List Text))
group_dated year item none amounts = amounts
group_dated year item (some (y, month)) amounts =
    if not (y == year) then amounts else push_at month item.kind item.amount amounts

unfoldable pub sum_month : ByKind (List Text) → Option (ByKind Text)
unfolding Option.bind
sum_month m = Option.bind (sum_decimals m.refuel) λ refuels.
    Option.bind (sum_decimals m.repair) λ repairs.
      Option.map (λ tickets. record { refuel = refuels; repair = repairs; ticket = tickets })
        (sum_decimals m.ticket)

-- `amounts.map(…)`, which throws where a sum does.
unfoldable pub sum_months : List (ByKind (List Text)) → Option (List (ByKind Text))
unfolding sum_month Option.bind
sum_months [] = some []
sum_months (m ∷ ms) =
    Option.bind (sum_month m) λ total. Option.map (λ totals. total ∷ totals) (sum_months ms)

module _ (dates : LocalDates) where
  -- The loop over the rows.
  unfoldable pub group_rows :
      ℕ → List ExpenseRow → List (ByKind (List Text)) → List (ByKind (List Text))
  group_rows year [] amounts = amounts
  group_rows year (item ∷ items) amounts =
      group_rows year items (group_dated year item (dates.year_month item.date) amounts)

  unfoldable pub monthly_expenses : List ExpenseRow → ℕ → Option (List (ByKind Text))
  unfolding group_rows sum_months
  monthly_expenses items year = sum_months (group_rows year items (replicate 12 no_amounts))
