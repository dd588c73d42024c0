-- ===== src/Charts/Bars.antt =====
-- frontend/src/components/stacked-bar-chart.tsx: the totals, what is said of a category, and the
-- column under the pointer; and the chart of a year's expenses that
-- frontend/src/routes/_authenticated/home.tsx draws with it.
pub mod Totals
use mathlib.Core.Option
use mathlib.Core.Option.{get_or}
use my_cars.Prelude.{
  ℕ, zero, suc, ◌-◌, List, [], ◌∷◌, ◌++◌, Option, none, some, Text, codes, map, get_elem?, length,
  min,
}
use my_cars.Prelude.Int.{ℤ, pos_part}
use my_cars.Money.Decimal.{sum_decimals}
use my_cars.Money.Monthly.{
  ExpenseKind, refuel, repair, ticket, ExpenseRow, LocalDates, ByKind, monthly_expenses,
}

-- What the totals and the texts read of a series.
pub record BarSeries : Type 0 where
  pub label : Text
  pub values : List Text

-- `s.values[i] ?? '0'`
abbrev pub value_at : ℕ → BarSeries → Text
value_at i s = get_or (get_elem? s.values i) (codes "0")

-- The total of a category, where it does not throw.
unfoldable pub total_at : List BarSeries → ℕ → Option Text
total_at series i = sum_decimals (map (value_at i) series)

-- `totals`, of the categories from one on.
unfoldable pub totals_from : List BarSeries → ℕ → ℕ → Option (List Text)
unfolding total_at Option.bind
totals_from series i zero = some []
totals_from series i (suc n) =
    Option.bind (total_at series i)
      λ total. Option.map (λ totals. total ∷ totals) (totals_from series (suc i) n)

unfoldable pub totals : List BarSeries → ℕ → Option (List Text)
unfolding totals_from
totals series categories = totals_from series 0 categories

-- `[…].join(', ')`
abbrev joined : List Text → Text
joined [] = []
joined (s ∷ []) = s
joined (s ∷ t ∷ ts) = s ++ (codes ", " ++ joined (t ∷ ts))

-- `describe(i)`, for a category, its total and the label of totals.
unfoldable pub describe : (Text → Text) → List BarSeries → ℕ → Text → Text → Text → Text
describe format_value series i category total_label total =
    category
    ++ (codes ": "
        ++ joined (
            map (λ s. s.label ++ (codes " " ++ format_value (value_at i s))) series
            ++ (total_label ++ (codes " " ++ format_value total)) ∷ []))

-- The column under the pointer, for `Math.floor((px / width) * categories.length)`.
unfoldable pub column : ℕ → ℤ → ℕ
column categories z = min (categories - 1) (pos_part z)

-- `expenseKinds`
abbrev pub expense_kinds : List ExpenseKind
expense_kinds = refuel ∷ repair ∷ ticket ∷ []

-- `month[kind]`
abbrev pub of_kind : ExpenseKind → ByKind Text → Text
of_kind refuel m = m.refuel
of_kind repair m = m.repair
of_kind ticket m = m.ticket

-- The series of the dashboard's chart.
abbrev pub expense_series : (ExpenseKind → Text) → List (ByKind Text) → List BarSeries
expense_series label months =
    map (λ kind. record { label = label kind; values = map (of_kind kind) months }) expense_kinds

-- The totals of the dashboard's chart, of the rows of a year.
unfoldable pub expense_totals :
    (ExpenseKind → Text) → LocalDates → List ExpenseRow → ℕ → Option (List Text)
unfolding totals Option.bind
expense_totals label dates items year =
    Option.bind (monthly_expenses dates items year)
      λ months. totals (expense_series label months) 12
