-- ===== src/Charts/Bars/Totals.antt =====
-- The totals of the dashboard's chart against the rows of the year.
use mathlib.Core.Option
use mathlib.Core.Option.{some-injective, get_or}
use my_cars.Prelude.{
  ℕ, zero, suc, Bool, ◌&&◌, ◌+◌, ◌<◌, ◌≡◌, refl, sym, ap, ◌∙◌, true, List, [], ◌∷◌, map, keep, all,
  some, Text, get_elem?, arith,
}
use my_cars.Money.Decimal.{sum_decimals}
use my_cars.Money.Decimal.Nested.{AreDecimals}
use my_cars.Money.Monthly.{
  ExpenseKind, refuel, repair, ticket, ExpenseRow, LocalDates, ByKind, monthly_expenses,
}
use my_cars.Money.Monthly.Laws.{amounts_of, falls_in, same_kind}
use my_cars.Money.Monthly.Totals.{has_amount, monthly_expenses_lem, amounts_parse, sum_exists}
use my_cars.Money.Monthly.Kinds.{picked_kind, none_unparsed, sum_of_kinds}
use my_cars.Charts.Bars.{
  BarSeries, total_at, totals_from, totals, of_kind, expense_series, expense_totals,
}

-- The amounts of a month's rows, in their order.
abbrev pub amounts_in : LocalDates → ℕ → ℕ → List ExpenseRow → List Text
amounts_in dates year month items =
    map (λ item. item.amount)
      (keep (λ item. falls_in year month (dates.year_month item.date)) items)

get_elem?-map :
    {A B : Type 0} (f : A → B) (xs : List A) (i : ℕ)
    → get_elem? (map f xs) i ≡ Option.map f (get_elem? xs i)
get_elem?-map f [] i = refl
get_elem?-map f (x ∷ xs) zero = refl
get_elem?-map f (x ∷ xs) (suc i) = get_elem?-map f xs i

first_or_later :
    (series : List BarSeries) (i n : ℕ) (t : Text) (ts : List Text)
    → total_at series i ≡ some t
    → ((k : ℕ) → k < n → get_elem? ts k ≡ total_at series (suc i + k))
    → (k : ℕ) → k < suc n
    → get_elem? (t ∷ ts) k ≡ total_at series (i + k)
first_or_later series i n t ts e at zero below =
    let same : i + 0 ≡ i = omega arith in rw same (sym e)
first_or_later series i n t ts e at (suc k) below =
    let same : i + suc k ≡ suc i + k = omega arith in rw same (at k (omega arith))

-- Totals that exist are listed in order.
totals_from-all :
    (series : List BarSeries) (i n : ℕ)
    → ((j : ℕ) → j < i + n → (t : Text) × (total_at series j ≡ some t))
    → (ts : List Text) × (totals_from series i n ≡ some ts)
      × ((k : ℕ) → k < n → get_elem? ts k ≡ total_at series (i + k))
unfolding totals_from Option.bind
totals_from-all series i zero h = ([], refl, λ k below. absurd (omega arith))
totals_from-all series i (suc n) h =
    let (t, e) = h i (omega arith) in
    let (ts, es, at) = totals_from-all series (suc i) n (λ j below. h j (omega arith)) in
    (t ∷ ts, rw (e, es) refl, first_or_later series i n t ts e at)

module _ (label : ExpenseKind → Text) (dates : LocalDates) (year : ℕ) (items : List ExpenseRow)
    (h : all has_amount items ≡ true) where
  -- The months' sums, all of them in one list.
  months_at :
      (months : List (ByKind Text)) (j : ℕ)
      → monthly_expenses dates items year ≡ some months
      → j < 12
      → (month : ByKind Text) × (get_elem? months j ≡ some month)
        × (sum_decimals (amounts_of dates year j refuel items) ≡ some month.refuel)
        × (sum_decimals (amounts_of dates year j repair items) ≡ some month.repair)
        × (sum_decimals (amounts_of dates year j ticket items) ≡ some month.ticket)
  months_at months j e below =
      let (ts, e', month, at, a, b, c) = monthly_expenses_lem dates year j items h below in
      (month, ap (λ ms. get_elem? ms j) (some-injective _ _ (sym e ∙ e')) ∙ at, a, b, c)

  -- Whether a row falls in the month.
  abbrev in_month : ℕ → ExpenseRow → Bool
  in_month j item = falls_in year j (dates.year_month item.date)

  kind_decimals : (j : ℕ) (kind : ExpenseKind) → AreDecimals (picked_kind (in_month j) kind items)
  kind_decimals j kind =
      none_unparsed (picked_kind (in_month j) kind items)
        (amounts_parse (λ item. in_month j item && same_kind item.kind kind) items h)

  month_total :
      (months : List (ByKind Text)) (j : ℕ)
      → monthly_expenses dates items year ≡ some months
      → j < 12
      → (t : Text) × (total_at (expense_series label months) j ≡ some t)
        × (sum_decimals (amounts_in dates year j items) ≡ some t)
  unfolding total_at
  month_total months j e below =
      let (of_month, month, ea, eb, ec) = months_at months j e below in
      let (t, et) =
        sum_exists (amounts_in dates year j items) (amounts_parse (in_month j) items h) in
      let sums =
        sum_of_kinds (in_month j) items (of_month.refuel ∷ of_month.repair ∷ of_month.ticket ∷ []) h
          (
            kind_decimals j refuel,
            ea,
            (kind_decimals j repair, eb, (kind_decimals j ticket, ec, tt)),
          ) in
      (
        t,
        rw
            (
              get_elem?-map (of_kind refuel) months j,
              get_elem?-map (of_kind repair) months j,
              get_elem?-map (of_kind ticket) months j,
              month,
            )
            (sums ∙ et),
        et,
      )

  -- If every row's amount is a decimal, the chart of a year's expenses has a total for each of the
  -- twelve months: the sum, as a text, of the amounts of the month's rows of every kind, in the
  -- order of the rows.
  pub expense_totals_lem :
      (i : ℕ)
      → i < 12
      → (ts : List Text) × (total : Text) × (expense_totals label dates items year ≡ some ts)
        × (get_elem? ts i ≡ some total)
        × (sum_decimals (amounts_in dates year i items) ≡ some total)
  unfolding expense_totals totals Option.bind
  expense_totals_lem i below =
      let (months, e, _, _, _, _, _) = monthly_expenses_lem dates year i items h below in
      let series = expense_series label months in
      let (ts, es, at) =
        totals_from-all series 0 12
          (λ j b. let (t, et, es) = month_total months j e (omega arith) in (t, et)) in
      let (total, et, sum) = month_total months i e below in
      (
        ts,
        total,
        rw (e, es) refl,
        at i below ∙ (let same : 0 + i ≡ i = omega arith in rw same et),
        sum,
      )
