-- ===== src/Tests/Money.antt =====
-- Amounts with different numbers of digits behind the point.
use my_cars.Prelude.{
  ◌≡◌, refl, ◌↔◌, true, false, List, [], ◌∷◌, some, Text, codes, length, get_elem?, all, arith,
}
use my_cars.Prelude.Int.{◌+ℤ◌, ◌-ℤ◌}
use my_cars.Prelude.Digits.{show, read_digits}
use my_cars.Money.Decimal.{Parsed, parse, parse_all, scale_of, units, sum_decimals}
use my_cars.Money.Decimal.Parse.{IsDecimal, print, parse_iff}
use my_cars.Money.Decimal.Sum.{value, exact_sum, sum_decimals_exact}
use my_cars.Money.Monthly.Totals.{has_amount, monthly_expenses_lem}
use my_cars.Money.Monthly.{
  ExpenseKind, ByKind, monthly_expenses, ExpenseRow, refuel, repair, ticket, LocalDates,
}
use my_cars.Money.Monthly.Laws.{amounts_of}
use my_cars.Money.Decimal.Groups.{concat, SumsTo, sum_of_sums}
use my_cars.Charts.Bars.{expense_totals}
use my_cars.Charts.Bars.Totals.{amounts_in, expense_totals_lem}

abbrev three_amounts : List Text
three_amounts = codes "19.99" ∷ codes "-5" ∷ codes "0.125" ∷ []

abbrev three_parsed : List Parsed
three_parsed =
    record { negative = false; whole = codes "19"; fraction = codes "99" }
    ∷ record { negative = true; whole = codes "5"; fraction = [] }
    ∷ record { negative = false; whole = codes "0"; fraction = codes "125" }
    ∷ []

three_parse : parse_all three_amounts ≡ some three_parsed
unfolding parse_all parse
three_parse = refl

sum_decimals_exact_example :
    (out : Text) × (q : Parsed) × (sum_decimals three_amounts ≡ some out)
    × (parse out ≡ some q)
    × (length q.fraction ≡ scale_of three_parsed)
    × (value (scale_of three_parsed) q ≡ exact_sum (scale_of three_parsed) three_parsed)
sum_decimals_exact_example = sum_decimals_exact three_amounts three_parsed three_parse

abbrev half : Parsed
half = record { negative = true; whole = codes "0"; fraction = codes "5" }

parse_iff_example :
    (parse (codes "-0.5") ≡ some half) ↔ (IsDecimal half × (codes "-0.5" ≡ print half))
parse_iff_example = parse_iff (codes "-0.5") half

abbrev may : LocalDates
may = record { year_month = λ t. some (2024, 4) }

abbrev two_rows : List ExpenseRow
two_rows =
    record { kind = ticket; date = codes "2024-05-02"; amount = codes "35" }
    ∷ record { kind = refuel; date = codes "2024-05-09"; amount = codes "61.20" }
    ∷ []

two_amounts : all has_amount two_rows ≡ true
unfolding parse
two_amounts = refl

monthly_expenses_lem_example :
    (totals : List (ByKind Text)) × (monthly_expenses may two_rows 2024 ≡ some totals)
    × (month : ByKind Text) × (get_elem? totals 4 ≡ some month)
    × (sum_decimals (amounts_of may 2024 4 refuel two_rows) ≡ some month.refuel)
    × (sum_decimals (amounts_of may 2024 4 repair two_rows) ≡ some month.repair)
    × (sum_decimals (amounts_of may 2024 4 ticket two_rows) ≡ some month.ticket)
monthly_expenses_lem_example = monthly_expenses_lem may 2024 4 two_rows two_amounts (omega arith)

abbrev two_groups : List (List Text)
two_groups = (codes "19.99" ∷ codes "-5" ∷ []) ∷ (codes "0.125" ∷ []) ∷ []

abbrev two_sums : List Text
two_sums = codes "14.99" ∷ codes "0.125" ∷ []

two_groups-SumsTo : SumsTo two_groups two_sums
unfolding sum_decimals parse units show read_digits ◌+ℤ◌ ◌-ℤ◌
two_groups-SumsTo = ((refl, (refl, tt)), refl, ((refl, tt), refl, tt))

sum_of_sums_example : sum_decimals two_sums ≡ sum_decimals (concat two_groups)
sum_of_sums_example = sum_of_sums two_groups two_sums two_groups-SumsTo

abbrev no_label : ExpenseKind → Text
no_label kind = []

expense_totals_lem_example :
    (ts : List Text) × (total : Text) × (expense_totals no_label may two_rows 2024 ≡ some ts)
    × (get_elem? ts 4 ≡ some total)
    × (sum_decimals (amounts_in may 2024 4 two_rows) ≡ some total)
expense_totals_lem_example =
    expense_totals_lem no_label may 2024 two_rows two_amounts 4 (omega arith)
