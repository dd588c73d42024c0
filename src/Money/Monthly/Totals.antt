-- ===== src/Money/Monthly/Totals.antt =====
-- The sums of frontend/src/dashboard/monthly-expenses.ts.
use mathlib.Core.Option
use mathlib.Core.Option.{some-injective}
use mathlib.Core.Path.{subst}
use my_cars.Prelude.{
  ℕ, zero, suc, ◌==◌, ◌≡◌, refl, sym, ap, ◌∙◌, Bool, true, false, not, List, [], ◌∷◌, map, keep,
  any, all, All, get_elem?, replicate, Option, none, some, Text, Bool-cases, Option-cases, inl, inr,
  ◌<◌, arith, and_iff,
}
use my_cars.Money.Decimal.{parse, sum_decimals}
use my_cars.Money.Decimal.Sum.{unparsed, sum_decimals-none_iff}
use my_cars.Money.Monthly.{
  ExpenseKind, refuel, repair, ticket, ExpenseRow, LocalDates, ByKind, no_amounts, group_dated,
  group_rows, sum_month, sum_months, monthly_expenses,
}
use my_cars.Money.Monthly.Laws.{amounts_of, month_amounts, get_elem?-push_at, get_elem?-group_rows}

-- Whether a row's amount is a decimal.
abbrev pub has_amount : ExpenseRow → Bool
has_amount item = not (unparsed (parse item.amount))

pub amounts_parse :
    (p : ExpenseRow → Bool) (items : List ExpenseRow)
    → all has_amount items ≡ true
    → any (λ v. unparsed (parse v)) (map (λ (item : ExpenseRow). item.amount) (keep p items))
      ≡ false
amounts_parse p [] h = refl
amounts_parse p (item ∷ items) h =
    let (good, rest) = (and_iff (has_amount item) (all has_amount items)).0 h in
    let ih = amounts_parse p items rest in
    elim (Bool-cases (p item)) [ inl e ↦ rw e (ground (arith, good, ih)) | inr e ↦ rw e ih ]

pub sum_exists :
    (vs : List Text)
    → any (λ v. unparsed (parse v)) vs ≡ false
    → (t : Text) × (sum_decimals vs ≡ some t)
sum_exists vs h = elim (Option-cases (sum_decimals vs)) [
  | inl e ↦ absurd (ground (arith, (sum_decimals-none_iff vs).0 e))
  | inr s ↦ s
]

-- A month whose sums do not throw.
abbrev Summed : ByKind (List Text) → Type 0
Summed m = (t : ByKind Text) × (sum_month m ≡ some t)

module _ (dates : LocalDates) (year i : ℕ) (items : List ExpenseRow)
    (h : all has_amount items ≡ true) where
  pub kind_sum :
      (kind : ExpenseKind)
      → (t : Text) × (sum_decimals (amounts_of dates year i kind items) ≡ some t)
  kind_sum kind = sum_exists (amounts_of dates year i kind items) (amounts_parse _ items h)

  month_amounts-Summed : Summed (month_amounts dates year i items)
  unfolding sum_month Option.bind
  month_amounts-Summed =
      let (a, ea) = kind_sum refuel in
      let (b, eb) = kind_sum repair in
      let (c, ec) = kind_sum ticket in
      (record { refuel = a; repair = b; ticket = c }, rw (ea, eb, ec) refl)

get_elem?-All :
    {P : ByKind (List Text) → Type 0} (ms : List (ByKind (List Text)))
    → ((i : ℕ) (m : ByKind (List Text)) → get_elem? ms i ≡ some m → P m)
    → All P ms
get_elem?-All [] h = tt
get_elem?-All (m ∷ ms) h = (h 0 m refl, get_elem?-All ms (λ i. h (suc i)))

-- The months' sums, by position.
abbrev SumsOf : List (ByKind (List Text)) → List (ByKind Text) → Type 0
SumsOf ms ts =
    (i : ℕ) (m : ByKind (List Text)) → get_elem? ms i ≡ some m → get_elem? ts i ≡ sum_month m

SumsOf-cons :
    (m : ByKind (List Text)) (t : ByKind Text) (ms : List (ByKind (List Text)))
    (ts : List (ByKind Text))
    → sum_month m ≡ some t
    → SumsOf ms ts
    → SumsOf (m ∷ ms) (t ∷ ts)
SumsOf-cons m t ms ts e rest zero m' at = sym e ∙ ap sum_month (some-injective _ _ at)
SumsOf-cons m t ms ts e rest (suc i) m' at = rest i m' at

sum_months-total :
    (ms : List (ByKind (List Text)))
    → All Summed ms
    → (ts : List (ByKind Text)) × (sum_months ms ≡ some ts) × SumsOf ms ts
unfolding sum_months Option.bind
sum_months-total [] h = ([], refl, λ i m e. cc)
sum_months-total (m ∷ ms) ((t, e), h) =
    let (ts, es, at) = sum_months-total ms h in
    (t ∷ ts, rw (e, es) refl, SumsOf-cons m t ms ts e at)

group_dated-none :
    (year i : ℕ) (item : ExpenseRow) (dated : Option (ℕ × ℕ)) (ms : List (ByKind (List Text)))
    → get_elem? ms i ≡ none
    → get_elem? (group_dated year item dated ms) i ≡ none
group_dated-none year i item none ms h = h
group_dated-none year i item (some (y, month)) ms h = elim (Bool-cases (y == year)) [
  | inl e ↦ rw (e, get_elem?-push_at i month item.kind item.amount ms, h) refl
  | inr e ↦ rw (e, h)
]

group_rows-none :
    (dates : LocalDates) (year i : ℕ) (items : List ExpenseRow) (ms : List (ByKind (List Text)))
    → get_elem? ms i ≡ none
    → get_elem? (group_rows dates year items ms) i ≡ none
unfolding group_rows
group_rows-none dates year i [] ms h = h
group_rows-none dates year i (item ∷ items) ms h =
    let dated = dates.year_month item.date in
    group_rows-none dates year i items (group_dated year item dated ms)
      (group_dated-none year i item dated ms h)

get_elem?-replicate :
    (n i : ℕ) (a m : ByKind (List Text)) → get_elem? (replicate n a) i ≡ some m → m ≡ a
get_elem?-replicate zero i a m h = cc
get_elem?-replicate (suc n) zero a m h = sym (some-injective _ _ h)
get_elem?-replicate (suc n) (suc i) a m h = get_elem?-replicate n i a m h

get_elem?-months : (n i : ℕ) (a : ByKind (List Text)) → i < n → get_elem? (replicate n a) i ≡ some a
get_elem?-months zero i a h = absurd (omega arith)
get_elem?-months (suc n) zero a h = refl
get_elem?-months (suc n) (suc i) a h = get_elem?-months n i a (omega arith)

module _ (dates : LocalDates) (year : ℕ) (items : List ExpenseRow) where
  abbrev grouped : List (ByKind (List Text))
  grouped = group_rows dates year items (replicate 12 no_amounts)

  grouped-month : (i : ℕ) → i < 12 → get_elem? grouped i ≡ some (month_amounts dates year i items)
  grouped-month i h =
      get_elem?-group_rows dates year i items (replicate 12 no_amounts) no_amounts
        (get_elem?-months 12 i no_amounts h)

  grouped-Summed :
      all has_amount items ≡ true
      → (i : ℕ) (m : ByKind (List Text)) → get_elem? grouped i ≡ some m
      → Summed m
  grouped-Summed h i m e = elim (Option-cases (get_elem? (replicate 12 no_amounts) i)) [
    | inl past ↦
        let gone = group_rows-none dates year i items (replicate 12 no_amounts) past in
        absurd (ground (arith, gone, e))
    | inr (a, at) ↦
        let same =
          get_elem?-group_rows dates year i items (replicate 12 no_amounts) no_amounts
            (at ∙ ap some (get_elem?-replicate 12 i no_amounts a at)) in
        subst Summed (some-injective _ _ (sym same ∙ e)) (month_amounts-Summed dates year i items h)
  ]

-- If every row's amount is a decimal, the expenses of a year are computed, and in each of the twelve
-- months the sum of a kind is the sum of the amounts of the rows of that kind in that month of the
-- year, in the order of the rows.
pub monthly_expenses_lem :
    (dates : LocalDates) (year i : ℕ) (items : List ExpenseRow)
    → all has_amount items ≡ true
    → i < 12
    → (totals : List (ByKind Text)) × (monthly_expenses dates items year ≡ some totals)
      × (month : ByKind Text) × (get_elem? totals i ≡ some month)
      × (sum_decimals (amounts_of dates year i refuel items) ≡ some month.refuel)
      × (sum_decimals (amounts_of dates year i repair items) ≡ some month.repair)
      × (sum_decimals (amounts_of dates year i ticket items) ≡ some month.ticket)
unfolding monthly_expenses sum_month Option.bind
monthly_expenses_lem dates year i items h k =
    let (ts, e, at) =
      sum_months-total (grouped dates year items)
        (get_elem?-All (grouped dates year items) (grouped-Summed dates year items h)) in
    let (a, ea) = kind_sum dates year i items h refuel in
    let (b, eb) = kind_sum dates year i items h repair in
    let (c, ec) = kind_sum dates year i items h ticket in
    (
      ts,
      e,
      record { refuel = a; repair = b; ticket = c },
      at i (month_amounts dates year i items) (grouped-month dates year items i k)
          ∙ rw (ea, eb, ec) refl,
      ea,
      eb,
      ec,
    )
