-- ===== src/Money/Monthly/Laws.antt =====
-- The loop of frontend/src/dashboard/monthly-expenses.ts against a filter by month and kind.
use my_cars.Prelude.{
  ℕ, zero, suc, ◌==◌, ◌≡◌, refl, sym, ap, ◌∙◌, Bool, true, false, ◌&&◌, List, [], ◌∷◌, ◌++◌,
  append_assoc, append-nil, map, keep, Option, none, some, Text, get_elem?, Bool-cases, inl, inr,
  ◌⊎◌, arith, if◌then◌else◌,
}
use mathlib.Core.Option
use my_cars.Money.Monthly.{
  ExpenseKind, refuel, repair, ticket, ExpenseRow, LocalDates, ByKind, no_amounts, push_kind,
  push_at, group_dated, group_rows,
}

abbrev pub same_kind : ExpenseKind → ExpenseKind → Bool
same_kind refuel refuel = true
same_kind repair repair = true
same_kind ticket ticket = true
same_kind _ _ = false

abbrev pub falls_in : ℕ → ℕ → Option (ℕ × ℕ) → Bool
falls_in year month none = false
falls_in year month (some (y, m)) = y == year && m == month

-- The amounts of the rows of one kind in a month of the year, in the order of the rows.
abbrev pub amounts_of : LocalDates → ℕ → ℕ → ExpenseKind → List ExpenseRow → List Text
amounts_of dates year month kind items =
    map (λ item. item.amount)
      (keep (λ item. falls_in year month (dates.year_month item.date) && same_kind item.kind kind)
        items)

abbrev pub month_amounts : LocalDates → ℕ → ℕ → List ExpenseRow → ByKind (List Text)
month_amounts dates year month items = record {
  refuel = amounts_of dates year month refuel items;
  repair = amounts_of dates year month repair items;
  ticket = amounts_of dates year month ticket items;
}

abbrev pub join : ByKind (List Text) → ByKind (List Text) → ByKind (List Text)
join a b = record {
  refuel = a.refuel ++ b.refuel;
  repair = a.repair ++ b.repair;
  ticket = a.ticket ++ b.ticket;
}

-- One row's share of a month.
abbrev share : ℕ → ℕ → ExpenseRow → Option (ℕ × ℕ) → ByKind (List Text)
share year month item dated =
    if falls_in year month dated then push_kind item.kind item.amount no_amounts else no_amounts

pub map_some : {A : Type 0} (o : Option A) → Option.map (λ a. a) o ≡ o
map_some none = refl
map_some (some a) = refl

pub get_elem?-push_at :
    (i month : ℕ) (kind : ExpenseKind) (amount : Text) (ms : List (ByKind (List Text)))
    → get_elem? (push_at month kind amount ms) i
      ≡ Option.map (λ m. if month == i then push_kind kind amount m else m) (get_elem? ms i)
get_elem?-push_at i month kind amount [] = refl
get_elem?-push_at zero zero kind amount (m ∷ ms) = refl
get_elem?-push_at (suc i) zero kind amount (m ∷ ms) =
    let other : (0 == suc i) ≡ false = ground arith in rw other (sym (map_some (get_elem? ms i)))
get_elem?-push_at zero (suc month) kind amount (m ∷ ms) =
    let other : (suc month == 0) ≡ false = ground arith in rw other refl
get_elem?-push_at (suc i) (suc month) kind amount (m ∷ ms) =
    let same : (suc month == suc i) ≡ (month == i) = ground arith in
    rw same (get_elem?-push_at i month kind amount ms)

pub Kind-cases : (k : ExpenseKind) → (k ≡ refuel) ⊎ ((k ≡ repair) ⊎ (k ≡ ticket))
Kind-cases refuel = inl refl
Kind-cases repair = inr (inl refl)
Kind-cases ticket = inr (inr refl)

join_assoc : (a b c : ByKind (List Text)) → join (join a b) c ≡ join a (join b c)
join_assoc a b c = rw (
  append_assoc a.refuel b.refuel c.refuel,
  append_assoc a.repair b.repair c.repair,
  append_assoc a.ticket b.ticket c.ticket,
)

join-none : (m : ByKind (List Text)) → join m no_amounts ≡ m
join-none m = rw (append-nil m.refuel, append-nil m.repair, append-nil m.ticket)

push_kind-join :
    (k : ExpenseKind) (a : Text) (m : ByKind (List Text))
    → push_kind k a m ≡ join m (push_kind k a no_amounts)
push_kind-join refuel a m = rw (append-nil m.repair, append-nil m.ticket)
push_kind-join repair a m = rw (append-nil m.refuel, append-nil m.ticket)
push_kind-join ticket a m = rw (append-nil m.refuel, append-nil m.repair)

module _ (dates : LocalDates) (year : ℕ) where
  group_dated-share :
      (i : ℕ) (item : ExpenseRow) (dated : Option (ℕ × ℕ)) (ms : List (ByKind (List Text)))
      (m : ByKind (List Text))
      → get_elem? ms i ≡ some m
      → get_elem? (group_dated year item dated ms) i ≡ some (join m (share year i item dated))
  group_dated-share i item none ms m h = rw (join-none m, h)
  group_dated-share i item (some (y, month)) ms m h = elim (Bool-cases (y == year)) [
    | inr e ↦ rw (e, join-none m, h)
    | inl e ↦ elim (Bool-cases (month == i)) [
      | inl k ↦
          rw (e, get_elem?-push_at i month item.kind item.amount ms, h, k)
            (ap some (push_kind-join item.kind item.amount m))
      | inr k ↦
          rw (e, get_elem?-push_at i month item.kind item.amount ms, h, k)
            (ap some (sym (join-none m)))
    ]
  ]

  month_amounts-cons :
      (i : ℕ) (item : ExpenseRow) (items : List ExpenseRow)
      → month_amounts dates year i (item ∷ items)
        ≡ join (share year i item (dates.year_month item.date)) (month_amounts dates year i items)
  month_amounts-cons i item items =
      elim (Bool-cases (falls_in year i (dates.year_month item.date))) [
        | inr e ↦ rw e refl
        | inl e ↦ elim (Kind-cases item.kind) [
          | inl k ↦ rw (e, k) refl
          | inr (inl k) ↦ rw (e, k) refl
          | inr (inr k) ↦ rw (e, k) refl
        ]
      ]

  -- Grouping rows adds to each month that there is the amounts that a filter by year, month and
  -- kind picks, in the order of the rows.
  pub get_elem?-group_rows :
      (i : ℕ) (items : List ExpenseRow) (ms : List (ByKind (List Text))) (m : ByKind (List Text))
      → get_elem? ms i ≡ some m
      → get_elem? (group_rows dates year items ms) i
        ≡ some (join m (month_amounts dates year i items))
  unfolding group_rows
  get_elem?-group_rows i [] ms m h = rw (join-none m, h)
  get_elem?-group_rows i (item ∷ items) ms m h =
      let dated = dates.year_month item.date in
      get_elem?-group_rows i items (group_dated year item dated ms)
        (join m (share year i item dated)) (group_dated-share i item dated ms m h)
      ∙ ap some (
          join_assoc m (share year i item dated) (month_amounts dates year i items)
          ∙ ap (join m) (sym (month_amounts-cons i item items)))
