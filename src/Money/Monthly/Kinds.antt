-- ===== src/Money/Monthly/Kinds.antt =====
-- A month's amounts, taken by kind or together.
use my_cars.Prelude.{
  ℕ, ◌≡◌, refl, ◌∙◌, inl, inr, Bool, true, false, ◌&&◌, List, [], ◌∷◌, ◌++◌, map, keep, any, all,
  Text, max, arith, Bool-cases,
}
use my_cars.Prelude.Int.{◌+ℤ◌, int_laws}
use my_cars.Money.Decimal.{parse, sum_decimals}
use my_cars.Money.Decimal.Sum.{unparsed}
use my_cars.Money.Decimal.Nested.{AreDecimals, text_sum, text_scale}
use my_cars.Money.Decimal.Groups.{
  text_scale-append, text_sum-append, same_sums, sum_of_sums, concat, concat-AreDecimals, SumsTo,
}
use my_cars.Money.Monthly.{ExpenseKind, refuel, repair, ticket, ExpenseRow}
use my_cars.Money.Monthly.Laws.{same_kind, Kind-cases}
use my_cars.Money.Monthly.Totals.{has_amount, amounts_parse}

no_scale : text_scale [] ≡ 0
unfolding text_scale
no_scale = refl

pub none_unparsed : (vs : List Text) → any (λ v. unparsed (parse v)) vs ≡ false → AreDecimals vs
none_unparsed [] h = tt
none_unparsed (v ∷ vs) h = (ground arith, none_unparsed vs (ground arith))

-- The amounts of the rows that pass a test, and those of them of one kind.
module _ (p : ExpenseRow → Bool) where
  abbrev pub picked : List ExpenseRow → List Text
  picked items = map (λ item. item.amount) (keep p items)

  abbrev pub picked_kind : ExpenseKind → List ExpenseRow → List Text
  picked_kind kind items =
      map (λ item. item.amount) (keep (λ item. p item && same_kind item.kind kind) items)

  kinds_sum :
      (k : ℕ) (items : List ExpenseRow)
      → text_sum k (picked_kind refuel items)
          +ℤ (text_sum k (picked_kind repair items) +ℤ text_sum k (picked_kind ticket items))
        ≡ text_sum k (picked items)
  unfolding text_sum
  kinds_sum k [] = omega int_laws
  kinds_sum k (item ∷ items) =
      let ih = kinds_sum k items in
      elim (Bool-cases (p item)) [
        | inr e ↦ rw e ih
        | inl e ↦ elim (Kind-cases item.kind) [
          | inl kind ↦ rw (e, kind) (rw (← ih) (omega int_laws))
          | inr (inl kind) ↦ rw (e, kind) (rw (← ih) (omega int_laws))
          | inr (inr kind) ↦ rw (e, kind) (rw (← ih) (omega int_laws))
        ]
      ]

  kinds_scale :
      (items : List ExpenseRow)
      → max
          (text_scale (picked_kind refuel items))
          (max (text_scale (picked_kind repair items)) (text_scale (picked_kind ticket items)))
        ≡ text_scale (picked items)
  unfolding text_scale
  kinds_scale [] = omega arith
  kinds_scale (item ∷ items) =
      let ih = kinds_scale items in
      elim (Bool-cases (p item)) [
        | inr e ↦ rw e ih
        | inl e ↦ elim (Kind-cases item.kind) [
          | inl kind ↦ rw (e, kind) (omega (arith, ih))
          | inr (inl kind) ↦ rw (e, kind) (omega (arith, ih))
          | inr (inr kind) ↦ rw (e, kind) (omega (arith, ih))
        ]
      ]

  abbrev kinds : List ExpenseRow → List (List Text)
  kinds items = picked_kind refuel items ∷ picked_kind repair items ∷ picked_kind ticket items ∷ []

  concat_scale :
      (items : List ExpenseRow) → text_scale (concat (kinds items)) ≡ text_scale (picked items)
  concat_scale items =
      let a = picked_kind refuel items in
      let b = picked_kind repair items in
      let c = picked_kind ticket items in
      omega (
        arith,
        text_scale-append a (b ++ (c ++ [])),
        text_scale-append b (c ++ []),
        text_scale-append c [],
        no_scale,
        kinds_scale items,
      )

  concat_sum :
      (k : ℕ) (items : List ExpenseRow)
      → text_sum k (concat (kinds items)) ≡ text_sum k (picked items)
  unfolding text_sum
  concat_sum k items =
      let a = picked_kind refuel items in
      let b = picked_kind repair items in
      let c = picked_kind ticket items in
      rw
        (
          text_sum-append k a (b ++ (c ++ [])),
          text_sum-append k b (c ++ []),
          text_sum-append k c [],
        )
        (omega int_laws ∙ kinds_sum k items)

  -- The sum of a month's three sums is, as a text, the sum of its amounts in the order of the rows.
  pub sum_of_kinds :
      (items : List ExpenseRow) (ss : List Text)
      → all has_amount items ≡ true
      → SumsTo (kinds items) ss
      → sum_decimals ss ≡ sum_decimals (picked items)
  sum_of_kinds items ss h s =
      sum_of_sums (kinds items) ss s
      ∙ same_sums (concat (kinds items)) (picked items) (concat-AreDecimals (kinds items) ss s)
          (none_unparsed (picked items) (amounts_parse p items h)) (concat_scale items)
          (concat_sum (text_scale (picked items)) items)
