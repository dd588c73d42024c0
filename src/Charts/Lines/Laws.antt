-- ===== src/Charts/Lines/Laws.antt =====
-- The order in which the points of a line chart are stepped through, and the nearest one.
use my_cars.Prelude.{
  ℕ, ◌+◌, ◌≡◌, ◌≤◌, ◌⊎◌, refl, sym, ap, ◌∙◌, inl, inr, Bool, true, false, ◌&&◌, List, [], ◌∷◌, ◌++◌,
  map, keep, arith, if◌then◌else◌, Bool-cases,
}
use my_cars.Charts.Lines.{
  LinePoint, LineSeries, Numbers, OrderedPoint, non_empty, has_points, is_drawn, with_drawn,
  lines_of, not_after, insert, sort, points_of, flat_points, ordered,
}

-- How many elements pass a test.
abbrev pub count : {A : Type 0} → (A → Bool) → List A → ℕ
count f [] = 0
count f (x ∷ xs) = (if f x then 1 else 0) + count f xs

count-append :
    {A : Type 0} (f : A → Bool) (xs ys : List A) → count f (xs ++ ys) ≡ count f xs + count f ys
count-append f [] ys = omega arith
count-append f (x ∷ xs) ys = omega (arith, count-append f xs ys)

non_empty-nil : {A : Type 0} (xs : List A) → non_empty xs ≡ false → xs ≡ []
non_empty-nil [] e = refl
non_empty-nil (x ∷ xs) e = cc

module _ {N : Type 0} (n : Numbers N) where
  -- The first of two points is earlier; or it is not later, and its line comes no later.
  abbrev pub InOrder : OrderedPoint N → OrderedPoint N → Type 0
  InOrder a b =
      (n.lt a.point.time b.point.time ≡ true)
      ⊎ ((n.lt b.point.time a.point.time ≡ false) × (a.order ≤ b.order))

  -- Each point is in order with the next one.
  abbrev pub IsSorted : List (OrderedPoint N) → Type 0
  IsSorted [] = Unit
  IsSorted (a ∷ []) = Unit
  IsSorted (a ∷ b ∷ rest) = InOrder a b × IsSorted (b ∷ rest)

  not_after-InOrder : (a b : OrderedPoint N) → not_after n a b ≡ true → InOrder a b
  not_after-InOrder a b h = ground arith

  total : (a b : OrderedPoint N) → not_after n a b ≡ false → InOrder b a
  total a b h = ground arith

  insert-IsSorted :
      (a : OrderedPoint N) (bs : List (OrderedPoint N)) → IsSorted bs → IsSorted (insert n a bs)
  insert-IsSorted a [] s = tt
  insert-IsSorted a (b ∷ []) s = elim (Bool-cases (not_after n a b)) [
    | inl e ↦ rw e (not_after-InOrder a b e, tt)
    | inr e ↦ rw e (total a b e, tt)
  ]
  insert-IsSorted a (b ∷ c ∷ bs) (h, s) = elim (Bool-cases (not_after n a b)) [
    | inl e ↦ rw e (not_after-InOrder a b e, (h, s))
    | inr e ↦
        let rest = insert-IsSorted a (c ∷ bs) s in
        elim (Bool-cases (not_after n a c)) [
          | inl k ↦ rw (e, k) (total a b e, rw k at rest)
          | inr k ↦ rw (e, k) (h, rw k at rest)
        ]
  ]

  sort-IsSorted : (points : List (OrderedPoint N)) → IsSorted (sort n points)
  sort-IsSorted [] = tt
  sort-IsSorted (a ∷ rest) = insert-IsSorted a (sort n rest) (sort-IsSorted rest)

  count-insert :
      (f : OrderedPoint N → Bool) (a : OrderedPoint N) (bs : List (OrderedPoint N))
      → count f (insert n a bs) ≡ (if f a then 1 else 0) + count f bs
  count-insert f a [] = refl
  count-insert f a (b ∷ bs) = elim (Bool-cases (not_after n a b)) [
    | inl e ↦ rw e refl
    | inr e ↦ rw e (omega (arith, count-insert f a bs))
  ]

  count-sort :
      (f : OrderedPoint N → Bool) (points : List (OrderedPoint N))
      → count f (sort n points) ≡ count f points
  count-sort f [] = refl
  count-sort f (a ∷ rest) =
      count-insert f a (sort n rest) ∙ ap (λ k. (if f a then 1 else 0) + k) (count-sort f rest)

  -- Whether a point has a finite time and a finite value.
  abbrev pub both_finite : LinePoint N → Bool
  both_finite p = n.is_finite p.time && n.is_finite p.value

  -- How many finite points of the series pass a test.
  abbrev pub drawn_count : (LinePoint N → Bool) → List (LineSeries N) → ℕ
  drawn_count f [] = 0
  drawn_count f (line ∷ series) =
      count (λ p. both_finite p && f p) line.points + drawn_count f series

  count-points :
      (f : LinePoint N → Bool) (order : ℕ) (line : LineSeries N) (points : List (LinePoint N))
      → count
          (λ o. f o.point)
          (map {A = LinePoint N} {B = OrderedPoint N}
            (λ p. record { point = p; line = line; order = order })
            (keep (is_drawn n) points))
        ≡ count (λ p. both_finite p && f p) points
  count-points f order line [] = refl
  count-points f order line (p ∷ ps) = elim (Bool-cases (is_drawn n p)) [
    | inl e ↦ rw e (ap (λ k. (if f p then 1 else 0) + k) (count-points f order line ps))
    | inr e ↦ rw e (omega (arith, count-points f order line ps))
  ]

  count-flat_points :
      (f : LinePoint N → Bool) (order : ℕ) (series : List (LineSeries N))
      → count (λ o. f o.point) (flat_points n order (lines_of n series)) ≡ drawn_count f series
  unfolding lines_of
  count-flat_points f order [] = refl
  count-flat_points f order (line ∷ series) = elim (Bool-cases (has_points (with_drawn n line))) [
    | inl e ↦ rw e (
        count-append (λ o. f o.point) (points_of n order (with_drawn n line))
          (flat_points n (order + 1) (lines_of n series))
        ∙ omega (
          arith,
          count-points f order (with_drawn n line) line.points,
          count-flat_points f (order + 1) series,
        ))
    | inr e ↦
        let none_drawn : count (λ p. both_finite p && f p) line.points ≡ 0 =
          sym (count-points f order line line.points)
          ∙ ap
              (λ ps.
                count (λ o. f o.point)
                  (map {A = LinePoint N} {B = OrderedPoint N}
                    (λ p. record { point = p; line = line; order = order }) ps))
              (non_empty-nil (keep (is_drawn n) line.points) e) in
        rw e (omega (arith, none_drawn, count-flat_points f order series))
  ]

  pub ordered_lem :
      (series : List (LineSeries N)) (f : LinePoint N → Bool)
      → IsSorted (ordered n series)
        × (count (λ o. f o.point) (ordered n series) ≡ drawn_count f series)
  unfolding ordered
  ordered_lem series f = (
    sort-IsSorted (flat_points n 0 (lines_of n series)),
    count-sort (λ o. f o.point) (flat_points n 0 (lines_of n series))
        ∙ count-flat_points f 0 series,
  )
