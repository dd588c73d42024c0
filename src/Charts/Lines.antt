-- ===== src/Charts/Lines.antt =====
-- frontend/src/components/line-chart.tsx: which points are drawn, in which order they are stepped
-- through, and which one is nearest to the pointer. Floating-point numbers are a parameter.
pub mod Laws
pub mod Hits
use my_cars.Prelude.{
  ℕ, suc, ◌+◌, Bool, true, false, not, ◌&&◌, List, [], ◌∷◌, ◌++◌, Option, none, some, Text, map,
  keep, any, leb, if◌then◌else◌,
}

pub record LinePoint (N : Type 0) : Type 0 where
  pub id : Text
  pub time : N
  pub value : N

-- `is_right` says that the axis is 'right'.
pub record LineSeries (N : Type 0) : Type 0 where
  pub key : Text
  pub label : Text
  pub is_right : Bool
  pub points : List (LinePoint N)

-- `Number.isFinite`, and `<` on numbers.
pub record Numbers (N : Type 0) : Type 0 where
  pub is_finite : N → Bool
  pub lt : N → N → Bool

-- A point with its line, and the line's place among the lines.
pub record OrderedPoint (N : Type 0) : Type 0 where
  pub point : LinePoint N
  pub line : LineSeries N
  pub order : ℕ

abbrev pub non_empty : {A : Type 0} → List A → Bool
non_empty [] = false
non_empty (x ∷ xs) = true

abbrev pub has_points : {N : Type 0} → LineSeries N → Bool
has_points line = non_empty line.points

module _ {N : Type 0} (n : Numbers N) where
  abbrev pub is_drawn : LinePoint N → Bool
  is_drawn p = n.is_finite p.time && n.is_finite p.value

  abbrev pub with_drawn : LineSeries N → LineSeries N
  with_drawn line = record line { points = keep is_drawn line.points }

  -- `lines`
  unfoldable pub lines_of : List (LineSeries N) → List (LineSeries N)
  lines_of series = keep has_points (map with_drawn series)

  -- `a.time - b.time || a.order - b.order`, where it is not positive.
  abbrev pub not_after : OrderedPoint N → OrderedPoint N → Bool
  not_after a b =
      if n.lt a.point.time b.point.time
      then true
      else if n.lt b.point.time a.point.time
      then false
      else leb a.order b.order

  abbrev pub insert : OrderedPoint N → List (OrderedPoint N) → List (OrderedPoint N)
  insert a [] = a ∷ []
  insert a (b ∷ bs) = let rest = insert a bs in if not_after a b then a ∷ b ∷ bs else b ∷ rest

  abbrev pub sort : List (OrderedPoint N) → List (OrderedPoint N)
  sort [] = []
  sort (a ∷ rest) = insert a (sort rest)

  abbrev pub points_of : ℕ → LineSeries N → List (OrderedPoint N)
  points_of order line = map (λ p. record { point = p; line = line; order = order }) line.points

  -- `lines.flatMap((line, order) => …)`
  abbrev pub flat_points : ℕ → List (LineSeries N) → List (OrderedPoint N)
  flat_points order [] = []
  flat_points order (line ∷ lines) = points_of order line ++ flat_points (order + 1) lines

  -- `ordered`
  unfoldable pub ordered : List (LineSeries N) → List (OrderedPoint N)
  unfolding lines_of
  ordered series = sort (flat_points 0 (lines_of series))

  -- `twoAxes`
  unfoldable pub two_axes : List (LineSeries N) → Bool
  unfolding lines_of
  two_axes series =
      any (λ line. line.is_right) (lines_of series)
      && any (λ line. not line.is_right) (lines_of series)

  -- `onRight(line)`
  unfoldable pub on_right : List (LineSeries N) → LineSeries N → Bool
  unfolding two_axes
  on_right series line = two_axes series && line.is_right

  -- The values that the ticks of an axis are made for: `values` of `ticksOf(right)`.
  unfoldable pub axis_values : List (LineSeries N) → Bool → List N
  unfolding ordered on_right
  axis_values series right =
      map (λ p. p.point.value)
        (keep (λ p. if right then on_right series p.line else not (on_right series p.line))
          (ordered series))

-- The variables of the hit test.
pub record Nearest (D : Type 0) : Type 0 where
  pub nearest : Option ℕ
  pub best : D

-- The hit test, with the distances of the points in order, `<` on them, and infinity.
module _ {D : Type 0} (lt : D → D → Bool) (infinity : D) where
  -- One round of the loop, for the point at `i`.
  abbrev pub compare_one : ℕ → D → Nearest D → Nearest D
  compare_one i distance s =
      if lt distance s.best then record { nearest = some i; best = distance } else s

  abbrev pub compare_from : ℕ → Nearest D → List D → Nearest D
  compare_from i s [] = s
  compare_from i s (d ∷ ds) = compare_from (suc i) (compare_one i d s) ds

  unfoldable pub hit_test : List D → Option ℕ
  hit_test distances =
      (compare_from 0 (record { nearest = none; best = infinity }) distances).nearest
