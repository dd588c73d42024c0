-- ===== src/Money/Decimal/Groups.antt =====
-- The sums of frontend/src/lib/decimal.ts by groups.
use my_cars.Prelude.{
  ℕ, ◌+◌, ◌-◌, ◌≤◌, ◌≡◌, refl, sym, ap, ◌∙◌, false, List, [], ◌∷◌, ◌++◌, some, Text, max,
  All-append, arith,
}
use my_cars.Prelude.Int.{◌+ℤ◌, int_laws}
use my_cars.Money.Decimal.{parse, render, sum_decimals}
use my_cars.Money.Decimal.Sum.{unparsed}
use my_cars.Money.Decimal.Nested.{
  AreDecimals, value_of, text_sum, text_scale, sum_decimals-text, sum_decimals-value,
}

pub text_scale-append :
    (vs ws : List Text) → text_scale (vs ++ ws) ≡ max (text_scale vs) (text_scale ws)
unfolding text_scale
text_scale-append [] ws = omega arith
text_scale-append (v ∷ vs) ws = omega (arith, text_scale-append vs ws)

pub text_sum-append :
    (k : ℕ) (vs ws : List Text) → text_sum k (vs ++ ws) ≡ text_sum k vs +ℤ text_sum k ws
unfolding text_sum
text_sum-append k [] ws = omega int_laws
text_sum-append k (v ∷ vs) ws = rw (text_sum-append k vs ws) (omega int_laws)

-- Decimals with one scale and one sum have the same text for their sum.
pub same_sums :
    (vs ws : List Text)
    → AreDecimals vs
    → AreDecimals ws
    → text_scale vs ≡ text_scale ws
    → text_sum (text_scale ws) vs ≡ text_sum (text_scale ws) ws
    → sum_decimals vs ≡ sum_decimals ws
same_sums vs ws h k scale sum =
    sum_decimals-text vs h
    ∙ ap some (ap (λ s. render s (text_sum s vs)) scale ∙ ap (render (text_scale ws)) sum)
    ∙ sym (sum_decimals-text ws k)

abbrev pub concat : List (List Text) → List Text
concat [] = []
concat (g ∷ gs) = g ++ concat gs

-- Groups of decimals, and the sum of each group.
abbrev pub SumsTo : List (List Text) → List Text → Type 0
SumsTo [] [] = Unit
SumsTo (g ∷ gs) (s ∷ ss) = AreDecimals g × (sum_decimals g ≡ some s) × SumsTo gs ss
SumsTo _ _ = ⊥

pub concat-AreDecimals :
    (gs : List (List Text)) (ss : List Text) → SumsTo gs ss → AreDecimals (concat gs)
concat-AreDecimals [] [] h = tt
concat-AreDecimals [] (s ∷ ss) h = absurd h
concat-AreDecimals (g ∷ gs) [] h = absurd h
concat-AreDecimals (g ∷ gs) (s ∷ ss) (d, e, h) =
    All-append (λ v. unparsed (parse v) ≡ false) g (concat gs) d (concat-AreDecimals gs ss h)

sums-AreDecimals : (gs : List (List Text)) (ss : List Text) → SumsTo gs ss → AreDecimals ss
sums-AreDecimals [] [] h = tt
sums-AreDecimals [] (s ∷ ss) h = absurd h
sums-AreDecimals (g ∷ gs) [] h = absurd h
sums-AreDecimals (g ∷ gs) (s ∷ ss) (d, e, h) =
    ((sum_decimals-value g s d e).0, sums-AreDecimals gs ss h)

sums-scale :
    (gs : List (List Text)) (ss : List Text) → SumsTo gs ss → text_scale ss ≡ text_scale (concat gs)
unfolding text_scale
sums-scale [] [] h = refl
sums-scale [] (s ∷ ss) h = absurd h
sums-scale (g ∷ gs) [] h = absurd h
sums-scale (g ∷ gs) (s ∷ ss) (d, e, h) =
    omega
      (arith, text_scale-append g (concat gs), (sum_decimals-value g s d e).1, sums-scale gs ss h)

sums-value :
    (k : ℕ) (gs : List (List Text)) (ss : List Text)
    → SumsTo gs ss
    → text_scale (concat gs) ≤ k
    → text_sum k ss ≡ text_sum k (concat gs)
unfolding text_sum
sums-value k [] [] h b = refl
sums-value k [] (s ∷ ss) h b = absurd h
sums-value k (g ∷ gs) [] h b = absurd h
sums-value k (g ∷ gs) (s ∷ ss) (d, e, h) b =
    let scales = text_scale-append g (concat gs) in
    let split : text_scale g + (k - text_scale g) ≡ k = omega (arith, scales) in
    let own = (sum_decimals-value g s d e).2 (k - text_scale g) in
    let value : value_of k (parse s) ≡ text_sum k g = rw split at own in
    rw (value, sums-value k gs ss h (omega (arith, scales))) (sym (text_sum-append k g (concat gs)))

-- The sum of the sums of groups of decimals is, as a text, the sum of all their decimals.
pub sum_of_sums :
    (gs : List (List Text)) (ss : List Text)
    → SumsTo gs ss
    → sum_decimals ss ≡ sum_decimals (concat gs)
sum_of_sums gs ss h =
    same_sums ss (concat gs) (sums-AreDecimals gs ss h) (concat-AreDecimals gs ss h)
      (sums-scale gs ss h) (sums-value (text_scale (concat gs)) gs ss h (omega arith))
