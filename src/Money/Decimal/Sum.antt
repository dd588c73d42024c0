-- ===== src/Money/Decimal/Sum.antt =====
-- The sums of frontend/src/lib/decimal.ts against sums of integers.
use my_cars.Prelude.{
  ℕ, ◌+◌, ◌*◌, ◌^◌, ◌-◌, ◌≤◌, ◌≡◌, sym, ap, ◌∙◌, ◌↔◌, Bool, true, false, List, [], ◌∷◌, ◌++◌,
  Option, none, some, Text, All, arith, if◌then◌else◌, length, max, any, replicate, length-append,
  length-replicate, append-nil, pad_end,
}
use my_cars.Prelude.Int.{ℤ, pos, ◌+ℤ◌, ◌-ℤ◌, int_laws}
use my_cars.Prelude.Digits.{read_digits, read_digits-append, read_digits-zeros}
use my_cars.Money.Decimal.{
  Parsed, parse, parse_all, scale_of, units, total_from, render, sum_decimals,
}
use my_cars.Money.Decimal.Parse.{parse_complete}
use my_cars.Money.Decimal.Render.{
  parts, parts-IsDecimal, length-fraction, units-parts, render-print,
}

-- The value of a decimal in units of 10 to the minus `scale`.
unfoldable pub value : ℕ → Parsed → ℤ
value scale p =
    let n =
      read_digits p.whole * 10 ^ scale
      + read_digits p.fraction * 10 ^ (scale - length p.fraction) in
    if p.negative then pos 0 -ℤ pos n else pos n

-- The sum of the values, in the same units.
unfoldable pub exact_sum : ℕ → List Parsed → ℤ
exact_sum scale [] = pos 0
exact_sum scale (p ∷ ps) = value scale p +ℤ exact_sum scale ps

zeros_read : (k : ℕ) → read_digits (replicate k b'0') ≡ 0
unfolding read_digits
zeros_read k = ap read_digits (sym (append-nil (replicate k b'0'))) ∙ read_digits-zeros k []

units_digits :
    (scale : ℕ) (w f : Text)
    → length f ≤ scale
    → read_digits (w ++ pad_end scale b'0' f)
      ≡ read_digits w * 10 ^ scale + read_digits f * 10 ^ (scale - length f)
units_digits scale w f h =
    let k = scale - length f in
    let zs = replicate k b'0' in
    let l : length (f ++ zs) ≡ scale =
      omega (arith, length-append f zs, length-replicate {A = ℕ} k b'0') in
    read_digits-append w (f ++ zs)
    ∙ rw (l, read_digits-append f zs, zeros_read k, length-replicate {A = ℕ} k b'0') (omega arith)

units-value : (scale : ℕ) (p : Parsed) → length p.fraction ≤ scale → units scale p ≡ value scale p
unfolding units value
units-value scale p h =
    ap (λ n. if p.negative then pos 0 -ℤ pos n else pos n) (units_digits scale p.whole p.fraction h)

abbrev pub Below : ℕ → List Parsed → Type 0
Below scale = All (λ p. length p.fraction ≤ scale)

Below-mono : (j k : ℕ) (ps : List Parsed) → j ≤ k → Below j ps → Below k ps
Below-mono j k [] h b = tt
Below-mono j k (p ∷ ps) h (b, bs) = (omega arith, Below-mono j k ps h bs)

pub scale_of-Below : (ps : List Parsed) → Below (scale_of ps) ps
unfolding scale_of
scale_of-Below [] = tt
scale_of-Below (p ∷ ps) = (
  omega arith,
  Below-mono (scale_of ps) (max (length p.fraction) (scale_of ps)) ps (omega arith)
      (scale_of-Below ps),
)

pub total_from-exact :
    (scale : ℕ) (acc : ℤ) (ps : List Parsed)
    → Below scale ps
    → total_from scale acc ps ≡ acc +ℤ exact_sum scale ps
unfolding total_from exact_sum
total_from-exact scale acc [] b = omega int_laws
total_from-exact scale acc (p ∷ ps) (b, bs) =
    rw (units-value scale p b)
      (total_from-exact scale (acc +ℤ value scale p) ps bs ∙ omega int_laws)

pub parse_all-total :
    (values : List Text) (ps : List Parsed)
    → parse_all values ≡ some ps
    → sum_decimals values ≡ some (render (scale_of ps) (total_from (scale_of ps) (pos 0) ps))
unfolding sum_decimals
parse_all-total values ps h = rw h

-- If every value is a decimal, the sum is the text of a decimal with as many fraction digits as
-- the value that has the most, and its value is exactly the sum of the values.
pub sum_decimals_exact :
    (values : List Text) (ps : List Parsed)
    → parse_all values ≡ some ps
    → (out : Text) × (q : Parsed) × (sum_decimals values ≡ some out)
      × (parse out ≡ some q)
      × (length q.fraction ≡ scale_of ps)
      × (value (scale_of ps) q ≡ exact_sum (scale_of ps) ps)
sum_decimals_exact values ps h =
    let scale = scale_of ps in
    let total = total_from scale (pos 0) ps in
    let q = parts scale total in
    (
      render scale total,
      q,
      parse_all-total values ps h,
      rw render-print (parse_complete q (parts-IsDecimal scale total)),
      length-fraction scale total,
      sym (units-value scale q (omega (arith, length-fraction scale total)))
          ∙ units-parts scale total
          ∙ total_from-exact scale (pos 0) ps (scale_of-Below ps)
          ∙ omega int_laws,
    )

abbrev pub unparsed : Option Parsed → Bool
unparsed none = true
unparsed (some p) = false

parse_all-none_iff :
    (values : List Text) → (parse_all values ≡ none) ↔ (any (λ v. unparsed (parse v)) values ≡ true)
unfolding parse_all
parse_all-none_iff [] = ground arith
parse_all-none_iff (v ∷ vs) = ground (arith, parse_all-none_iff vs)

-- The sum throws exactly if some value is no decimal.
pub sum_decimals-none_iff :
    (values : List Text)
    → (sum_decimals values ≡ none) ↔ (any (λ v. unparsed (parse v)) values ≡ true)
unfolding sum_decimals
sum_decimals-none_iff values = ground (arith, parse_all-none_iff values)
