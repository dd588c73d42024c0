-- ===== src/Money/Decimal/Nested.antt =====
-- Sums of sums: frontend/src/lib/decimal.ts applied to its own results.
use mathlib.Core.Option.{some-injective}
use native.Mathlib.Nat.{pow-suc}
use my_cars.Prelude.{
  ℕ, zero, suc, ◌+◌, ◌-◌, ◌*◌, ◌^◌, ◌≤◌, ◌≡◌, refl, sym, ap, ◌∙◌, inl, inr, Bool, true, false, List,
  [], ◌∷◌, Option, none, some, Text, length, max, All, arith, Option-cases, if◌then◌else◌,
}
use my_cars.Prelude.Int.{
  ℤ, pos, ◌+ℤ◌, ◌-ℤ◌, pos_part, neg_part, int_laws, eq_of_parts, +ℤ_parts, -ℤ_parts,
}
use my_cars.Prelude.Digits.{read_digits}
use my_cars.Money.Decimal.{Parsed, parse, parse_all, scale_of, total_from, render, sum_decimals}
use my_cars.Money.Decimal.Sum.{
  Below, value, exact_sum, total_from-exact, scale_of-Below, parse_all-total, unparsed,
  sum_decimals_exact,
}

power-add : (s d : ℕ) → 10 ^ (s + d) ≡ 10 ^ s * 10 ^ d
power-add s zero = let e : s + 0 ≡ s = omega arith in rw e (omega arith)
power-add s (suc d) =
    let e : s + suc d ≡ suc (s + d) = omega arith in
    rw (e, pow-suc 10 (s + d), pow-suc 10 d) (omega (arith, ap (λ (t : ℕ). t * 10) (power-add s d)))

-- An integer times a number.
abbrev scaled : ℕ → ℤ → ℤ
scaled k z = pos (pos_part z * k) -ℤ pos (neg_part z * k)

scaled-add : (k : ℕ) (a b : ℤ) → scaled k (a +ℤ b) ≡ scaled k a +ℤ scaled k b
scaled-add k a b =
    let e = ap (λ (t : ℕ). t * k) (+ℤ_parts a b) in
    eq_of_parts _ _ (
      omega (
        arith,
        e,
        -ℤ_parts (pos (pos_part (a +ℤ b) * k)) (pos (neg_part (a +ℤ b) * k)),
        +ℤ_parts (scaled k a) (scaled k b),
        -ℤ_parts (pos (pos_part a * k)) (pos (neg_part a * k)),
        -ℤ_parts (pos (pos_part b * k)) (pos (neg_part b * k)),
      ))

scaled-pos : (k n : ℕ) → scaled k (pos n) ≡ pos (n * k)
scaled-pos k n = eq_of_parts _ _ (omega (arith, -ℤ_parts (pos (n * k)) (pos (0 * k))))

scaled-neg : (k n : ℕ) → scaled k (pos 0 -ℤ pos n) ≡ pos 0 -ℤ pos (n * k)
scaled-neg k n =
    let z = pos 0 -ℤ pos n in
    let e = ap (λ (t : ℕ). t * k) (-ℤ_parts (pos 0) (pos n)) in
    eq_of_parts _ _ (
      omega (
        arith,
        e,
        -ℤ_parts (pos (pos_part z * k)) (pos (neg_part z * k)),
        -ℤ_parts (pos 0) (pos (n * k)),
      ))

signed :
    (negative : Bool) (n k : ℕ)
    → (if negative then pos 0 -ℤ pos (n * k) else pos (n * k))
      ≡ scaled k (if negative then pos 0 -ℤ pos n else pos n)
signed true n k = sym (scaled-neg k n)
signed false n k = sym (scaled-pos k n)

-- A value in units that are `d` digits finer.
value-finer :
    (s d : ℕ) (p : Parsed) → length p.fraction ≤ s → value (s + d) p ≡ scaled (10 ^ d) (value s p)
unfolding value
value-finer s d p h =
    let k = s - length p.fraction in
    let finer : s + d - length p.fraction ≡ k + d = omega arith in
    let n = read_digits p.whole * 10 ^ s + read_digits p.fraction * 10 ^ k in
    let e : read_digits p.whole * 10 ^ (s + d) + read_digits p.fraction * 10 ^ (k + d)
        ≡ n * 10 ^ d =
      rw (power-add s d, power-add k d) (omega arith) in
    rw (finer, e) (signed p.negative n (10 ^ d))

exact_sum-finer :
    (s d : ℕ) (ps : List Parsed)
    → Below s ps
    → exact_sum (s + d) ps ≡ scaled (10 ^ d) (exact_sum s ps)
unfolding exact_sum
exact_sum-finer s d [] b =
    let e : 0 ≡ 0 * 10 ^ d = omega arith in ap pos e ∙ sym (scaled-pos (10 ^ d) 0)
exact_sum-finer s d (p ∷ ps) (b, bs) =
    rw (value-finer s d p b, exact_sum-finer s d ps bs)
      (sym (scaled-add (10 ^ d) (value s p) (exact_sum s ps)))

-- What a text that is a decimal stands for, and how many fraction digits it has.
abbrev pub value_of : ℕ → Option Parsed → ℤ
value_of scale none = pos 0
value_of scale (some p) = value scale p

abbrev pub digits_of : Option Parsed → ℕ
digits_of none = 0
digits_of (some p) = length p.fraction

unfoldable pub text_sum : ℕ → List Text → ℤ
text_sum scale [] = pos 0
text_sum scale (v ∷ vs) = value_of scale (parse v) +ℤ text_sum scale vs

unfoldable pub text_scale : List Text → ℕ
text_scale [] = 0
text_scale (v ∷ vs) = max (digits_of (parse v)) (text_scale vs)

abbrev pub AreDecimals : List Text → Type 0
AreDecimals = All (λ v. unparsed (parse v) ≡ false)

-- The parsed values of decimals.
record IsParsed (vs : List Text) (ps : List Parsed) : Type 0 where
  parsed : parse_all vs ≡ some ps
  scale : scale_of ps ≡ text_scale vs
  sum : (k : ℕ) → exact_sum k ps ≡ text_sum k vs

parse-exists : (v : Text) → unparsed (parse v) ≡ false → (p : Parsed) × (parse v ≡ some p)
parse-exists v h = elim (Option-cases (parse v)) [ inl e ↦ cc (rw e at h) | inr r ↦ r ]

parse_all-cons :
    (v : Text) (p : Parsed) (vs : List Text) (ps : List Parsed)
    → parse v ≡ some p
    → parse_all vs ≡ some ps
    → parse_all (v ∷ vs) ≡ some (p ∷ ps)
unfolding parse_all
parse_all-cons v p vs ps e h = ground arith

AreDecimals-parsed : (vs : List Text) → AreDecimals vs → (ps : List Parsed) × IsParsed vs ps
unfolding parse_all scale_of exact_sum text_sum text_scale
AreDecimals-parsed [] h = ([], record { parsed = refl; scale = refl; sum = λ k. refl })
AreDecimals-parsed (v ∷ vs) (h, hs) =
    let (p, e) = parse-exists v h in
    let (ps, r) = AreDecimals-parsed vs hs in
    (
      p ∷ ps,
      record {
        parsed = parse_all-cons v p vs ps e r.parsed;
        scale = rw (e, r.scale) refl;
        sum = λ k. rw (e, r.sum k) refl;
      },
    )

-- The sum of decimals: the text of their exact sum, with the digits of the longest fraction.
pub sum_decimals-text :
    (vs : List Text)
    → AreDecimals vs
    → sum_decimals vs ≡ some (render (text_scale vs) (text_sum (text_scale vs) vs))
sum_decimals-text vs h =
    let (ps, r) = AreDecimals-parsed vs h in
    let total : total_from (scale_of ps) (pos 0) ps ≡ exact_sum (scale_of ps) ps =
      total_from-exact (scale_of ps) (pos 0) ps (scale_of-Below ps) ∙ omega int_laws in
    parse_all-total vs ps r.parsed ∙ rw (total, r.sum (scale_of ps), r.scale) refl

-- What the sum of decimals stands for, in units that are fine enough.
pub sum_decimals-value :
    (vs : List Text) (out : Text)
    → AreDecimals vs
    → sum_decimals vs ≡ some out
    → (unparsed (parse out) ≡ false)
      × (digits_of (parse out) ≡ text_scale vs)
      × ((d : ℕ) → value_of (text_scale vs + d) (parse out) ≡ text_sum (text_scale vs + d) vs)
sum_decimals-value vs out h e =
    let (ps, r) = AreDecimals-parsed vs h in
    let (out', q, summed, read, digits, exact) = sum_decimals_exact vs ps r.parsed in
    let same : out' ≡ out = some-injective _ _ (sym summed ∙ e) in
    let parsed : parse out ≡ some q = ap parse (sym same) ∙ read in
    rw parsed (
      refl,
      digits ∙ r.scale,
      λ d. rw (← r.scale) (
          value-finer (scale_of ps) d q (omega (arith, digits))
          ∙ ap (scaled (10 ^ d)) exact
          ∙ sym (exact_sum-finer (scale_of ps) d ps (scale_of-Below ps))
          ∙ r.sum (scale_of ps + d)),
    )
