-- ===== src/Money/Decimal/Render.antt =====
-- The texts that frontend/src/lib/decimal.ts prints, by their parts.
use mathlib.Core.Path.{ap₂}
use my_cars.Prelude.{
  ◌==◌, false, ℕ, zero, suc, ◌+◌, ◌-◌, ◌≤◌, ◌<◌, ◌≡◌, ◌≢◌, refl, sym, ap, ◌∙◌, Bool, true, [], ◌∷◌,
  ◌++◌, Text, is_digit, all, all-append, arith, append-nil, take, drop, length, length-append,
  length-replicate, length-take, length-drop, replicate, pad_end, take-append-drop, take-append,
  drop-append, if◌then◌else◌,
}
use my_cars.Prelude.Int.{ℤ, pos, ◌-ℤ◌, abs_ℕ, ltb_ℤ}
use my_cars.Prelude.Digits.{show, show-digits, read_digits, read_digits-show, read_digits-zeros}
use my_cars.Money.Decimal.{Parsed, padded, with_point, sign_of, render, units}
use my_cars.Money.Decimal.Parse.{IsDecimal, print, behind_point, minus}

all-take : (p : ℕ → Bool) (n : ℕ) (s : Text) → all p s ≡ true → all p (take n s) ≡ true
all-take p zero s h = refl
all-take p (suc n) [] h = refl
all-take p (suc n) (c ∷ s) h = ground (arith, all-take p n s)

all-drop : (p : ℕ → Bool) (n : ℕ) (s : Text) → all p s ≡ true → all p (drop n s) ≡ true
all-drop p zero s h = h
all-drop p (suc n) [] h = refl
all-drop p (suc n) (c ∷ s) h = ground (arith, all-drop p n s)

all-replicate : (p : ℕ → Bool) (n c : ℕ) → p c ≡ true → all p (replicate n c) ≡ true
all-replicate p zero c h = refl
all-replicate p (suc n) c h = rw (h, all-replicate p n c h)

-- The parts of a printed total.
abbrev pub parts : ℕ → ℤ → Parsed
parts scale total = record {
  negative = ltb_ℤ total (pos 0);
  whole = take (length (padded scale total) - scale) (padded scale total);
  fraction = drop (length (padded scale total) - scale) (padded scale total);
}

module _ (scale : ℕ) (total : ℤ) where
  padded-digits : all is_digit (padded scale total) ≡ true
  padded-digits =
      all-append is_digit (replicate (scale + 1 - length (show (abs_ℕ total))) b'0')
        (show (abs_ℕ total))
        (all-replicate is_digit (scale + 1 - length (show (abs_ℕ total))) b'0' refl)
        (show-digits (abs_ℕ total))

  padded_length : scale < length (padded scale total)
  padded_length =
      let n = scale + 1 - length (show (abs_ℕ total)) in
      omega (
        arith,
        length-append (replicate n b'0') (show (abs_ℕ total)),
        length-replicate {A = ℕ} n b'0',
      )

  read_digits-padded : read_digits (padded scale total) ≡ abs_ℕ total
  read_digits-padded =
      read_digits-zeros (scale + 1 - length (show (abs_ℕ total))) (show (abs_ℕ total))
      ∙ read_digits-show (abs_ℕ total)

  pub length-fraction : length (parts scale total).fraction ≡ scale
  length-fraction =
      let ds = padded scale total in
      omega (arith, length-drop (length ds - scale) ds, padded_length)

  ne_nil_of_length : (s : Text) → 0 < length s → s ≢ []
  ne_nil_of_length [] h = absurd (omega arith)
  ne_nil_of_length (c ∷ s) h = cc

  pub parts-IsDecimal : IsDecimal (parts scale total)
  parts-IsDecimal =
      let ds = padded scale total in
      record {
        has_whole =
            ne_nil_of_length (take (length ds - scale) ds)
              (omega (arith, length-take (length ds - scale) ds, padded_length));
        whole_digits = all-take is_digit (length ds - scale) ds padded-digits;
        fraction_digits = all-drop is_digit (length ds - scale) ds padded-digits;
      }

signed :
    (total : ℤ)
    → (if ltb_ℤ total (pos 0) then pos 0 -ℤ pos (abs_ℕ total) else pos (abs_ℕ total)) ≡ total
unfolding ◌-ℤ◌
signed total = ground arith

module _ (scale : ℕ) (ds : Text) (enough : scale ≤ length ds) where
  join_parts : take (length ds - scale) ds ++ pad_end scale b'0' (drop (length ds - scale) ds) ≡ ds
  join_parts =
      let e : scale - length (drop (length ds - scale) ds) ≡ 0 =
        omega (arith, length-drop (length ds - scale) ds) in
      rw e (rw append-nil (take-append-drop (length ds - scale) ds))

  behind_point_ne_nil : (s : Text) → 0 < length s → behind_point s ≡ b'.' ∷ s
  behind_point_ne_nil [] h = absurd (omega arith)
  behind_point_ne_nil (c ∷ s) h = refl

  with_point_lem :
      0 < scale
      → with_point scale ds
        ≡ take (length ds - scale) ds ++ behind_point (drop (length ds - scale) ds)
  with_point_lem h = rw (
      behind_point_ne_nil (drop (length ds - scale) ds)
        (omega (arith, length-drop (length ds - scale) ds)))

without_point : (ds : Text) → ds ≡ take (length ds - 0) ds ++ behind_point (drop (length ds - 0) ds)
without_point ds =
    let e : length ds - 0 ≡ length ds = omega arith in
    let whole : take (length ds) ds ≡ ds =
      ap (take (length ds)) (sym (append-nil ds)) ∙ take-append ds [] in
    let empty : drop (length ds) ds ≡ [] =
      ap (drop (length ds)) (sym (append-nil ds)) ∙ drop-append ds [] in
    sym (rw e (rw (whole, empty) (append-nil ds)))

-- Read at its own scale, a printed total is the total.
pub units-parts : (scale : ℕ) (total : ℤ) → units scale (parts scale total) ≡ total
unfolding units
units-parts scale total =
    ap (λ n. if ltb_ℤ total (pos 0) then pos 0 -ℤ pos n else pos n)
      (ap read_digits
          (join_parts scale (padded scale total) (omega (arith, padded_length scale total)))
        ∙ read_digits-padded scale total)
    ∙ signed total

sign_of-minus : (total : ℤ) → sign_of total ≡ minus (ltb_ℤ total (pos 0))
sign_of-minus total = ground arith

pub render-print : (scale : ℕ) (total : ℤ) → render scale total ≡ print (parts scale total)
unfolding render
render-print zero total = ap₂ ◌++◌ (sign_of-minus total) (without_point (padded 0 total))
render-print (suc k) total =
    let positive : (suc k == 0) ≡ false = ground arith in
    rw positive (
      ap₂ ◌++◌ (sign_of-minus total) (
        with_point_lem (suc k) (padded (suc k) total) (omega (arith, padded_length (suc k) total))
          (omega arith)))
