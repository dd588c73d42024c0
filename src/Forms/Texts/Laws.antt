-- ===== src/Forms/Texts/Laws.antt =====
-- Trimmed texts, decimal commas and whole numbers of the entry forms.
use mathlib.Core.Option
use my_cars.Prelude.{
  ℕ, suc, ◌<◌, ◌^◌, ◌≡◌, ◌≢◌, ◌⊎◌, refl, ap, ◌∙◌, inl, inr, Bool, true, not, [], ◌∷◌, ◌++◌, Option,
  none, some, Text, is_digit, all, arith, and_iff, sym, false, all-append,
}
use my_cars.Prelude.Int.{ℤ, pos, negsuc}
use my_cars.Prelude.Digits.{show, show-digits, show-ne-nil}
use my_cars.Money.Decimal.{Parsed, digits_then}
use my_cars.Money.Decimal.Parse.{
  minus, behind_point, IsDecimal, print, body, digits_then-append, digit_is_no_dash,
}
use my_cars.Forms.Texts.{
  is_space, before_trimmed, trim_start, trim_end, trim, comma_split, comma_replaced, comma_to_point,
  or_unchanged, Odometer, absent, whole, Numerals, has_digits, is_whole, read_whole, reading_text,
}

abbrev pub no_space : ℕ → Bool
no_space c = not (is_space c)

pub digits-no_space : (s : Text) → all is_digit s ≡ true → all no_space s ≡ true
digits-no_space [] h = refl
digits-no_space (c ∷ s) h =
    let (d, ds) = (and_iff (is_digit c) (all is_digit s)).0 h in
    let here : no_space c ≡ true = ground arith in
    (and_iff (no_space c) (all no_space s)).1 (here, digits-no_space s ds)

trim_start-no_space : (s : Text) → all no_space s ≡ true → trim_start s ≡ s
trim_start-no_space [] h = refl
trim_start-no_space (c ∷ s) h = ground arith

trim_end-no_space : (s : Text) → all no_space s ≡ true → trim_end s ≡ s
trim_end-no_space [] h = refl
trim_end-no_space (c ∷ []) h = ground arith
trim_end-no_space (c ∷ d ∷ s) h =
    ap (before_trimmed c)
      (trim_end-no_space (d ∷ s) ((and_iff (no_space c) (all no_space (d ∷ s))).0 h).1)

-- A text without white space is not changed by trimming.
pub trim-no_space : (s : Text) → all no_space s ≡ true → trim s ≡ s
unfolding trim
trim-no_space s h = ap trim_end (trim_start-no_space s h) ∙ trim_end-no_space s h

abbrev pub reading_of : {N : Type 0} → Option N → Odometer N
reading_of none = absent
reading_of (some n) = whole n

-- A whole number in decimal digits.
abbrev pub written : ℤ → Text
written (pos n) = show n
written (negsuc n) = b'-' ∷ show (suc n)

-- The integers that doubles hold exactly: up to 2 ^ 53 - 1.
abbrev pub IsSafe : ℤ → Type 0
IsSafe (pos n) = n < 2 ^ 53
IsSafe (negsuc n) = suc n < 2 ^ 53

abbrev pub AllSafe : Option ℤ → Type 0
AllSafe none = Unit
AllSafe (some z) = IsSafe z

-- What is documented of `Number` and `String` at such an integer: its text is its digits, and they
-- are read as the integer.
pub record IsNumerals {N : Type 0} (numerals : Numerals N) (of_integer : ℤ → N) : Type 0 where
  pub string_of : (z : ℤ) → IsSafe z → numerals.string (of_integer z) ≡ written z
  pub number_of : (z : ℤ) → IsSafe z → numerals.number (written z) ≡ of_integer z

has_digits-digits : (s : Text) → s ≢ [] → all is_digit s ≡ true → has_digits s ≡ true
has_digits-digits [] ne h = absurd (ne refl)
has_digits-digits (c ∷ s) ne h = h

is_whole-digits : (s : Text) → s ≢ [] → all is_digit s ≡ true → is_whole s ≡ true
is_whole-digits [] ne h = absurd (ne refl)
is_whole-digits (c ∷ s) ne h =
    rw (digit_is_no_dash c ((and_iff (is_digit c) (all is_digit s)).0 h).0) h

is_whole-written : (z : ℤ) → is_whole (written z) ≡ true
is_whole-written (pos n) = is_whole-digits (show n) (show-ne-nil n) (show-digits n)
is_whole-written (negsuc n) =
    has_digits-digits (show (suc n)) (show-ne-nil (suc n)) (show-digits (suc n))

written-no_space : (z : ℤ) → all no_space (written z) ≡ true
written-no_space (pos n) = digits-no_space (show n) (show-digits n)
written-no_space (negsuc n) = digits-no_space (show (suc n)) (show-digits (suc n))

module _ {N : Type 0} (numerals : Numerals N) (of_integer : ℤ → N)
    (laws : IsNumerals numerals of_integer) where
  read_whole-is_whole :
      (s : Text) → is_whole s ≡ true → read_whole numerals s ≡ whole (numerals.number s)
  read_whole-is_whole [] h = cc
  read_whole-is_whole (c ∷ s) h = rw h refl

  -- A number that a form shows is read back as the same number.
  pub read_whole-reading_text :
      (r : Option ℤ)
      → AllSafe r
      → read_whole numerals (reading_text numerals (Option.map of_integer r))
        ≡ reading_of (Option.map of_integer r)
  unfolding reading_text
  read_whole-reading_text none h = refl
  read_whole-reading_text (some z) h =
      ap (read_whole numerals) (laws.string_of z h)
      ∙ read_whole-is_whole (written z) (is_whole-written z)
      ∙ ap whole (laws.number_of z h)

  pub reading_text-no_space :
      (r : Option ℤ)
      → AllSafe r
      → all no_space (reading_text numerals (Option.map of_integer r)) ≡ true
  unfolding reading_text
  reading_text-no_space none h = refl
  reading_text-no_space (some z) h = rw (laws.string_of z h) (written-no_space z)

-- The fraction behind a comma, as German users write it.
abbrev pub behind_comma : Text → Text
behind_comma [] = []
behind_comma (c ∷ f) = b',' ∷ c ∷ f

abbrev pub print_comma : Parsed → Text
print_comma p = minus p.negative ++ (p.whole ++ behind_comma p.fraction)

comma_split-point :
    (w f : Text) → all is_digit w ≡ true → comma_split (digits_then (w ++ behind_point f)) ≡ none
comma_split-point [] [] h = refl
comma_split-point [] (e ∷ f) h = refl
comma_split-point (c ∷ w) [] h = ap comma_split (digits_then-append (c ∷ w) [] h tt)
comma_split-point (c ∷ w) (e ∷ f) h =
    ap comma_split (digits_then-append (c ∷ w) (b'.' ∷ e ∷ f) h refl)

comma_split-comma :
    (w f : Text)
    → w ≢ []
    → all is_digit w ≡ true
    → all is_digit f ≡ true
    → (comma_split (digits_then (w ++ behind_comma f)) ≡ some (w ++ behind_point f))
      ⊎ ((f ≡ []) × (comma_split (digits_then (w ++ behind_comma f)) ≡ none))
comma_split-comma [] f ne h k = absurd (ne refl)
comma_split-comma (c ∷ w) [] ne h k =
    inr (refl, ap comma_split (digits_then-append (c ∷ w) [] h tt))
comma_split-comma (c ∷ w) (e ∷ f) ne h k =
    inl (ap comma_split (digits_then-append (c ∷ w) (b',' ∷ e ∷ f) h refl) ∙ rw k refl)

comma_replaced-unsigned :
    (w s : Text)
    → w ≢ []
    → all is_digit w ≡ true
    → comma_replaced (w ++ s) ≡ comma_split (digits_then (w ++ s))
comma_replaced-unsigned [] s ne h = absurd (ne refl)
comma_replaced-unsigned (c ∷ w) s ne h =
    rw (digit_is_no_dash c ((and_iff (is_digit c) (all is_digit w)).0 h).0) refl

module _ (w s : Text) (ne : w ≢ []) (h : all is_digit w ≡ true) where
  comma_to_point-some :
      (negative : Bool) (t : Text)
      → comma_split (digits_then (w ++ s)) ≡ some t
      → comma_to_point (minus negative ++ (w ++ s)) ≡ minus negative ++ t
  unfolding comma_to_point
  comma_to_point-some true t e = rw e refl
  comma_to_point-some false t e = ap (or_unchanged (w ++ s)) (comma_replaced-unsigned w s ne h ∙ e)

  comma_to_point-none :
      (negative : Bool)
      → comma_split (digits_then (w ++ s)) ≡ none
      → comma_to_point (minus negative ++ (w ++ s)) ≡ minus negative ++ (w ++ s)
  unfolding comma_to_point
  comma_to_point-none true e = rw e refl
  comma_to_point-none false e = ap (or_unchanged (w ++ s)) (comma_replaced-unsigned w s ne h ∙ e)

module _ (p : Parsed) (d : IsDecimal p) where
  pub comma_to_point-print : comma_to_point (print p) ≡ print p
  comma_to_point-print =
      comma_to_point-none p.whole (behind_point p.fraction) d.has_whole d.whole_digits p.negative
        (comma_split-point p.whole p.fraction d.whole_digits)

  pub comma_to_point-print_comma : comma_to_point (print_comma p) ≡ print p
  comma_to_point-print_comma =
      elim (comma_split-comma p.whole p.fraction d.has_whole d.whole_digits d.fraction_digits) [
        | inl e ↦
            comma_to_point-some p.whole (behind_comma p.fraction) d.has_whole d.whole_digits
              p.negative (p.whole ++ behind_point p.fraction) e
        | inr (empty, e) ↦
            comma_to_point-none p.whole (behind_comma p.fraction) d.has_whole d.whole_digits
              p.negative e
            ∙ ap (λ t. minus p.negative ++ (p.whole ++ t))
                (ap behind_comma empty ∙ sym (ap behind_point empty))
      ]

  fraction-no_space : (f : Text) → all is_digit f ≡ true → all no_space (behind_point f) ≡ true
  fraction-no_space [] h = refl
  fraction-no_space (c ∷ f) h = digits-no_space (c ∷ f) h

  comma-no_space : (f : Text) → all is_digit f ≡ true → all no_space (behind_comma f) ≡ true
  comma-no_space [] h = refl
  comma-no_space (c ∷ f) h = digits-no_space (c ∷ f) h

  minus-no_space : (negative : Bool) → all no_space (minus negative) ≡ true
  minus-no_space true = refl
  minus-no_space false = refl

  pub print-no_space : all no_space (print p) ≡ true
  print-no_space = all-append no_space (minus p.negative) (body p) (minus-no_space p.negative) (
      all-append no_space p.whole (behind_point p.fraction) (digits-no_space p.whole d.whole_digits)
        (fraction-no_space p.fraction d.fraction_digits))

  pub print_comma-no_space : all no_space (print_comma p) ≡ true
  print_comma-no_space =
      all-append no_space (minus p.negative) (p.whole ++ behind_comma p.fraction)
        (minus-no_space p.negative)
        (all-append no_space p.whole (behind_comma p.fraction)
          (digits-no_space p.whole d.whole_digits) (comma-no_space p.fraction d.fraction_digits))
