-- ===== src/Money/Decimal/Parse.antt =====
-- The pattern of frontend/src/lib/decimal.ts, and the texts that it matches.
use mathlib.Core.Option.{some-injective}
use mathlib.Core.Path.{subst}
use my_cars.Prelude.{
  ℕ, ◌==◌, ◌≡◌, ◌≢◌, refl, sym, ap, ◌∙◌, ◌↔◌, inl, inr, Bool, true, false, [], ◌∷◌, ◌++◌, some,
  Text, is_digit, all, arith, Bool-cases, ==_iff, and_iff, append-nil,
}
use my_cars.Money.Decimal.{Parsed, digits_then, close, parse_split, parse_unsigned, parse}

abbrev pub minus : Bool → Text
minus true = b'-' ∷ []
minus false = []

abbrev pub behind_point : Text → Text
behind_point [] = []
behind_point (c ∷ f) = b'.' ∷ c ∷ f

abbrev pub body : Parsed → Text
body p = p.whole ++ behind_point p.fraction

-- The text with these parts.
abbrev pub print : Parsed → Text
print p = minus p.negative ++ body p

pub record IsDecimal (p : Parsed) : Type 0 where
  pub has_whole : p.whole ≢ []
  pub whole_digits : all is_digit p.whole ≡ true
  pub fraction_digits : all is_digit p.fraction ≡ true

digits_then-split :
    (s : Text)
    → (s ≡ (digits_then s).0 ++ (digits_then s).1) × (all is_digit (digits_then s).0 ≡ true)
digits_then-split [] = (refl, refl)
digits_then-split (c ∷ s) = elim (Bool-cases (is_digit c)) [
  | inl d ↦ rw d (rw d (ap (λ t. c ∷ t) (digits_then-split s).0, (digits_then-split s).1))
  | inr d ↦ rw d (refl, refl)
]

-- A text that begins with no digit.
abbrev pub Stops : Text → Type 0
Stops [] = Unit
Stops (c ∷ s) = is_digit c ≡ false

pub digits_then-append :
    (w r : Text) → all is_digit w ≡ true → Stops r → digits_then (w ++ r) ≡ (w, r)
digits_then-append [] [] h stop = refl
digits_then-append [] (c ∷ r) h stop = rw stop
digits_then-append (c ∷ w) r h stop =
    let (d, ds) = (and_iff (is_digit c) (all is_digit w)).0 h in
    rw (d, digits_then-append w r ds stop)

record Closes (negative : Bool) (w rest : Text) (p : Parsed) : Type 0 where
  same_sign : p.negative ≡ negative
  same_whole : p.whole ≡ w
  digits : all is_digit p.fraction ≡ true
  text : behind_point p.fraction ≡ b'.' ∷ rest

close-Closes :
    (negative : Bool) (w rest : Text) (p : Parsed) (y : Text × Text)
    → rest ≡ y.0 ++ y.1
    → all is_digit y.0 ≡ true
    → close negative w y ≡ some p
    → Closes negative w rest p
close-Closes negative w rest p (e ∷ f, []) same digits h =
    subst (λ q. Closes negative w rest q) (some-injective _ _ h)
      (record {
        same_sign = refl;
        same_whole = refl;
        digits = digits;
        text = ap (λ t. b'.' ∷ t) (sym (same ∙ append-nil (e ∷ f)));
      })
close-Closes negative w rest p _ same digits h = cc

-- What it takes to parse an unsigned text to these parts.
record Fits (negative : Bool) (s : Text) (p : Parsed) : Type 0 where
  same_sign : p.negative ≡ negative
  decimal : IsDecimal p
  text : s ≡ body p

parse_split-Fits :
    (negative : Bool) (p : Parsed) (x : Text × Text)
    → all is_digit x.0 ≡ true
    → parse_split negative x ≡ some p
    → Fits negative (x.0 ++ x.1) p
parse_split-Fits negative p ([], rest) digits h = cc
parse_split-Fits negative p (c ∷ w, []) digits h =
    subst (λ q. Fits negative ((c ∷ w) ++ []) q) (some-injective _ _ h)
      (record {
        same_sign = refl;
        decimal = record { has_whole = cc; whole_digits = digits; fraction_digits = refl };
        text = refl;
      })
parse_split-Fits negative p (c ∷ w, d ∷ rest) digits h = elim (Bool-cases (d == b'.')) [
  | inr other ↦ cc (rw other at h)
  | inl point ↦
      let s = digits_then-split rest in
      let k = close-Closes negative (c ∷ w) rest p (digits_then rest) s.0 s.1 (rw point at h) in
      record {
        same_sign = k.same_sign;
        decimal = record {
          has_whole = rw k.same_whole (cc);
          whole_digits = rw k.same_whole digits;
          fraction_digits = k.digits;
        };
        text = rw (k.same_whole, k.text, (==_iff d b'.').0 point);
      }
]

parse_unsigned-Fits :
    (negative : Bool) (s : Text) (p : Parsed)
    → parse_unsigned negative s ≡ some p
    → Fits negative s p
parse_unsigned-Fits negative s p h =
    let split = digits_then-split s in
    subst (λ t. Fits negative t p) (sym split.0)
      (parse_split-Fits negative p (digits_then s) split.1 h)

print_of_Fits :
    (negative : Bool) (s : Text) (p : Parsed) → Fits negative s p → minus negative ++ s ≡ print p
print_of_Fits negative s p h = rw (h.same_sign, ← h.text)

pub parse_sound : (v : Text) (p : Parsed) → parse v ≡ some p → IsDecimal p × (v ≡ print p)
unfolding parse
parse_sound [] p h = cc
parse_sound (c ∷ s) p h = elim (Bool-cases (c == b'-')) [
  | inl dash ↦
      let f = parse_unsigned-Fits true s p (rw dash at h) in
      (f.decimal, rw ((==_iff c b'-').0 dash) (print_of_Fits true s p f))
  | inr other ↦
      let f = parse_unsigned-Fits false (c ∷ s) p (rw other at h) in
      (f.decimal, print_of_Fits false (c ∷ s) p f)
]

pub digits_then-all : (f : Text) → all is_digit f ≡ true → digits_then f ≡ (f, [])
digits_then-all f h = ap digits_then (sym (append-nil f)) ∙ digits_then-append f [] h tt

parse_unsigned-body :
    (negative : Bool) (w f : Text)
    → w ≢ []
    → all is_digit w ≡ true
    → all is_digit f ≡ true
    → parse_unsigned negative (w ++ behind_point f)
      ≡ some (record { negative = negative; whole = w; fraction = f })
parse_unsigned-body negative [] f ne hw hf = absurd (ne refl)
parse_unsigned-body negative (c ∷ w) [] ne hw hf = rw (digits_then-append (c ∷ w) [] hw tt)
parse_unsigned-body negative (c ∷ w) (d ∷ f) ne hw hf =
    ap (parse_split negative) (digits_then-append (c ∷ w) (b'.' ∷ d ∷ f) hw refl)
    ∙ ap (close negative (c ∷ w)) (digits_then-all (d ∷ f) hf)

pub digit_is_no_dash : (c : ℕ) → is_digit c ≡ true → (c == b'-') ≡ false
digit_is_no_dash c h = ground arith

parse-parts :
    (negative : Bool) (w f : Text)
    → w ≢ []
    → all is_digit w ≡ true
    → all is_digit f ≡ true
    → parse (minus negative ++ (w ++ behind_point f))
      ≡ some (record { negative = negative; whole = w; fraction = f })
unfolding parse
parse-parts true w f ne hw hf = parse_unsigned-body true w f ne hw hf
parse-parts false [] f ne hw hf = absurd (ne refl)
parse-parts false (c ∷ w) f ne hw hf =
    rw (digit_is_no_dash c ((and_iff (is_digit c) (all is_digit w)).0 hw).0)
      (parse_unsigned-body false (c ∷ w) f ne hw hf)

pub parse_complete : (p : Parsed) → IsDecimal p → parse (print p) ≡ some p
parse_complete p h =
    parse-parts p.negative p.whole p.fraction h.has_whole h.whole_digits h.fraction_digits

-- A text parses to these parts exactly when they are a decimal's parts (a whole part of one digit
-- or more, a fraction of digits) and the text is their print.
pub parse_iff : (v : Text) (p : Parsed) → (parse v ≡ some p) ↔ (IsDecimal p × (v ≡ print p))
parse_iff v p = (parse_sound v p, λ (h, e). rw e (parse_complete p h))
