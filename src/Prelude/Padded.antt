-- ===== src/Prelude/Padded.antt =====
-- Texts of digits of one length: they are told apart, and ordered, by the numbers that they spell.
use Prim.Native.Nat.{ℕ, zero, suc, ◌+◌, ◌-◌, ◌*◌, ◌^◌, ◌≤◌, ◌<◌}
use mathlib.Core.Path.{◌≡◌, refl, sym, ◌∙◌, ap, ap₂}
use mathlib.Core.Logic.{inl, inr}
use mathlib.Core.Bool.{true}
use mathlib.Core.List.{[], ◌∷◌}
use native.Mathlib.Omega.{arith}
use native.Mathlib.Nat.{pow-suc}
use my_cars.Prelude.Tests.{leb, ◌==◌, if◌then◌else◌, Bool-cases, and_iff}
use my_cars.Prelude.Lists.{length, all, all-append, length-append, length-replicate, replicate}
use my_cars.Prelude.Texts.{Text, is_digit, text_le, pad_start}
use my_cars.Prelude.Digits.{
  show, show-digits, length-show, read_digits, read_digits-show, read_digits-append,
  read_digits-zeros,
}

one_digit : (c : ℕ) → read_digits (c ∷ []) ≡ c - b'0'
unfolding read_digits
one_digit c = omega arith

pub read_digits-cons :
    (c : ℕ) (s : Text) → read_digits (c ∷ s) ≡ (c - b'0') * 10 ^ length s + read_digits s
read_digits-cons c s = rw (read_digits-append (c ∷ []) s, one_digit c)

-- A text of n digits spells a number below 10 ^ n.
pub read_digits_bound : (s : Text) → all is_digit s ≡ true → read_digits s < 10 ^ length s
unfolding read_digits
read_digits_bound [] h = omega arith
read_digits_bound (c ∷ s) h =
    let (d, ds) = (and_iff (is_digit c) (all is_digit s)).0 h in
    let small : c - b'0' ≤ 9 = ground arith in
    let rest = read_digits_bound s ds in rw (read_digits-cons, pow-suc) (grind (arith, small, rest))

-- Two numbers are compared by their quotients first.
lex_lt : (p a b x y : ℕ) → a < b → x < p → a * p + x < b * p + y
lex_lt p a b x y h k = grind arith

lex_eq : (p a b x y : ℕ) → x < p → y < p → a * p + x ≡ b * p + y → (a ≡ b) × (x ≡ y)
lex_eq p a b x y hx hy e =
    let same : a ≡ b = ground (arith, lex_lt p a b x y, lex_lt p b a y x) in
    (same, omega (arith, ap (λ (n : ℕ). n * p) same))

-- A first digit, and what is behind it.
module _ (p x y c d : ℕ) (hx : x < p) (hy : y < p) (hc : is_digit c ≡ true)
    (hd : is_digit d ≡ true) where
  digit_bounds : (b'0' ≤ c) × (b'0' ≤ d)
  digit_bounds = ground arith

  first_le : (if c == d then leb x y else leb c d) ≡ leb ((c - b'0') * p + x) ((d - b'0') * p + y)
  first_le = elim (Bool-cases (c == d)) [
    | inl e ↦ let same : c ≡ d = ground arith in rw e (rw same (ground arith))
    | inr e ↦ ground (
      arith,
      digit_bounds,
      lex_lt p (c - b'0') (d - b'0') x y,
      lex_lt p (d - b'0') (c - b'0') y x,
    )
  ]

  first_eq : (c - b'0') * p + x ≡ (d - b'0') * p + y → (c ≡ d) × (x ≡ y)
  first_eq e =
      let h = lex_eq p (c - b'0') (d - b'0') x y hx hy e in (omega (arith, digit_bounds, h.0), h.1)

-- Of two texts of digits of one length, the order as strings is the order of the numbers.
pub text_le-digits :
    (s t : Text)
    → length s ≡ length t
    → all is_digit s ≡ true
    → all is_digit t ≡ true
    → text_le s t ≡ leb (read_digits s) (read_digits t)
unfolding read_digits
text_le-digits [] [] l hs ht = refl
text_le-digits [] (d ∷ t) l hs ht = absurd (omega arith)
text_le-digits (c ∷ s) [] l hs ht = absurd (omega arith)
text_le-digits (c ∷ s) (d ∷ t) l hs ht =
    let (hc, hs') = (and_iff (is_digit c) (all is_digit s)).0 hs in
    let (hd, ht') = (and_iff (is_digit d) (all is_digit t)).0 ht in
    let l' : length s ≡ length t = omega (arith, l) in
    ap (λ b. if c == d then b else leb c d) (text_le-digits s t l' hs' ht')
    ∙ first_le (10 ^ length t) (read_digits s) (read_digits t) c d
        (rw l' at (read_digits_bound s hs')) (read_digits_bound t ht') hc hd
    ∙ rw (read_digits-cons c s, read_digits-cons d t, l')

pub digits_unique :
    (s t : Text)
    → length s ≡ length t
    → all is_digit s ≡ true
    → all is_digit t ≡ true
    → read_digits s ≡ read_digits t
    → s ≡ t
digits_unique [] [] l hs ht e = refl
digits_unique [] (d ∷ t) l hs ht e = absurd (omega arith)
digits_unique (c ∷ s) [] l hs ht e = absurd (omega arith)
digits_unique (c ∷ s) (d ∷ t) l hs ht e =
    let (hc, hs') = (and_iff (is_digit c) (all is_digit s)).0 hs in
    let (hd, ht') = (and_iff (is_digit d) (all is_digit t)).0 ht in
    let l' : length s ≡ length t = omega (arith, l) in
    let h =
      first_eq (10 ^ length t) (read_digits s) (read_digits t) c d
        (rw l' at (read_digits_bound s hs')) (read_digits_bound t ht') hc hd
        (rw (read_digits-cons c s, read_digits-cons d t, l') at e) in
    ap₂ ◌∷◌ h.0 (digits_unique s t l' hs' ht' h.1)

-- `String(n).padStart(k, '0')` of a number with at most k digits: k digits that spell it.
module _ (n k : ℕ) (h : n < 10 ^ suc k) where
  pub length-padded : length (pad_start (suc k) b'0' (show n)) ≡ suc k
  length-padded =
      let m = suc k - length (show n) in
      omega (
        arith,
        length-append (replicate m b'0') (show n),
        length-replicate {A = ℕ} m b'0',
        length-show n k h,
      )

  pub read_digits-padded : read_digits (pad_start (suc k) b'0' (show n)) ≡ n
  read_digits-padded = read_digits-zeros (suc k - length (show n)) (show n) ∙ read_digits-show n

all-zeros : (m : ℕ) → all is_digit (replicate m b'0') ≡ true
all-zeros zero = refl
all-zeros (suc m) = all-zeros m

pub padded-digits : (n k : ℕ) → all is_digit (pad_start k b'0' (show n)) ≡ true
padded-digits n k =
    all-append is_digit (replicate (k - length (show n)) b'0') (show n)
      (all-zeros (k - length (show n))) (show-digits n)

-- A text of digits is the padded print of the number that it spells.
pub padded_of_digits :
    (k : ℕ) (s : Text)
    → length s ≡ suc k
    → all is_digit s ≡ true
    → pad_start (suc k) b'0' (show (read_digits s)) ≡ s
padded_of_digits k s l h =
    let small : read_digits s < 10 ^ suc k = rw l at (read_digits_bound s h) in
    digits_unique (pad_start (suc k) b'0' (show (read_digits s))) s
      (length-padded (read_digits s) k small ∙ sym l) (padded-digits (read_digits s) (suc k)) h
      (read_digits-padded (read_digits s) k small)
