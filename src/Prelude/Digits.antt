-- ===== src/Prelude/Digits.antt =====
-- Decimal numerals: printing a number as String does, reading digits as Number and BigInt do.
use Prim.Native.Nat.{ℕ, zero, suc, ◌+◌, ◌-◌, ◌*◌, ◌/◌, ◌%◌, ◌^◌, ◌≤◌, ◌<◌}
use mathlib.Core.Path.{◌≡◌, refl, ◌∙◌}
use mathlib.Core.Logic.{◌≢◌, inl, inr}
use mathlib.Core.Bool.{true}
use mathlib.Core.List.{[], ◌∷◌, ◌++◌}
use native.Mathlib.Omega.{arith}
use native.Mathlib.Nat.{pow-suc}
use my_cars.Prelude.Tests.{ltb, if◌then◌else◌, Bool-cases}
use my_cars.Prelude.Lists.{length, all, all-append, length-append, replicate}
use my_cars.Prelude.Texts.{Text, is_digit}

-- The digits of a number, with fuel: one round for each digit.
digits : ℕ → ℕ → Text
digits zero n = []
digits (suc f) n =
    let more = digits f (n / 10) ++ (b'0' + n % 10) ∷ [] in
    if ltb n 10 then (b'0' + n) ∷ [] else more

-- `String(n)` and `n.toString()`.
unfoldable pub show : ℕ → Text
unfolding digits
show n = digits (suc n) n

read_from : ℕ → Text → ℕ
read_from n [] = n
read_from n (c ∷ s) = read_from (n * 10 + (c - b'0')) s

-- `Number(s)` and `BigInt(s)` of a text of digits.
unfoldable pub read_digits : Text → ℕ
unfolding read_from
read_digits s = read_from 0 s

read_from-append : (n : ℕ) (s t : Text) → read_from n (s ++ t) ≡ read_from (read_from n s) t
unfolding read_from
read_from-append n [] t = refl
read_from-append n (c ∷ s) t = read_from-append (n * 10 + (c - b'0')) s t

read_from-digits : (f n : ℕ) → n < f → read_from 0 (digits f n) ≡ n
unfolding digits read_from
read_from-digits zero n h = absurd (omega arith)
read_from-digits (suc f) n h = elim (Bool-cases (ltb n 10)) [
  | inl small ↦ rw small (omega arith)
  | inr big ↦
      rw big (rw (read_from-append, read_from-digits f (n / 10) (ground arith)) (omega arith))
]

-- Reading the digits of a number gives the number back.
pub read_digits-show : (n : ℕ) → read_digits (show n) ≡ n
unfolding show read_digits
read_digits-show n = read_from-digits (suc n) n (omega arith)

all_digits : (f n : ℕ) → all is_digit (digits f n) ≡ true
unfolding digits
all_digits zero n = refl
all_digits (suc f) n =
    ground (
      arith,
      all-append is_digit (digits f (n / 10)) ((b'0' + n % 10) ∷ []) (all_digits f (n / 10)),
    )

-- A printed number is made of digits.
pub show-digits : (n : ℕ) → all is_digit (show n) ≡ true
unfolding show
show-digits n = all_digits (suc n) n

length-digits : (f n k : ℕ) → n < 10 ^ suc k → length (digits f n) ≤ suc k
unfolding digits
length-digits zero n k b = omega arith
length-digits (suc f) n zero b = ground arith
length-digits (suc f) n (suc k) b =
    let b' : n < 10 ^ suc k * 10 = rw (← pow-suc) b in
    ground (
      arith,
      length-append (digits f (n / 10)) ((b'0' + n % 10) ∷ []),
      length-digits f (n / 10) k (omega arith),
    )

-- A number below a power of ten has no more digits than the power's exponent.
pub length-show : (n k : ℕ) → n < 10 ^ suc k → length (show n) ≤ suc k
unfolding show
length-show n k h = length-digits (suc n) n k h

-- Leading zeros do not count.
pub read_digits-zeros : (k : ℕ) (s : Text) → read_digits (replicate k b'0' ++ s) ≡ read_digits s
unfolding read_digits read_from
read_digits-zeros zero s = refl
read_digits-zeros (suc k) s = read_digits-zeros k s

read_from-linear : (n : ℕ) (s : Text) → read_from n s ≡ n * 10 ^ length s + read_from 0 s
unfolding read_from
read_from-linear n [] = omega arith
read_from-linear n (c ∷ s) =
    let d : ℕ = c - b'0' in
    rw pow-suc (omega (arith, read_from-linear (n * 10 + d) s, read_from-linear (0 * 10 + d) s))

pub read_digits-append :
    (s t : Text) → read_digits (s ++ t) ≡ read_digits s * 10 ^ length t + read_digits t
unfolding read_digits read_from
read_digits-append s t = read_from-append 0 s t ∙ read_from-linear (read_from 0 s) t

append_one-ne-nil : (s : Text) (c : ℕ) → s ++ c ∷ [] ≢ []
append_one-ne-nil [] c h = cc
append_one-ne-nil (d ∷ s) c h = cc

-- A number is printed with at least one digit.
pub show-ne-nil : (n : ℕ) → show n ≢ []
unfolding show digits
show-ne-nil n h = elim (Bool-cases (ltb n 10)) [
  | inl small ↦ cc (rw small at h)
  | inr big ↦ append_one-ne-nil _ _ (rw big at h)
]
