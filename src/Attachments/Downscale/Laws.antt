-- ===== src/Attachments/Downscale/Laws.antt =====
-- The size that frontend/src/attachments/downscale.ts scales an image to.
use my_cars.Prelude.{
  ℕ, ◌+◌, ◌*◌, ◌^◌, ◌≤◌, ◌<◌, ◌≡◌, refl, ◌⊎◌, inl, inr, Bool-cases, none, some, leb, max, arith,
}
use my_cars.Attachments.Downscale.{Images, Size, factor, scaled_edge, scaled_size}
use my_cars.Attachments.Downscale.Rounding.{Near, rounded_le, le_rounded}

-- What IEEE 754 and ECMAScript say of doubles, for whole numbers below 2 ^ 32: a double that is not
-- negative is a fraction; the quotient of two whole numbers, and the product of a third one with it,
-- are those of the fractions up to one part in 2 ^ 53; and `Math.round` rounds half up.
pub record IsDoubles {N : Type 0} (im : Images N) : Type 0 where
  pub num : N → ℕ
  pub den : N → ℕ
  pub den_pos : (a : N) → 1 ≤ den a
  pub over_near :
      (m l : ℕ)
      → 1 ≤ l
      → m < 2 ^ 32
      → l < 2 ^ 32
      → Near (num (factor im m l) * l) (m * den (factor im m l))
  pub times_near :
      (x m l : ℕ)
      → 1 ≤ l
      → x < 2 ^ 32
      → m < 2 ^ 32
      → l < 2 ^ 32
      → Near
          (num (im.times (im.double x) (factor im m l)) * den (factor im m l))
          (x * num (factor im m l) * den (im.times (im.double x) (factor im m l)))
  pub round_half_up :
      (x m l : ℕ)
      → 1 ≤ l
      → x < 2 ^ 32
      → m < 2 ^ 32
      → l < 2 ^ 32
      → let p = im.times (im.double x) (factor im m l) in
        (2 * (den p * im.round p) ≤ 2 * num p + den p)
        × (2 * num p + den p < 2 * (den p * (im.round p + 1)))

module _ {N : Type 0} (im : Images N) (doubles : IsDoubles im) (x m l : ℕ) (some_length : 1 ≤ l)
    (small_x : x < 2 ^ 32) (small_m : m < 2 ^ 32) (small_l : l < 2 ^ 32) where
  -- An edge of at most the longer one comes out at most at the limit, and the longer one at it.
  round_le : x ≤ l → im.round (im.times (im.double x) (factor im m l)) ≤ m
  round_le h =
      let p = im.times (im.double x) (factor im m l) in
      rounded_le m l x (doubles.num (factor im m l)) (doubles.den (factor im m l)) (doubles.num p)
        (doubles.den p) (doubles.den_pos (factor im m l)) (doubles.den_pos p) (omega arith)
        (doubles.over_near m l some_length small_m small_l)
        (doubles.times_near x m l some_length small_x small_m small_l) (im.round p)
        (doubles.round_half_up x m l some_length small_x small_m small_l) h

  le_round : x ≡ l → m ≤ im.round (im.times (im.double x) (factor im m l))
  le_round h =
      let p = im.times (im.double x) (factor im m l) in
      le_rounded m l x (doubles.num (factor im m l)) (doubles.den (factor im m l)) (doubles.num p)
        (doubles.den p) (doubles.den_pos (factor im m l)) (doubles.den_pos p) (omega arith)
        (doubles.over_near m l some_length small_m small_l)
        (doubles.times_near x m l some_length small_x small_m small_l) (im.round p)
        (doubles.round_half_up x m l some_length small_x small_m small_l) h

-- Where doubles keep to IEEE 754, for an image of edges below 2 ^ 32 and a limit of at least 1: the
-- image is scaled exactly when its longer edge is over the limit; then its longer edge comes out at
-- the limit, and both edges lie between 1 and the limit.
pub scaled_size_lem :
    {N : Type 0} (im : Images N) (doubles : IsDoubles im) (width height max_edge : ℕ)
    → 1 ≤ max_edge
    → width < 2 ^ 32
    → height < 2 ^ 32
    → ((scaled_size im width height max_edge ≡ none) × (max width height ≤ max_edge))
      ⊎ ((s : Size) × (scaled_size im width height max_edge ≡ some s)
          × (max_edge < max width height)
          × (max s.width s.height ≡ max_edge)
          × (1 ≤ s.width)
          × (1 ≤ s.height))
unfolding scaled_size
scaled_size_lem im doubles width height m h small_w small_h =
    let l = max width height in
    elim (Bool-cases (leb l m)) [
      | inl fits ↦ inl (rw fits refl, ground arith)
      | inr high ↦
          let over : m < l = ground arith in
          let some_length : 1 ≤ l = omega arith in
          let small_m : m < 2 ^ 32 = omega arith in
          let small_l : l < 2 ^ 32 = omega arith in
          let w = round_le im doubles width m l some_length small_w small_m small_l (omega arith) in
          let h' =
            round_le im doubles height m l some_length small_h small_m small_l (omega arith) in
          let one_is_longer : (width ≡ l) ⊎ (height ≡ l) = omega arith in
          let longest : max (scaled_edge im width (factor im m l))
                (scaled_edge im height (factor im m l))
              ≡ m =
            elim one_is_longer [
              | inl e ↦ omega (
                arith,
                w,
                h',
                le_round im doubles width m l some_length small_w small_m small_l e,
              )
              | inr e ↦ omega (
                arith,
                w,
                h',
                le_round im doubles height m l some_length small_h small_m small_l e,
              )
            ] in
          inr (
            record {
              width = scaled_edge im width (factor im m l);
              height = scaled_edge im height (factor im m l);
            },
            rw high refl,
            over,
            longest,
            omega arith,
            omega arith,
          )
    ]
