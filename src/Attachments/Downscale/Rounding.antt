-- ===== src/Attachments/Downscale/Rounding.antt =====
-- A product of doubles that is rounded to a whole number: errors of at most one part in 2 ^ 53.
use native.Mathlib.Nat.{mul-le-mul_left, le_of_mul-le-mul_left}
use my_cars.Prelude.{ℕ, ◌+◌, ◌-◌, ◌*◌, ◌^◌, ◌≤◌, ◌<◌, ◌≡◌, ap, ◌⊎◌, inl, inr, arith}

abbrev pub parts : ℕ
parts = 2 ^ 53

-- A value is one of a number, up to a part of it.
abbrev pub Near : ℕ → ℕ → Type 0
Near a b = (parts * a ≤ (parts + 1) * b) × ((parts - 1) * b ≤ parts * a)

le_or_lt : (m n : ℕ) → (m ≤ n) ⊎ (n < m)
le_or_lt m n = omega arith

-- A quotient `a / b` near `m / l`, and a product `c / d` near `x * (a / b)`.
module _ (m l x a b c d : ℕ) (some_b : 1 ≤ b) (some_d : 1 ≤ d) (small : m ≤ 2 ^ 32)
    (quotient : Near (a * l) (m * b)) (product : Near (c * b) (x * a * d)) where
  product_above : x ≤ l → parts * parts * c ≤ (parts + 1) * (parts + 1) * (m * d)
  product_above h =
      le_of_mul-le-mul_left {k = b}
        (omega (arith, product.0, mul-le-mul_left (a * d) h, mul-le-mul_left d quotient.0)) some_b

  product_below : x ≡ l → (parts - 1) * (parts - 1) * (m * d) ≤ parts * parts * c
  product_below h =
      le_of_mul-le-mul_left {k = b}
        (omega (arith, product.1, ap (λ y. y * (a * d)) h, mul-le-mul_left d quotient.1)) some_b

  -- Rounded half up, the product is at most `m`, and no less where `x` is `l`.
  module _ (k : ℕ) (rounded : (2 * (d * k) ≤ 2 * c + d) × (2 * c + d < 2 * (d * (k + 1)))) where
    pub rounded_le : x ≤ l → k ≤ m
    rounded_le h = elim (le_or_lt k m) [
      | inl e ↦ e
      | inr e ↦
          absurd (omega (arith, product_above h, mul-le-mul_left d e, mul-le-mul_left d small))
    ]

    pub le_rounded : x ≡ l → m ≤ k
    le_rounded h = elim (le_or_lt m k) [
      | inl e ↦ e
      | inr e ↦
          absurd (omega (arith, product_below h, mul-le-mul_left d e, mul-le-mul_left d small))
    ]
