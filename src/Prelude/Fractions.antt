-- ===== src/Prelude/Fractions.antt =====
-- `fractions.Fraction` of numbers that are not negative, with a positive denominator.
use Prim.Native.Nat.{ℕ, zero, suc, ◌+◌, ◌*◌, ◌/◌, ◌≤◌, ◌<◌}
use mathlib.Core.Path.{◌≡◌, ap}
use native.Mathlib.Nat.{
  div-mul_cancel, le_of_mul-le-mul_right, mul-le-mul_right, mul-pos, mul_comm, mul_assoc,
}
use native.Mathlib.Omega.{arith}
use misscomputer_subnet.Prelude.Gcd.{gcd, gcd-divides}

pub record Fraction : Type 0 where
  pub numerator : ℕ
  pub denominator : ℕ

-- `Fraction(n, d)`
unfoldable pub fraction : (n d : ℕ) → Fraction
fraction n d = record { numerator = n / gcd n d; denominator = d / gcd n d }

-- `a + b`
unfoldable pub add_fractions : Fraction → Fraction → Fraction
unfolding fraction
add_fractions a b =
    fraction (a.numerator * b.denominator + b.numerator * a.denominator)
      (a.denominator * b.denominator)

-- `a / n`
unfoldable pub divide_fraction : Fraction → ℕ → Fraction
unfolding fraction
divide_fraction a n = fraction a.numerator (a.denominator * n)

scaled : (q r g n d : ℕ) → q * g ≡ n → r * g ≡ d → q * d ≡ n * r
scaled q r g n d a b = rw (← a, ← b) (grind arith)

scaled_pos : (r g d : ℕ) → r * g ≡ d → 0 < d → 0 < r
scaled_pos zero g d b h = absurd (grind arith)
scaled_pos (suc r) g d b h = omega arith

-- A reduced fraction has the same value.
pub fraction-value : (n d : ℕ) → (fraction n d).numerator * d ≡ n * (fraction n d).denominator
unfolding fraction
fraction-value n d =
    let (left, right) = gcd-divides n d in
    let a : n / gcd n d * gcd n d ≡ n = div-mul_cancel (gcd n d) left in
    let b : d / gcd n d * gcd n d ≡ d = div-mul_cancel (gcd n d) right in
    scaled (n / gcd n d) (d / gcd n d) (gcd n d) n d a b

pub fraction-pos : (n d : ℕ) → 0 < d → 0 < (fraction n d).denominator
unfolding fraction
fraction-pos n d h =
    let (left, right) = gcd-divides n d in
    let b : d / gcd n d * gcd n d ≡ d = div-mul_cancel (gcd n d) right in
    scaled_pos (d / gcd n d) (gcd n d) d b h

-- Reduction keeps a bound by a whole number.
pub fraction-le :
    (c n d : ℕ) → n ≤ c * d → 0 < d → (fraction n d).numerator ≤ c * (fraction n d).denominator
fraction-le c n d h k =
    let r = (fraction n d).denominator in
    le_of_mul-le-mul_right {k = d}
      (omega (
        arith,
        fraction-value n d,
        mul-le-mul_right r h,
        mul_assoc c d r,
        mul_assoc c r d,
        ap (◌*◌ c) (mul_comm d r),
      ))
      k

-- A sum of fractions of at most `c` and at most one is at most `c + 1`.
pub add_fractions-le :
    (c : ℕ) (a b : Fraction)
    → a.numerator ≤ c * a.denominator
    → b.numerator ≤ b.denominator
    → 0 < a.denominator
    → 0 < b.denominator
    → (add_fractions a b).numerator ≤ suc c * (add_fractions a b).denominator
unfolding add_fractions
add_fractions-le c a b h k p q =
    fraction-le (suc c) _ (a.denominator * b.denominator)
      (omega (
        arith,
        mul-le-mul_right b.denominator h,
        mul-le-mul_right a.denominator k,
        mul_assoc c a.denominator b.denominator,
        mul_comm a.denominator b.denominator,
      ))
      (mul-pos p q)

pub add_fractions-pos :
    (a b : Fraction) → 0 < a.denominator → 0 < b.denominator → 0 < (add_fractions a b).denominator
unfolding add_fractions
add_fractions-pos a b p q = fraction-pos _ (a.denominator * b.denominator) (mul-pos p q)

-- The mean of `c` fractions of at most one is at most one.
pub divide_fraction-le :
    (c : ℕ) (a : Fraction)
    → a.numerator ≤ c * a.denominator
    → 0 < c
    → 0 < a.denominator
    → (divide_fraction a c).numerator ≤ (divide_fraction a c).denominator
unfolding divide_fraction
divide_fraction-le c a h k p = omega (
  arith,
  fraction-le 1 a.numerator (a.denominator * c) (omega (arith, mul_comm c a.denominator))
      (mul-pos p k),
)

pub divide_fraction-pos :
    (c : ℕ) (a : Fraction) → 0 < c → 0 < a.denominator → 0 < (divide_fraction a c).denominator
unfolding divide_fraction
divide_fraction-pos c a k p = fraction-pos a.numerator (a.denominator * c) (mul-pos p k)
