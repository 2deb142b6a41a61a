-- ===== src/Prelude/Gcd.antt =====
-- Euclid's algorithm, by which `fractions.Fraction` reduces.
use Prim.Native.Nat.{ℕ, zero, suc, ◌%◌, ◌<◌, ◌∣◌}
use mathlib.Core.WellFounded.{Acc}
use native.Mathlib.Nat
use native.Mathlib.Omega.{arith}

below_acc : (bound n : ℕ) → n < bound → Acc ◌<◌ n
below_acc zero n h = absurd (omega arith)
below_acc (suc bound) n h = Acc.intro n (λ m l. below_acc bound m (omega arith))

remainder-lt : (a c : ℕ) → a % suc c < suc c
remainder-lt a c = omega arith

-- `while b: a, b = b, a % b`
gcd_loop : (a b : ℕ) → Acc ◌<◌ b → ℕ
gcd_loop a b (Acc.intro zero _) = a
gcd_loop a b (Acc.intro (suc c) below) =
    gcd_loop (suc c) (a % suc c) (below (a % suc c) (remainder-lt a c))

unfoldable pub gcd : ℕ → ℕ → ℕ
unfolding gcd_loop below_acc remainder-lt
gcd a b = gcd_loop a b (below_acc (suc b) b (omega arith))

gcd_loop-divides : (a b : ℕ) (w : Acc ◌<◌ b) → (gcd_loop a b w ∣ a) × (gcd_loop a b w ∣ b)
unfolding gcd_loop
gcd_loop-divides a b (Acc.intro zero _) = (Nat.dvd_refl a, Nat.dvd-zero a)
gcd_loop-divides a b (Acc.intro (suc c) below) =
    let (of_divisor, of_rest) =
      gcd_loop-divides (suc c) (a % suc c) (below (a % suc c) (remainder-lt a c)) in
    ((Nat.dvd-mod_iff _ of_divisor).0 of_rest, of_divisor)

pub gcd-divides : (a b : ℕ) → (gcd a b ∣ a) × (gcd a b ∣ b)
unfolding gcd
gcd-divides a b = gcd_loop-divides a b (below_acc (suc b) b (omega arith))
