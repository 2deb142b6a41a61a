-- ===== src/Prelude/Floats.antt =====
-- IEEE double arithmetic as CPython provides it. A float is its 64-bit pattern; the operations are
-- parameters.
use misscomputer_subnet.Prelude.Int.{ℤ}
use Prim.Native.Nat.{ℕ}
use mathlib.Core.Bool.{Bool}
use mathlib.Core.Option.{Option}
use mathlib.Core.List.{List}

pub record Floats : Type 0 where
  pub zero_float : ℕ
  pub one_float : ℕ
  pub is_finite : ℕ → Bool
  pub lt_float : ℕ → ℕ → Bool
  pub le_float : ℕ → ℕ → Bool
  pub add_float : ℕ → ℕ → ℕ
  pub sub_float : ℕ → ℕ → ℕ
  pub div_float : ℕ → ℕ → ℕ
  -- `math.fsum`
  pub fsum : List ℕ → ℕ
  -- `math.isclose(x, 1.0, rel_tol=0.0, abs_tol=1e-15)`
  pub is_close_to_one : ℕ → Bool
  -- `float(n)`, `none` where it overflows
  pub of_int : ℤ → Option ℕ
