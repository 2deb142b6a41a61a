-- ===== src/Prelude/Results.antt =====
-- A call that returns a value or raises.
use mathlib.Core.Bool.{Bool, true, false}

pub data Result (E A : Type 0) : Type 0 where
  ok : A → Result E A
  err : E → Result E A

module _ {E : Type 0} where
  infixl 5 ◌>>=◌ ◌>>◌
  abbrev pub ◌>>=◌ : {A B : Type 0} → Result E A → (A → Result E B) → Result E B
  ◌>>=◌ call next = elim call [ err e ↦ err e | ok a ↦ next a ]

  abbrev pub ◌>>◌ : {B : Type 0} → Result E (Unit {0}) → Result E B → Result E B
  ◌>>◌ check next = elim check [ err e ↦ err e | ok _ ↦ next ]

  -- `if test: raise e`
  abbrev pub raise_if : Bool → E → Result E (Unit {0})
  raise_if test e = elim test [ true ↦ err e | false ↦ ok tt ]
