-- ===== src/Prelude/Json.antt =====
-- A decoded JSON document. A number keeps Python's two kinds apart; a float is its 64-bit pattern.
use misscomputer_subnet.Prelude.Texts.{Text, text_eq}
use misscomputer_subnet.Prelude.Tests.{if◌then◌else◌}
use misscomputer_subnet.Prelude.Int.{ℤ}
use Prim.Native.Nat.{ℕ}
use mathlib.Core.Bool.{Bool}
use mathlib.Core.Option.{Option, none, some}

mutual
  pub data Json : Type 0 where
    null : Json
    boolean : Bool → Json
    integer : ℤ → Json
    float : ℕ → Json
    text : Text → Json
    array : Items → Json
    object : Fields → Json

  pub data Items : Type 0 where
    nil : Items
    cons : Json → Items → Items

  pub data Fields : Type 0 where
    end : Fields
    field : Text → Json → Fields → Fields

-- `document.get(key)`: a later field of the same key has replaced an earlier one
unfoldable pub get : Text → Fields → Option Json
get key end = none
get key (field k v rest) = elim (get key rest) [
  | some w ↦ some w
  | none ↦ if text_eq k key then some v else none
]
