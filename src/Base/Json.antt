-- ===== src/Base/Json.antt =====
-- What `JSON.parse` gives. An object is its own properties, in their order.
use Prim.Native.Nat.{ℕ}
use Prim.Native.String.{String}
use mathlib.Core.Bool.{Bool}
use mathlib.Core.Option.{Option, none, some}
use text.Mathlib.Text.{◌==◌}
use aws_access_bridge.Base.Tests.{if◌then◌else◌}

mutual
  pub data Json : Type 0 where
    null_value : Json
    boolean : Bool → Json
    natural : ℕ → Json
    -- A number that is no natural number.
    other_number : Json
    string : String → Json
    array : Elements → Json
    object : Properties → Json

  pub data Elements : Type 0 where
    no_more : Elements
    element : Json → Elements → Elements

  pub data Properties : Type 0 where
    empty : Properties
    property : String → Json → Properties → Properties

-- `undefined` where there is none.
unfoldable pub property_of : String → Properties → Option Json
property_of key empty = none
property_of key (property k value rest) =
    let other = property_of key rest in if k == key then some value else other
