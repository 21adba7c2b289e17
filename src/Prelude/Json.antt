-- ===== src/Prelude/Json.antt =====
-- JSON values as `JSON.parse` returns them. A string value is the list of its UTF-16 code units.
use kootha.Prelude.Number.{Number}
use kootha.Prelude.Tests.{if◌then◌else◌}
use kootha.Prelude.Lists.{str_eq}
use Prim.Native.Nat.{ℕ, suc}
use Prim.Native.String.{String}
use mathlib.Core.Bool.{Bool}
use mathlib.Core.Option.{Option, none, some}
use mathlib.Core.List.{List, [], ◌∷◌}

abbrev pub Text : Type 0
Text = List ℕ

mutual
  pub data Fields : Type 0 where
    end : Fields
    field : String → Value → Fields → Fields

  pub data Value : Type 0 where
    obj : Fields → Value
    arr : Items → Value
    str : Text → Value
    num : Number → Value
    bool : Bool → Value
    null : Value

  pub data Items : Type 0 where
    no_items : Items
    item : Value → Items → Items

-- `value.key`: `none` is `undefined`.
unfoldable pub get_field : String → Fields → Option Value
get_field key end = none
get_field key (field k v rest) = if str_eq k key then some v else get_field key rest

abbrev pub count_items : Items → ℕ
count_items no_items = 0
count_items (item v vs) = suc (count_items vs)

abbrev pub items_list : Items → List Value
items_list no_items = []
items_list (item v vs) = v ∷ items_list vs
