-- ===== src/Base/Json.antt =====
-- Decoded JSON, as Python holds it. Numbers are integers: the bridge reads no other.
use Prim.Native.Nat.{zero, suc}
use mathlib.Core.Bool.{Bool, true, false}
use mathlib.Core.List.{List, [], ◌∷◌}
use mathlib.Core.Option.{Option, none, some}
use foreman_dispatch_bridge.Base.Tests.{if◌then◌else◌}
use foreman_dispatch_bridge.Base.Text.{Text, ◌==◌}
use foreman_dispatch_bridge.Base.Int.{ℤ, pos, negsuc}

mutual
  pub data Json : Type 0 where
    null : Json
    boolean : Bool → Json
    num : ℤ → Json
    str : Text → Json
    arr : Items → Json
    obj : Fields → Json

  pub data Items : Type 0 where
    nil : Items
    cons : Json → Items → Items

  pub data Fields : Type 0 where
    end : Fields
    field : Text → Json → Fields → Fields

abbrev pub items : Items → List Json
items nil = []
items (cons j js) = j ∷ items js

-- The dict's value at a key; `none` if the key is missing.
unfoldable pub find : Text → Fields → Option Json
find k end = none
find k (field j v fs) = if k == j then some v else find k fs

-- `d.get(k)`: a missing key reads as `None`.
unfoldable pub get : Text → Fields → Json
unfolding find
get k fs = elim (find k fs) [ none ↦ null | some v ↦ v ]

-- `bool(v)`
abbrev pub truthy : Json → Bool
truthy null = false
truthy (boolean b) = b
truthy (num (pos zero)) = false
truthy (num (pos (suc n))) = true
truthy (num (negsuc n)) = true
truthy (str []) = false
truthy (str (c ∷ s)) = true
truthy (arr nil) = false
truthy (arr (cons j js)) = true
truthy (obj end) = false
truthy (obj (field k v fs)) = true

-- `a or b`
abbrev pub or_else : Json → Json → Json
or_else a b = if truthy a then a else b

-- Python's `int`: its Booleans are integers too, and keep their text.
pub data Integer : Type 0 where
  integer : ℤ → Integer
  truth : Bool → Integer

-- `v if isinstance(v, int) else None`
abbrev pub to_integer : Json → Option Integer
to_integer (num n) = some (integer n)
to_integer (boolean b) = some (truth b)
to_integer _ = none
