-- ===== src/Base/Json.antt =====
-- The values of a YAML or JSON document (numbers are integers), and Python's views of them.
use Prim.Native.Nat.{zero, suc}
use Prim.Native.String.{String}
use mathlib.Core.Path.{◌≡◌, refl}
use native.Mathlib.Omega.{arith}
use mathlib.Core.Bool.{Bool, true, false, not}
use mathlib.Core.Option.{Option, none, some}
use mathlib.Core.List.{List, [], ◌∷◌}
use r64_db_engine.Base.Tests.{if◌then◌else◌, string_eq, ◌==◌}
use r64_db_engine.Base.Texts.{is_empty}
use r64_db_engine.Base.Decimal.{ℤ, pos, negsuc}

mutual
  pub data Json : Type 0 where
    null : Json
    bool : Bool → Json
    num : ℤ → Json
    text : String → Json
    arr : Items → Json
    obj : Fields → Json

  pub data Items : Type 0 where
    nil : Items
    cons : Json → Items → Items

  pub data Fields : Type 0 where
    end : Fields
    field : String → Json → Fields → Fields

-- `d.get(k)` of a mapping
unfoldable pub get : String → Fields → Option Json
get k end = none
get k (field j v fs) = if k == j then some v else get k fs

-- `set(d)`
abbrev pub field_names : Fields → List String
field_names end = []
field_names (field k v fs) = k ∷ field_names fs

-- `list(v)` of a sequence
abbrev pub items : Items → List Json
items nil = []
items (cons v vs) = v ∷ items vs

-- `bool(v)`
abbrev pub truthy : Json → Bool
truthy null = false
truthy (bool b) = b
truthy (num (pos zero)) = false
truthy (num (pos (suc n))) = true
truthy (num (negsuc n)) = true
truthy (text s) = not (is_empty s)
truthy (arr nil) = false
truthy (arr (cons _ _)) = true
truthy (obj end) = false
truthy (obj (field _ _ _)) = true

-- `isinstance(v, dict)`
abbrev pub as_obj : Json → Option Fields
as_obj (obj fs) = some fs
as_obj _ = none

-- `isinstance(v, list)`
abbrev pub as_arr : Json → Option Items
as_arr (arr vs) = some vs
as_arr _ = none

-- `d[k] = v`: a key that is there keeps its place.
unfoldable pub set_field : String → Json → Fields → Fields
set_field k v end = field k v end
set_field k v (field j w fs) = if k == j then field k v fs else field j w (set_field k v fs)

pub get-set_field :
    (j k : String) (v : Json) (fs : Fields)
    → get j (set_field k v fs) ≡ (if j == k then some v else get j fs)
unfolding get set_field
get-set_field j k v end = refl
get-set_field j k v (field i w fs) = ground (arith, get-set_field j k v fs)
