-- ===== src/Base/Json.antt =====
-- Values decoded by Go's `encoding/json` into `interface{}`. A number is kept as the integer that
-- the conversion `int(x)` makes of it: the code reads no more of a number.
use Prim.Native.Nat.{ℕ}
use Prim.Native.String.{String}
use mathlib.Core.Bool.{Bool}
use mathlib.Core.List.{List, [], ◌∷◌}
use mathlib.Core.Option.{Option, none, some}

-- `negsuc n` is -(n + 1).
pub data ℤ : Type 0 where
  pos : ℕ → ℤ
  negsuc : ℕ → ℤ

mutual
  pub data Value : Type 0 where
    null : Value
    boolean : Bool → Value
    number : ℤ → Value
    text : String → Value
    array : Items → Value
    object : Fields → Value

  pub data Items : Type 0 where
    nil : Items
    cons : Value → Items → Items

  pub data Fields : Type 0 where
    end : Fields
    field : String → Value → Fields → Fields

-- The fields of an object, in the order of an iteration over the map.
abbrev pub fields : Fields → List (String × Value)
fields end = []
fields (field k v fs) = (k, v) ∷ fields fs

-- The type assertions `v.(string)`, `v.(float64)` with `int`, and `v.(map[string]interface{})`.
abbrev pub as_string : Value → Option String
as_string (text s) = some s
as_string _ = none

abbrev pub as_int : Value → Option ℤ
as_int (number n) = some n
as_int _ = none

abbrev pub as_object : Value → Option (List (String × Value))
as_object (object fs) = some (fields fs)
as_object _ = none
