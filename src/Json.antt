-- ===== src/Json.antt =====
-- `serde_json::Value`, as the code walks it. A number keeps only what `as_u64` tells apart.
use n3ur0n.Prelude.{if◌then◌else◌, ℕ, String, Bool, Option, none, some, ◌==◌}

mutual
  pub data Value : Type 0 where
    null : Value
    boolean : Bool → Value
    unsigned : ℕ → Value
    other_number : Value
    text : String → Value
    array : Items → Value
    object : Fields → Value

  pub data Items : Type 0 where
    nil : Items
    cons : Value → Items → Items

  pub data Fields : Type 0 where
    end : Fields
    field : String → Value → Fields → Fields

-- `map.get(key)`; a map holds a key once.
unfoldable pub lookup_field : Fields → String → Option Value
lookup_field end k = none
lookup_field (field j v fs) k = if j == k then some v else lookup_field fs k

-- `value.get(key)`
unfoldable pub get : Value → String → Option Value
unfolding lookup_field
get (object fs) k = lookup_field fs k
get null k = none
get _ k = none

abbrev pub as_str : Value → Option String
as_str (text s) = some s
as_str null = none
as_str _ = none

abbrev pub as_u64 : Value → Option ℕ
as_u64 (unsigned n) = some n
as_u64 null = none
as_u64 _ = none
