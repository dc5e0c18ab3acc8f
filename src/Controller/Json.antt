-- ===== src/Controller/Json.antt =====
-- `serde_json::Value`: an object is its entries in the order of its map, a number is its text, and what
-- serde_json answers for numbers and for the equality of values is the record `Numbers`.
use machine_fabric.Base.{String, Bool, false, ◌||◌, Option, none, some, if◌then◌else◌, ◌==◌}

mutual
  pub data Value : Type 0 where
    null : Value
    boolean : Bool → Value
    number : String → Value
    string : String → Value
    array : Values → Value
    object : Fields → Value

  pub data Values : Type 0 where
    nil : Values
    cons : Value → Values → Values

  pub data Fields : Type 0 where
    blank : Fields
    entry : String → Value → Fields → Fields

pub record Numbers : Type 0 where
  -- `as_f64` of the one is less than that of the other.
  pub below : String → String → Bool
  pub is_integer : String → Bool
  pub same : Value → Value → Bool

abbrev pub get_field : String → Fields → Option Value
get_field key blank = none
get_field key (entry k v fields) =
    let rest = get_field key fields in if k == key then some v else rest

-- `value.get(key)`.
abbrev pub get : String → Value → Option Value
get key (object fields) = get_field key fields
get key _ = none

abbrev pub as_values : Option Value → Option Values
as_values (some (array values)) = some values
as_values _ = none

abbrev pub as_fields : Option Value → Option Fields
as_fields (some (object fields)) = some fields
as_fields _ = none

abbrev pub any_value : (Value → Bool) → Values → Bool
any_value test nil = false
any_value test (cons v values) = test v || any_value test values
