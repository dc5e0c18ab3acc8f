-- ===== src/Controller/Validation.antt =====
-- crates/machine-fabric-runtime/src/controller.rs: `validate_schema`, which checks the input and the
-- output of a capability against the schema of its contract.
use machine_fabric.Base.{
  String, Bool, true, false, ◌&&◌, ◌||◌, not, Option, none, some, is_some, if◌then◌else◌, Result,
  ok, err, ◌>>◌, ◌==◌,
}
use machine_fabric.Controller.Json.{
  Value, Values, Fields, Numbers, null, boolean, number, string, array, object, nil, cons, blank,
  entry, get_field, get, as_values, as_fields, any_value,
}

pub data SchemaError : Type 0 where
  not_in_enum wrong_type below_minimum above_maximum : SchemaError
  missing not_allowed : String → SchemaError

-- `schema.as_object().is_none_or(|object| object.is_empty())`.
abbrev pub is_trivial : Value → Bool
is_trivial (object blank) = true
is_trivial (object (entry k v fields)) = false
is_trivial _ = true

-- The loop over the keys that are required of an object.
abbrev pub lacks : Fields → Value → Option String
lacks fields (string key) = if is_some (get_field key fields) then none else some key
lacks fields _ = none

abbrev pub require : Fields → Values → Result SchemaError (Unit {0})
require fields nil = ok tt
require fields (cons key keys) =
    let rest = require fields keys in
    elim (lacks fields key) [ none ↦ rest | some name ↦ err (missing name) ]

abbrev pub required_of : Value → Option Values → Result SchemaError (Unit {0})
required_of (object fields) (some keys) = require fields keys
required_of _ _ = ok tt

-- `additionalProperties` is `false`.
abbrev pub is_closed : Option Value → Bool
is_closed (some (boolean false)) = true
is_closed _ = false

abbrev pub unknown : Value → String → Result SchemaError (Unit {0})
unknown schema key =
    if is_closed (get "additionalProperties" schema) then err (not_allowed key) else ok tt

module _ (numbers : Numbers) where
  abbrev pub matches_name : Value → String → Bool
  matches_name null kind = kind == "null"
  matches_name (boolean b) kind = kind == "boolean"
  matches_name (number n) kind = kind == "number" || kind == "integer" && numbers.is_integer n
  matches_name (string s) kind = kind == "string"
  matches_name (array values) kind = kind == "array"
  matches_name (object fields) kind = kind == "object"

  abbrev pub is_kind_of : Value → Value → Bool
  is_kind_of value (string kind) = matches_name value kind
  is_kind_of value _ = false

  -- `type`, where the schema has it.
  abbrev pub has_type : Value → Option Value → Bool
  has_type value none = true
  has_type value (some (string kind)) = matches_name value kind
  has_type value (some (array kinds)) = any_value (is_kind_of value) kinds
  has_type value (some null) = false
  has_type value (some (boolean b)) = false
  has_type value (some (number n)) = false
  has_type value (some (object fields)) = false

  abbrev pub outside_enum : Value → Option Values → Bool
  outside_enum value none = false
  outside_enum value (some allowed) = not (any_value (λ other. numbers.same other value) allowed)

  abbrev pub less : Option Value → Option Value → Bool
  less (some (number n)) (some (number m)) = numbers.below n m
  less _ _ = false

  -- The checks of a value itself, in their order.
  unfoldable pub check_itself : Value → Value → Result SchemaError (Unit {0})
  check_itself schema value =
      if outside_enum value (as_values (get "enum" schema))
      then err not_in_enum
      else if not (has_type value (get "type" schema))
      then err wrong_type
      else if less (some value) (get "minimum" schema)
      then err below_minimum
      else if less (get "maximum" schema) (some value)
      then err above_maximum
      else required_of value (as_values (get "required" schema))

  unfoldable mutual
    pub validate_schema : Value → Value → Result SchemaError (Unit {0})
    validate_schema schema null = if is_trivial schema then ok tt else check_itself schema null
    validate_schema schema (boolean b) =
        if is_trivial schema then ok tt else check_itself schema (boolean b)
    validate_schema schema (number n) =
        if is_trivial schema then ok tt else check_itself schema (number n)
    validate_schema schema (string s) =
        if is_trivial schema then ok tt else check_itself schema (string s)
    validate_schema schema (array values) =
        if is_trivial schema
        then ok tt
        else check_itself schema (array values) >> validate_items (get "items" schema) values
    validate_schema schema (object fields) =
        if is_trivial schema
        then ok tt
        else check_itself schema (object fields)
          >> validate_fields schema (as_fields (get "properties" schema)) fields

    pub validate_items : Option Value → Values → Result SchemaError (Unit {0})
    validate_items items nil = ok tt
    validate_items none (cons v values) = ok tt
    validate_items (some items) (cons v values) =
        validate_schema items v >> validate_items (some items) values

    pub validate_fields : Value → Option Fields → Fields → Result SchemaError (Unit {0})
    validate_fields schema properties blank = ok tt
    validate_fields schema none (entry key child fields) = ok tt
    validate_fields schema (some properties) (entry key child fields) =
        elim (get_field key properties) [
          | some child_schema ↦ validate_schema child_schema child
          | none ↦ unknown schema key
        ]
        >> validate_fields schema (some properties) fields
