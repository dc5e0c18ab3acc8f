-- ===== src/Controller/Inside.antt =====
-- The values inside a value that `validate_schema` of crates/machine-fabric-runtime/src/controller.rs
-- reaches, each with its schema.
use machine_fabric.Base.{String, ◌≡◌, ◌≢◌, false, none, some}
use machine_fabric.Controller.Json.{
  Value, Values, Fields, array, object, cons, entry, get_field, get, boolean,
}

pub data IsItem (v : Value) : Values → Type 0 where
  first_item : {values : Values} → IsItem v (cons v values)
  later_item : {w : Value} {values : Values} → IsItem v values → IsItem v (cons w values)

pub data IsField (key : String) (child : Value) : Fields → Type 0 where
  first_field : {fields : Fields} → IsField key child (entry key child fields)
  later_field :
      {k : String} {v : Value} {fields : Fields}
      → IsField key child fields
      → IsField key child (entry k v fields)

-- The value inside a value, with the schema that the schema has for it.
pub data At : Value → Value → Value → Value → Type 0 where
  here : {schema value : Value} → At schema value schema value
  item :
      {schema items v s w : Value} {values : Values}
      → get "items" schema ≡ some items
      → IsItem v values
      → At items v s w
      → At schema (array values) s w
  field :
      {schema child_schema child s w : Value} {key : String} {fields properties : Fields}
      → get "properties" schema ≡ some (object properties)
      → IsField key child fields
      → get_field key properties ≡ some child_schema
      → At child_schema child s w
      → At schema (object fields) s w

-- An object has no field that its schema does not name, where the schema has `properties` and is
-- closed.
abbrev pub Named : Value → Value → Type 0
Named schema value =
    (fields properties : Fields)
    → value ≡ object fields
    → get "properties" schema ≡ some (object properties)
    → (key : String) (child : Value) → IsField key child fields
    → get_field key properties ≡ none
    → get "additionalProperties" schema ≢ some (boolean false)
