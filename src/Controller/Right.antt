-- ===== src/Controller/Right.antt =====
-- crates/machine-fabric-runtime/src/controller.rs: what a schema says of a value itself, described
-- apart from the checks of `validate_schema`.
use machine_fabric.Base.{String, ◌≡◌, true, false, ◌⊎◌, some}
use machine_fabric.Controller.Json.{
  Value, Values, Fields, Numbers, null, boolean, number, string, array, object, get_field, get,
}
use machine_fabric.Controller.Inside.{IsItem}

module _ (numbers : Numbers) where
  -- The names that a schema may give to the type of a value.
  abbrev pub HasKind : Value → String → Type 0
  HasKind null kind = kind ≡ "null"
  HasKind (boolean b) kind = kind ≡ "boolean"
  HasKind (number n) kind = (kind ≡ "number") ⊎ ((kind ≡ "integer") × (numbers.is_integer n ≡ true))
  HasKind (string t) kind = kind ≡ "string"
  HasKind (array values) kind = kind ≡ "array"
  HasKind (object fields) kind = kind ≡ "object"

  -- A value of the type that the schema names, or of one of those that it names.
  abbrev pub OfType : Value → Value → Type 0
  OfType value (string kind) = HasKind value kind
  OfType value (array kinds) = (kind : String) × IsItem (string kind) kinds × HasKind value kind
  OfType value null = ⊥
  OfType value (boolean b) = ⊥
  OfType value (number n) = ⊥
  OfType value (object fields) = ⊥

  -- A value is all that its schema says of it, but for what it holds.
  pub record Right (schema value : Value) : Type 0 where
    pub listed :
        (allowed : Values)
        → get "enum" schema ≡ some (array allowed)
        → (w : Value) × IsItem w allowed × (numbers.same w value ≡ true)
    pub typed : (kind : Value) → get "type" schema ≡ some kind → OfType value kind
    pub least :
        (n m : String)
        → value ≡ number n
        → get "minimum" schema ≡ some (number m)
        → numbers.below n m ≡ false
    pub most :
        (n m : String)
        → value ≡ number n
        → get "maximum" schema ≡ some (number m)
        → numbers.below m n ≡ false
    pub present :
        (fields : Fields) (keys : Values) (key : String)
        → value ≡ object fields
        → get "required" schema ≡ some (array keys)
        → IsItem (string key) keys
        → (child : Value) × (get_field key fields ≡ some child)
