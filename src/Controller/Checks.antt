-- ===== src/Controller/Checks.antt =====
-- crates/machine-fabric-runtime/src/controller.rs: `validate_schema` as the checks of a value and of
-- what it holds.
use machine_fabric.Base.{
  String, ◌≡◌, refl, ap, ◌∙◌, ◌↔◌, true, false, none, Result, ok, ◌>>◌, seq-ok, Bool-cases, inl,
  inr,
}
use machine_fabric.Controller.Json.{
  Value, Values, Fields, Numbers, null, boolean, number, string, array, object, nil, cons, blank,
  entry, get, as_fields,
}
use machine_fabric.Controller.Validation.{
  SchemaError, is_trivial, check_itself, validate_schema, validate_items, validate_fields,
}

module _ (numbers : Numbers) where
  unbound : (value : Value) → check_itself numbers null value ≡ ok tt
  unfolding check_itself
  unbound null = refl
  unbound (boolean b) = refl
  unbound (number n) = refl
  unbound (string s) = refl
  unbound (array values) = refl
  unbound (object fields) = refl

  -- A schema that says nothing is like null.
  trivial-checked :
      (schema value : Value) → is_trivial schema ≡ true → check_itself numbers schema value ≡ ok tt
  unfolding check_itself
  trivial-checked null value h = unbound value
  trivial-checked (boolean b) value h = unbound value
  trivial-checked (number n) value h = unbound value
  trivial-checked (string s) value h = unbound value
  trivial-checked (array values) value h = unbound value
  trivial-checked (object blank) value h = unbound value
  trivial-checked (object (entry k v fields)) value h = absurd (cc h)

  abbrev pub children : Value → Value → Result SchemaError (Unit {0})
  children schema (array values) = validate_items numbers (get "items" schema) values
  children schema (object fields) =
      validate_fields numbers schema (as_fields (get "properties" schema)) fields
  children schema _ = ok tt

  pub items-none : (values : Values) → validate_items numbers none values ≡ ok tt
  unfolding validate_items
  items-none nil = refl
  items-none (cons v values) = refl

  pub fields-none :
      (schema : Value) (fields : Fields) → validate_fields numbers schema none fields ≡ ok tt
  unfolding validate_fields
  fields-none schema blank = refl
  fields-none schema (entry k v fields) = refl

  trivial-get : (schema : Value) (key : String) → is_trivial schema ≡ true → get key schema ≡ none
  trivial-get null key h = refl
  trivial-get (boolean b) key h = refl
  trivial-get (number n) key h = refl
  trivial-get (string s) key h = refl
  trivial-get (array values) key h = refl
  trivial-get (object blank) key h = refl
  trivial-get (object (entry k v fields)) key h = absurd (cc h)

  trivial-children :
      (schema value : Value) → is_trivial schema ≡ true → children schema value ≡ ok tt
  trivial-children schema null h = refl
  trivial-children schema (boolean b) h = refl
  trivial-children schema (number n) h = refl
  trivial-children schema (string s) h = refl
  trivial-children schema (array values) h =
      ap (λ items. validate_items numbers items values) (trivial-get schema "items" h)
      ∙ items-none values
  trivial-children schema (object fields) h =
      ap (λ p. validate_fields numbers schema (as_fields p) fields)
        (trivial-get schema "properties" h)
      ∙ fields-none schema fields

  pub both : {m k : Result SchemaError (Unit {0})} → m ≡ ok tt → k ≡ ok tt → (m >> k) ≡ ok tt
  both {m} {k} p q = rw (p, q) refl

  trivial-valid :
      (schema value : Value)
      → is_trivial schema ≡ true
      → validate_schema numbers schema value ≡ ok tt
  unfolding validate_schema
  trivial-valid schema null t = rw t refl
  trivial-valid schema (boolean b) t = rw t refl
  trivial-valid schema (number n) t = rw t refl
  trivial-valid schema (string s) t = rw t refl
  trivial-valid schema (array values) t = rw t refl
  trivial-valid schema (object fields) t = rw t refl

  proper :
      (schema value : Value)
      → is_trivial schema ≡ false
      → (validate_schema numbers schema value ≡ ok tt)
        ↔ ((check_itself numbers schema value ≡ ok tt) × (children schema value ≡ ok tt))
  unfolding validate_schema
  proper schema null t = rw t ((λ h. (h, refl)), λ h. h.0)
  proper schema (boolean b) t = rw t ((λ h. (h, refl)), λ h. h.0)
  proper schema (number n) t = rw t ((λ h. (h, refl)), λ h. h.0)
  proper schema (string s) t = rw t ((λ h. (h, refl)), λ h. h.0)
  proper schema (array values) t =
      rw t ((λ h. seq-ok (check_itself numbers schema (array values)) _ tt h), λ h. both h.0 h.1)
  proper schema (object fields) t =
      rw t ((λ h. seq-ok (check_itself numbers schema (object fields)) _ tt h), λ h. both h.0 h.1)

  -- `validate_schema` is the checks of the value, then those of what it holds.
  pub validate_schema-split :
      (schema value : Value)
      → (validate_schema numbers schema value ≡ ok tt)
        ↔ ((check_itself numbers schema value ≡ ok tt) × (children schema value ≡ ok tt))
  validate_schema-split schema value = elim (Bool-cases (is_trivial schema)) [
    | inl t ↦ (
      λ h. (trivial-checked schema value t, trivial-children schema value t),
      λ h. trivial-valid schema value t,
    )
    | inr t ↦ proper schema value t
  ]
