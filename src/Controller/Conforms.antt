-- ===== src/Controller/Conforms.antt =====
-- crates/machine-fabric-runtime/src/controller.rs: what `validate_schema` accepts.
use machine_fabric.Base.{
  String, ◌≡◌, refl, ap, ◌∙◌, sym, ◌↔◌, ◌≢◌, true, false, Option, none, some, Result, ok, seq-ok,
  Option-cases, inl, inr, arith,
}
use machine_fabric.Controller.Json.{
  Value, Values, Fields, Numbers, null, boolean, number, string, array, object, nil, cons, blank,
  entry, get_field, get, as_fields,
}
use machine_fabric.Controller.Validation.{
  SchemaError, is_closed, unknown, validate_schema, validate_items, validate_fields,
}
use machine_fabric.Controller.Checks.{
  children, items-none, fields-none, both, validate_schema-split,
}
use machine_fabric.Controller.Inside.{
  IsItem, first_item, later_item, IsField, first_field, later_field, At, here, item, field, Named,
}
use machine_fabric.Controller.Right.{Right}
use machine_fabric.Controller.Demands.{check_itself-Right}

module _ (numbers : Numbers) where
  -- A value that is right by itself.
  abbrev pub Fits : Value → Value → Type 0
  Fits schema value = Right numbers schema value × Named schema value

  item-valid :
      (items v : Value) (values : Values)
      → validate_items numbers (some items) values ≡ ok tt
      → IsItem v values
      → validate_schema numbers items v ≡ ok tt
  unfolding validate_items
  item-valid items v nil h m = elim m [ ]
  item-valid items v (cons w values) h first_item =
      (seq-ok (validate_schema numbers items v) (validate_items numbers (some items) values) tt h).0
  item-valid items v (cons w values) h (later_item m) =
      item-valid items v values
        (seq-ok (validate_schema numbers items w) (validate_items numbers (some items) values) tt
          h).1
        m

  -- What `validate_fields` does with one entry.
  judge : Value → Fields → String → Value → Result SchemaError (Unit {0})
  judge schema properties key child = elim (get_field key properties) [
    | some child_schema ↦ validate_schema numbers child_schema child
    | none ↦ unknown schema key
  ]

  field-valid :
      (schema child : Value) (key : String) (properties fields : Fields)
      → validate_fields numbers schema (some properties) fields ≡ ok tt
      → IsField key child fields
      → judge schema properties key child ≡ ok tt
  unfolding validate_fields judge
  field-valid schema child key properties blank h m = elim m [ ]
  field-valid schema child key properties (entry k v fields) h first_field =
      (seq-ok (judge schema properties key child)
        (validate_fields numbers schema (some properties) fields) tt h).0
  field-valid schema child key properties (entry k v fields) h (later_field m) =
      field-valid schema child key properties fields
        (seq-ok (judge schema properties k v)
          (validate_fields numbers schema (some properties) fields) tt h).1
        m

  known-valid :
      (schema child child_schema : Value) (key : String) (properties : Fields)
      → get_field key properties ≡ some child_schema
      → (judge schema properties key child ≡ validate_schema numbers child_schema child)
  unfolding judge validate_schema
  known-valid schema child child_schema key properties e = rw (e, judge) refl

  closed-err :
      (schema : Value) (key : String)
      → unknown schema key ≡ ok tt
      → is_closed (get "additionalProperties" schema) ≡ false
  closed-err schema key h = ground (arith, h)

  unknown-open :
      (schema child : Value) (key : String) (properties : Fields)
      → get_field key properties ≡ none
      → judge schema properties key child ≡ ok tt
      → is_closed (get "additionalProperties" schema) ≡ false
  unfolding judge
  unknown-open schema child key properties e h = closed-err schema key (rw (e, judge) at h)

  here-Fits :
      (schema value : Value) → validate_schema numbers schema value ≡ ok tt → Fits schema value
  here-Fits schema value h =
      let (itself, inside) = (validate_schema-split numbers schema value).0 h in
      (
        (check_itself-Right numbers schema value).0 itself,
        λ fields properties e p key child m unnamed closed. absurd (
            cc (
              ap is_closed closed,
              unknown-open schema child key properties unnamed (
                  field-valid schema child key properties fields
                    (ap (λ props. validate_fields numbers schema (as_fields props) fields) (sym p)
                      ∙ ap (children numbers schema) (sym e)
                      ∙ inside)
                    m),
            )),
      )

  sound :
      {schema value s v : Value}
      → At schema value s v
      → validate_schema numbers schema value ≡ ok tt
      → Fits s v
  sound here h = here-Fits _ _ h
  sound (item {schema} {items} {v} {values} e m a) h =
      let inside = ((validate_schema-split numbers schema (array values)).0 h).1 in
      sound a
        (item-valid items v values (ap (λ i. validate_items numbers i values) (sym e) ∙ inside) m)
  sound (field {schema} {child_schema} {child} {key} {fields} {properties} e m g a) h =
      let inside = ((validate_schema-split numbers schema (object fields)).0 h).1 in
      sound a (
        sym (known-valid schema child child_schema key properties g)
        ∙ field-valid schema child key properties fields
            (ap (λ p. validate_fields numbers schema (as_fields p) fields) (sym e) ∙ inside) m)

  judge_complete :
      (schema child : Value) (key : String) (properties : Fields)
      → ((child_schema : Value)
          → get_field key properties ≡ some child_schema
          → validate_schema numbers child_schema child ≡ ok tt)
      → (get_field key properties ≡ none → is_closed (get "additionalProperties" schema) ≡ false)
      → judge schema properties key child ≡ ok tt
  unfolding judge
  judge_complete schema child key properties known open_schema =
      elim (Option-cases (get_field key properties)) [
        | inl e ↦ rw (e, judge) (ground (arith, open_schema e))
        | inr (child_schema, e) ↦
            known-valid schema child child_schema key properties e ∙ known child_schema e
      ]

  as_fields-some :
      (found : Option Value) (fields : Fields)
      → as_fields found ≡ some fields
      → found ≡ some (object fields)
  as_fields-some none fields h = absurd (cc h)
  as_fields-some (some null) fields h = absurd (cc h)
  as_fields-some (some (boolean b)) fields h = absurd (cc h)
  as_fields-some (some (number n)) fields h = absurd (cc h)
  as_fields-some (some (string t)) fields h = absurd (cc h)
  as_fields-some (some (array values)) fields h = absurd (cc h)
  as_fields-some (some (object found)) fields h = cc h

  not_closed : (found : Option Value) → found ≢ some (boolean false) → is_closed found ≡ false
  not_closed none h = refl
  not_closed (some null) h = refl
  not_closed (some (boolean true)) h = refl
  not_closed (some (boolean false)) h = absurd (h refl)
  not_closed (some (number n)) h = refl
  not_closed (some (string t)) h = refl
  not_closed (some (array values)) h = refl
  not_closed (some (object fields)) h = refl

  mutual
    unfolding validate_items validate_fields judge

    complete :
        (schema value : Value)
        → ((s v : Value) → At schema value s v → Fits s v)
        → validate_schema numbers schema value ≡ ok tt
    complete schema null h =
        (validate_schema-split numbers schema null).1
          ((check_itself-Right numbers _ _).1 (h _ _ here).0, refl)
    complete schema (boolean b) h =
        (validate_schema-split numbers schema (boolean b)).1
          ((check_itself-Right numbers _ _).1 (h _ _ here).0, refl)
    complete schema (number n) h =
        (validate_schema-split numbers schema (number n)).1
          ((check_itself-Right numbers _ _).1 (h _ _ here).0, refl)
    complete schema (string t) h =
        (validate_schema-split numbers schema (string t)).1
          ((check_itself-Right numbers _ _).1 (h _ _ here).0, refl)
    complete schema (array values) h = (validate_schema-split numbers schema (array values)).1 (
      (check_itself-Right numbers _ _).1 (h _ _ here).0,
      elim (Option-cases (get "items" schema)) [
        | inl e ↦ ap (λ i. validate_items numbers i values) e ∙ items-none numbers values
        | inr (items, e) ↦
            ap (λ i. validate_items numbers i values) e
            ∙ complete_items items values (λ v m s w a. h s w (item e m a))
      ],
    )
    complete schema (object fields) h = (validate_schema-split numbers schema (object fields)).1 (
      (check_itself-Right numbers _ _).1 (h _ _ here).0,
      elim (Option-cases (as_fields (get "properties" schema))) [
        | inl e ↦
            ap (λ p. validate_fields numbers schema p fields) e ∙ fields-none numbers schema fields
        | inr (properties, e) ↦
            ap (λ p. validate_fields numbers schema p fields) e
            ∙ complete_fields schema properties fields
                (λ key child cs m g s w a.
                  h s w (field (as_fields-some (get "properties" schema) properties e) m g a))
                (λ key child m u. not_closed (get "additionalProperties" schema) (
                  (h _ _ here).1 fields properties refl
                    (as_fields-some (get "properties" schema) properties e) key child m u))
      ],
    )

    complete_items :
        (items : Value) (values : Values)
        → ((v : Value) → IsItem v values → (s w : Value) → At items v s w → Fits s w)
        → validate_items numbers (some items) values ≡ ok tt
    complete_items items nil h = refl
    complete_items items (cons v values) h =
        both numbers (complete items v (h v first_item))
          (complete_items items values (λ w m. h w (later_item m)))

    complete_fields :
        (schema : Value) (properties fields : Fields)
        → ((key : String) (child child_schema : Value)
            → IsField key child fields
            → get_field key properties ≡ some child_schema
            → (s w : Value) → At child_schema child s w
            → Fits s w)
        → ((key : String) (child : Value)
            → IsField key child fields
            → get_field key properties ≡ none
            → is_closed (get "additionalProperties" schema) ≡ false)
        → validate_fields numbers schema (some properties) fields ≡ ok tt
    complete_fields schema properties blank known named = refl
    complete_fields schema properties (entry k v fields) known named =
        both numbers
          (judge_complete schema v k properties (λ cs e. complete cs v (known k v cs first_field e))
            (named k v first_field))
          (complete_fields schema properties fields
            (λ key child cs m. known key child cs (later_field m))
            (λ key child m. named key child (later_field m)))

  -- `validate_schema` accepts a value exactly when each value inside it, however deep, is right for the
  -- schema that the schema has for it there: it is the same as one of the enum, has a type that is
  -- named, keeps both bounds where it is a number, and has each required field where it is an object;
  -- and, where this schema has properties and is closed, it has no field that these do not name.
  pub validate_schema-Fits :
      (schema value : Value)
      → (validate_schema numbers schema value ≡ ok tt)
        ↔ ((s v : Value) → At schema value s v → Fits s v)
  validate_schema-Fits schema value = ((λ h s v a. sound a h), λ h. complete schema value h)
