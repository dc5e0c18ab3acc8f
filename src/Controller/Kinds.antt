-- ===== src/Controller/Kinds.antt =====
-- crates/machine-fabric-runtime/src/controller.rs: the type and the enum of a schema.
use machine_fabric.Base.{
  String, ◌≡◌, refl, ap, subst, ◌∙◌, sym, ◌↔◌, Bool, true, false, inl, inr, Option, none, some,
  Bool-cases, arith, ◌==◌, eq_iff,
}
use machine_fabric.Controller.Json.{
  Value, Values, Numbers, null, boolean, number, string, array, object, nil, cons, as_values,
  any_value,
}
use machine_fabric.Controller.Validation.{matches_name, is_kind_of, has_type, outside_enum}
use machine_fabric.Controller.Inside.{IsItem, first_item, later_item}
use machine_fabric.Controller.Right.{HasKind, OfType}

module _ (numbers : Numbers) where
  matches_name-HasKind :
      (value : Value) (kind : String)
      → (matches_name numbers value kind ≡ true) ↔ HasKind numbers value kind
  matches_name-HasKind null kind = eq_iff kind "null"
  matches_name-HasKind (boolean b) kind = eq_iff kind "boolean"
  matches_name-HasKind (number n) kind = (
    λ h. elim (Bool-cases (kind == "number")) [
      | inl p ↦ inl ((eq_iff kind "number").0 p)
      | inr p ↦ inr ((eq_iff kind "integer").0 (ground (arith, h, p)), ground (arith, h, p))
    ],
    λ h. elim h [
      | inl e ↦ let p = (eq_iff kind "number").1 e in ground (arith, p)
      | inr (e, i) ↦ let p = (eq_iff kind "integer").1 e in ground (arith, p, i)
    ],
  )
  matches_name-HasKind (string t) kind = eq_iff kind "string"
  matches_name-HasKind (array values) kind = eq_iff kind "array"
  matches_name-HasKind (object fields) kind = eq_iff kind "object"

  item_passes :
      (test : Value → Bool) {w : Value} {values : Values}
      → IsItem w values
      → test w ≡ true
      → any_value test values ≡ true
  item_passes test (first_item {values}) e = rw e refl
  item_passes test (later_item {w} {values} m) e =
      let found = item_passes test m e in ground (arith, found)

  any_value-IsItem :
      (test : Value → Bool) (values : Values)
      → (any_value test values ≡ true) ↔ ((w : Value) × IsItem w values × (test w ≡ true))
  any_value-IsItem test nil = (λ h. absurd (cc h), λ (w, m, e). elim m [ ])
  any_value-IsItem test (cons v values) = (
    λ h. elim (Bool-cases (test v)) [
      | inl p ↦ (v, first_item, p)
      | inr p ↦
          let (w, m, e) = (any_value-IsItem test values).0 (ground (arith, h, p)) in
          (w, later_item m, e)
    ],
    λ (w, m, e). item_passes test m e,
  )

  named_item :
      (value w : Value)
      → is_kind_of numbers value w ≡ true
      → (kind : String) × (w ≡ string kind) × HasKind numbers value kind
  named_item value null h = absurd (cc h)
  named_item value (boolean b) h = absurd (cc h)
  named_item value (number n) h = absurd (cc h)
  named_item value (string kind) h = (kind, refl, (matches_name-HasKind value kind).0 h)
  named_item value (array values) h = absurd (cc h)
  named_item value (object fields) h = absurd (cc h)

  has_type-OfType :
      (value kind : Value) → (has_type numbers value (some kind) ≡ true) ↔ OfType numbers value kind
  has_type-OfType value (string kind) = matches_name-HasKind value kind
  has_type-OfType value (array kinds) = (
    λ h.
        let (w, m, e) = (any_value-IsItem (is_kind_of numbers value) kinds).0 h in
        let (kind, named, has) = named_item value w e in
        (kind, subst (λ x. IsItem x kinds) named m, has),
    λ (kind, m, has).
        item_passes (is_kind_of numbers value) m ((matches_name-HasKind value kind).1 has),
  )
  has_type-OfType value null = (λ h. absurd (cc h), λ h. absurd h)
  has_type-OfType value (boolean b) = (λ h. absurd (cc h), λ h. absurd h)
  has_type-OfType value (number n) = (λ h. absurd (cc h), λ h. absurd h)
  has_type-OfType value (object fields) = (λ h. absurd (cc h), λ h. absurd h)

  pub typed_iff :
      (value : Value) (found : Option Value)
      → (has_type numbers value found ≡ true)
        ↔ ((kind : Value) → found ≡ some kind → OfType numbers value kind)
  typed_iff value none = (λ h kind e. absurd (cc e), λ h. refl)
  typed_iff value (some t) = (
    λ h kind e. (has_type-OfType value kind).0 (ap (has_type numbers value) (sym e) ∙ h),
    λ h. (has_type-OfType value t).1 (h t refl),
  )

  abbrev pub Listed : Value → Option Value → Type 0
  Listed value found =
      (allowed : Values)
      → found ≡ some (array allowed)
      → (w : Value) × IsItem w allowed × (numbers.same w value ≡ true)

  pub Listed-iff :
      (value : Value) (found : Option Value)
      → (outside_enum numbers value (as_values found) ≡ false) ↔ Listed value found
  Listed-iff value none = (λ h allowed e. absurd (cc e), λ h. refl)
  Listed-iff value (some null) = (λ h allowed e. absurd (cc e), λ h. refl)
  Listed-iff value (some (boolean b)) = (λ h allowed e. absurd (cc e), λ h. refl)
  Listed-iff value (some (number n)) = (λ h allowed e. absurd (cc e), λ h. refl)
  Listed-iff value (some (string t)) = (λ h allowed e. absurd (cc e), λ h. refl)
  Listed-iff value (some (object fields)) = (λ h allowed e. absurd (cc e), λ h. refl)
  Listed-iff value (some (array values)) =
      let items = any_value-IsItem (λ w. numbers.same w value) values in
      (
        λ h allowed e.
            let same : values ≡ allowed = cc e in
            subst (λ vs. (w : Value) × IsItem w vs × (numbers.same w value ≡ true)) same
              (items.0 (ground (arith, h))),
        λ h. let found = items.1 (h values refl) in ground (arith, found),
      )
