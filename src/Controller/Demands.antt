-- ===== src/Controller/Demands.antt =====
-- crates/machine-fabric-runtime/src/controller.rs: the bounds and the required fields of a
-- schema, and all checks of a value together.
use machine_fabric.Base.{
  String, ◌≡◌, refl, ap, subst, ◌∙◌, sym, ◌↔◌, true, false, inl, inr, Option, none, some, ok,
  Option-cases, arith,
}
use machine_fabric.Controller.Json.{
  Value, Values, Fields, Numbers, null, boolean, number, string, array, object, nil, cons,
  get_field, get, as_values,
}
use machine_fabric.Controller.Validation.{
  check_itself, has_type, outside_enum, less, lacks, require, required_of,
}
use machine_fabric.Controller.Inside.{IsItem, first_item, later_item}
use machine_fabric.Controller.Right.{Right}
use machine_fabric.Controller.Kinds.{Listed-iff, typed_iff}

module _ (numbers : Numbers) where
  less_iff :
      (a b : Option Value)
      → (less numbers a b ≡ false)
        ↔ ((n m : String) → a ≡ some (number n) → b ≡ some (number m) → numbers.below n m ≡ false)
  less_iff none b = (λ h n m e f. absurd (cc e), λ h. refl)
  less_iff (some null) b = (λ h n m e f. absurd (cc e), λ h. refl)
  less_iff (some (boolean c)) b = (λ h n m e f. absurd (cc e), λ h. refl)
  less_iff (some (string t)) b = (λ h n m e f. absurd (cc e), λ h. refl)
  less_iff (some (array values)) b = (λ h n m e f. absurd (cc e), λ h. refl)
  less_iff (some (object fields)) b = (λ h n m e f. absurd (cc e), λ h. refl)
  less_iff (some (number x)) none = (λ h n m e f. absurd (cc f), λ h. refl)
  less_iff (some (number x)) (some null) = (λ h n m e f. absurd (cc f), λ h. refl)
  less_iff (some (number x)) (some (boolean c)) = (λ h n m e f. absurd (cc f), λ h. refl)
  less_iff (some (number x)) (some (string t)) = (λ h n m e f. absurd (cc f), λ h. refl)
  less_iff (some (number x)) (some (array values)) = (λ h n m e f. absurd (cc f), λ h. refl)
  less_iff (some (number x)) (some (object fields)) = (λ h n m e f. absurd (cc f), λ h. refl)
  less_iff (some (number x)) (some (number y)) = (
    λ h n m e f. let same : x ≡ n = cc e in let same' : y ≡ m = cc f in rw (sym same, sym same') h,
    λ h. h x y refl refl,
  )

  lacks-none :
      (fields : Fields) (keys : Values) (w : Value)
      → (require fields (cons w keys) ≡ ok tt)
        ↔ ((lacks fields w ≡ none) × (require fields keys ≡ ok tt))
  lacks-none fields keys w = elim (Option-cases (lacks fields w)) [
    | inl e ↦ rw (require, e) ((λ h. (refl, h)), λ h. h.1)
    | inr (name, e) ↦ rw (require, e) ((λ h. absurd (cc h)), λ h. absurd (cc h.0))
  ]

  abbrev Present : Fields → Values → Type 0
  Present fields keys =
      (key : String)
      → IsItem (string key) keys
      → (child : Value) × (get_field key fields ≡ some child)

  lacks_of :
      (fields : Fields) (w : Value)
      → ((key : String) → w ≡ string key → (child : Value) × (get_field key fields ≡ some child))
      → lacks fields w ≡ none
  lacks_of fields null h = refl
  lacks_of fields (boolean b) h = refl
  lacks_of fields (number n) h = refl
  lacks_of fields (string key) h = rw (h key refl).1 refl
  lacks_of fields (array values) h = refl
  lacks_of fields (object inside) h = refl

  kept_of :
      (fields : Fields) (key : String)
      → lacks fields (string key) ≡ none
      → (child : Value) × (get_field key fields ≡ some child)
  kept_of fields key h = elim (Option-cases (get_field key fields)) [
    | inl e ↦ absurd (cc (rw e at h))
    | inr found ↦ found
  ]

  require-Present :
      (fields : Fields) (key : String) {w : Value} {keys : Values}
      → IsItem w keys
      → w ≡ string key
      → require fields keys ≡ ok tt
      → (child : Value) × (get_field key fields ≡ some child)
  require-Present fields key (first_item {values}) e h =
      kept_of fields key (ap (lacks fields) (sym e) ∙ ((lacks-none fields values _).0 h).0)
  require-Present fields key (later_item {w} {values} m) e h =
      require-Present fields key m e ((lacks-none fields values w).0 h).1

  Present-require :
      (fields : Fields) (keys : Values) → Present fields keys → require fields keys ≡ ok tt
  Present-require fields nil h = refl
  Present-require fields (cons w keys) h = (lacks-none fields keys w).1 (
    lacks_of fields w (λ key e. h key (subst (λ x. IsItem x (cons w keys)) e first_item)),
    Present-require fields keys (λ key m. h key (later_item m)),
  )

  abbrev Supplied : Value → Option Value → Type 0
  Supplied value found =
      (fields : Fields) (keys : Values) (key : String)
      → value ≡ object fields
      → found ≡ some (array keys)
      → IsItem (string key) keys
      → (child : Value) × (get_field key fields ≡ some child)

  required_of-fields :
      (fields : Fields) (found : Option Value)
      → ((keys : Values) (key : String)
          → found ≡ some (array keys)
          → IsItem (string key) keys
          → (child : Value) × (get_field key fields ≡ some child))
      → required_of (object fields) (as_values found) ≡ ok tt
  required_of-fields fields none h = refl
  required_of-fields fields (some null) h = refl
  required_of-fields fields (some (boolean b)) h = refl
  required_of-fields fields (some (number n)) h = refl
  required_of-fields fields (some (string t)) h = refl
  required_of-fields fields (some (object inside)) h = refl
  required_of-fields fields (some (array keys)) h =
      Present-require fields keys (λ key. h keys key refl)

  Supplied-iff :
      (value : Value) (found : Option Value)
      → (required_of value (as_values found) ≡ ok tt) ↔ Supplied value found
  Supplied-iff null found = (λ h fields keys key e. absurd (cc e), λ h. refl)
  Supplied-iff (boolean b) found = (λ h fields keys key e. absurd (cc e), λ h. refl)
  Supplied-iff (number n) found = (λ h fields keys key e. absurd (cc e), λ h. refl)
  Supplied-iff (string t) found = (λ h fields keys key e. absurd (cc e), λ h. refl)
  Supplied-iff (array values) found = (λ h fields keys key e. absurd (cc e), λ h. refl)
  Supplied-iff (object inside) found = (
    λ h fields keys key e f m.
        let same : inside ≡ fields = cc e in
        require-Present fields key m refl (
          subst (λ x. require x keys ≡ ok tt) same
            (ap (λ o. required_of (object inside) (as_values o)) (sym f) ∙ h)),
    λ h. required_of-fields inside found (λ keys key. h inside keys key refl),
  )

  checks_passed :
      (schema value : Value)
      → (check_itself numbers schema value ≡ ok tt) ↔ (
          (outside_enum numbers value (as_values (get "enum" schema)) ≡ false)
          × (has_type numbers value (get "type" schema) ≡ true)
          × (less numbers (some value) (get "minimum" schema) ≡ false)
          × (less numbers (get "maximum" schema) (some value) ≡ false)
          × (required_of value (as_values (get "required" schema)) ≡ ok tt))
  unfolding check_itself
  checks_passed schema value = (
    λ h. (
      ground (arith, h),
      ground (arith, h),
      ground (arith, h),
      ground (arith, h),
      ground (arith, h),
    ),
    λ (a, b, c, d, e). rw (a, b, c, d) e,
  )

  -- A value passes the checks of its own exactly when it is right for the schema.
  pub check_itself-Right :
      (schema value : Value)
      → (check_itself numbers schema value ≡ ok tt) ↔ Right numbers schema value
  check_itself-Right schema value = (
    λ h.
        let (a, b, c, d, e) = (checks_passed schema value).0 h in
        record {
          listed = (Listed-iff numbers value (get "enum" schema)).0 a;
          typed = (typed_iff numbers value (get "type" schema)).0 b;
          least = λ n m is. (less_iff (some value) (get "minimum" schema)).0 c n m (ap some is);
          most = λ n m is limit.
              (less_iff (get "maximum" schema) (some value)).0 d m n limit (ap some is);
          present = (Supplied-iff value (get "required" schema)).0 e;
        },
    λ right. (checks_passed schema value).1 (
      (Listed-iff numbers value (get "enum" schema)).1 right.listed,
      (typed_iff numbers value (get "type" schema)).1 right.typed,
      (less_iff (some value) (get "minimum" schema)).1 (λ n m is. right.least n m (cc is)),
      (less_iff (get "maximum" schema) (some value)).1
          (λ n m limit is. right.most m n (cc is) limit),
      (Supplied-iff value (get "required" schema)).1 right.present,
    ),
  )
