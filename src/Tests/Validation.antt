-- ===== src/Tests/Validation.antt =====
-- A schema of one required port and a list of names, and nothing else.
use machine_fabric.Base.{String, ◌≡◌, refl, ◌↔◌, false, ok, err, ◌==◌}
use machine_fabric.Controller.Json.{
  Value, Numbers, null, boolean, number, string, array, object, nil, cons, blank, entry,
}
use machine_fabric.Controller.Validation.{
  wrong_type, missing, not_allowed, check_itself, validate_schema,
}
use machine_fabric.Controller.Inside.{At}
use machine_fabric.Controller.Conforms.{Fits, validate_schema-Fits}

abbrev numbers : Numbers
numbers = record { below = λ n m. false; is_integer = λ n. n == "80"; same = λ v w. false }

abbrev typed : String → Value
typed kind = object (entry "type" (string kind) blank)

abbrev schema : Value
schema = object (
    entry "additionalProperties" (boolean false) (
      entry "properties"
        (object (
          entry "names"
            (object (entry "items" (typed "string") (entry "type" (string "array") blank)))
            (entry "port" (typed "integer") blank)))
        (entry "required" (array (cons (string "port") nil))
          (entry "type" (string "object") blank))))

abbrev names : Value
names = array (cons (string "a") (cons (string "b") nil))

abbrev good : Value
good = object (entry "names" names (entry "port" (number "80") blank))

accepts_good : validate_schema numbers schema good ≡ ok tt
unfolding validate_schema check_itself
accepts_good = refl

refuses_missing :
    validate_schema numbers schema (object (entry "names" names blank)) ≡ err (missing "port")
unfolding validate_schema check_itself
refuses_missing = refl

refuses_unknown :
    validate_schema numbers schema (object (entry "port" (number "80") (entry "token" null blank)))
    ≡ err (not_allowed "token")
unfolding validate_schema check_itself
refuses_unknown = refl

refuses_item :
    validate_schema numbers schema (
      object (
        entry "names"
          (array (cons (string "a") (cons null nil)))
          (entry "port" (number "80") blank)))
    ≡ err wrong_type
unfolding validate_schema check_itself
refuses_item = refl

validate_schema-Fits_example :
    (validate_schema numbers schema good ≡ ok tt)
    ↔ ((s v : Value) → At schema good s v → Fits numbers s v)
validate_schema-Fits_example = validate_schema-Fits numbers schema good

-- A schema for `additionalProperties` is not applied to the values of the fields.
ignores_additional :
    validate_schema numbers
      (object
        (entry "additionalProperties" (typed "string") (entry "type" (string "object") blank)))
      (object (entry "PATH" (number "80") blank))
    ≡ ok tt
unfolding validate_schema check_itself
ignores_additional = refl
