-- ===== src/Datasets/Validation.antt =====
-- Schemas and records of core/src/octoforge_core/datasets/validation.py.
use octo_forge.Base.{
  ℕ, ◌+◌, String, Bool, true, false, Option, none, some, List, [], ◌∷◌, ◌++◌, if◌then◌else◌, ok,
  All, ◌↔◌, ◌≡◌, ◌≢◌, refl, arith,
}
use octo_forge.Json.{
  Value, text, number, fraction, boolean, array, object, null, Members, get_field,
}
use octo_forge.Datasets.Typing.{HasType, HasType-matches, matches-HasType}
use octo_forge.Datasets.Schema.{
  FieldType, string, integer, real, truth, date, datetime, type_value, DatasetField, DatasetSchema,
  is_blank, parse_field_type, parse_field, parse_fields, repeats, parse_schema, dump_field,
  dump_fields, dump_schema, Parsers, matches_type, Violation, missing, mistyped, violations_of,
  violations, refused, validate_record,
}

parse_field_type-type_value :
    (name : String) (t : FieldType) → parse_field_type name (some (text (type_value t))) ≡ ok t
parse_field_type-type_value name string = refl
parse_field_type-type_value name integer = refl
parse_field_type-type_value name real = refl
parse_field_type-type_value name truth = refl
parse_field_type-type_value name date = refl
parse_field_type-type_value name datetime = refl

parse_field-dump_field :
    (index : ℕ) (f : DatasetField)
    → is_blank f.name ≡ false
    → parse_field index (dump_field f) ≡ ok f
parse_field-dump_field index f named =
    rw named (rw (parse_field_type-type_value f.name f.type) refl)

parse_fields-dump_fields :
    (index : ℕ) (fields : DatasetSchema)
    → All (λ f. is_blank f.name ≡ false) fields
    → parse_fields index (dump_fields fields) ≡ ok fields
parse_fields-dump_fields index [] named = refl
parse_fields-dump_fields index (f ∷ fields) named =
    rw (parse_field-dump_field index f named.0)
      (rw (parse_fields-dump_fields (index + 1) fields named.1) refl)

-- A schema whose fields have distinct names, none of them blank, is read back from its JSON document as
-- it was.
pub schema_round_trip :
    (schema : DatasetSchema)
    → All (λ f. is_blank f.name ≡ false) schema
    → repeats schema ≡ false
    → parse_schema (dump_schema schema) ≡ ok schema
unfolding parse_schema dump_schema
schema_round_trip schema named distinct =
    rw (parse_fields-dump_fields 0 schema named) (rw distinct refl)

-- What a field asks of a value: an optional one may be absent or null, and any other has the type.
pub data Conforms (p : Parsers) (f : DatasetField) : Option Value → Type 0 where
  is_absent : f.required ≡ false → Conforms p f none
  is_null : f.required ≡ false → Conforms p f (some null)
  is_typed : (value : Value) → HasType p f.type value → Conforms p f (some value)

when_iff : (b : Bool) (v : Violation) → ((if b then v ∷ [] else []) ≡ []) ↔ (b ≡ false)
when_iff true v = (λ h. absurd (ground (arith, h)), λ h. absurd (ground (arith, h)))
when_iff false v = (λ h. refl, λ h. refl)

unless_iff : (b : Bool) (v : Violation) → ((if b then [] else v ∷ []) ≡ []) ↔ (b ≡ true)
unless_iff true v = (λ h. refl, λ h. refl)
unless_iff false v = (λ h. absurd (ground (arith, h)), λ h. absurd (ground (arith, h)))

violations-Conforms :
    (p : Parsers) (f : DatasetField) (v : Option Value) → violations_of p f v ≡ [] → Conforms p f v
violations-Conforms p f none h = is_absent ((when_iff f.required (missing f.name)).0 h)
violations-Conforms p f (some null) h = is_null ((when_iff f.required (missing f.name)).0 h)
violations-Conforms p f (some (text s)) h = is_typed (text s) (
    matches-HasType p f.type (text s)
      ((unless_iff (matches_type p f.type (text s)) (mistyped f.name f.type)).0 h))
violations-Conforms p f (some (number n)) h = is_typed (number n) (
    matches-HasType p f.type (number n)
      ((unless_iff (matches_type p f.type (number n)) (mistyped f.name f.type)).0 h))
violations-Conforms p f (some (fraction s)) h = is_typed (fraction s) (
    matches-HasType p f.type (fraction s)
      ((unless_iff (matches_type p f.type (fraction s)) (mistyped f.name f.type)).0 h))
violations-Conforms p f (some (boolean b)) h = is_typed (boolean b) (
    matches-HasType p f.type (boolean b)
      ((unless_iff (matches_type p f.type (boolean b)) (mistyped f.name f.type)).0 h))
violations-Conforms p f (some (array items)) h = is_typed (array items) (
    matches-HasType p f.type (array items)
      ((unless_iff (matches_type p f.type (array items)) (mistyped f.name f.type)).0 h))
violations-Conforms p f (some (object d)) h = is_typed (object d) (
    matches-HasType p f.type (object d)
      ((unless_iff (matches_type p f.type (object d)) (mistyped f.name f.type)).0 h))

null_untyped : (p : Parsers) (t : FieldType) → matches_type p t null ≢ true
null_untyped p string h = ground (arith, h)
null_untyped p integer h = ground (arith, h)
null_untyped p real h = ground (arith, h)
null_untyped p truth h = ground (arith, h)
null_untyped p date h = ground (arith, h)
null_untyped p datetime h = ground (arith, h)

typed-violations :
    (p : Parsers) (f : DatasetField) (value : Value)
    → matches_type p f.type value ≡ true
    → violations_of p f (some value) ≡ []
typed-violations p f null h = absurd (null_untyped p f.type h)
typed-violations p f (text s) h =
    (unless_iff (matches_type p f.type (text s)) (mistyped f.name f.type)).1 h
typed-violations p f (number n) h =
    (unless_iff (matches_type p f.type (number n)) (mistyped f.name f.type)).1 h
typed-violations p f (fraction s) h =
    (unless_iff (matches_type p f.type (fraction s)) (mistyped f.name f.type)).1 h
typed-violations p f (boolean b) h =
    (unless_iff (matches_type p f.type (boolean b)) (mistyped f.name f.type)).1 h
typed-violations p f (array items) h =
    (unless_iff (matches_type p f.type (array items)) (mistyped f.name f.type)).1 h
typed-violations p f (object d) h =
    (unless_iff (matches_type p f.type (object d)) (mistyped f.name f.type)).1 h

Conforms-violations :
    (p : Parsers) (f : DatasetField) (v : Option Value) → Conforms p f v → violations_of p f v ≡ []
Conforms-violations p f v (is_absent h) = (when_iff f.required (missing f.name)).1 h
Conforms-violations p f v (is_null h) = (when_iff f.required (missing f.name)).1 h
Conforms-violations p f v (is_typed value h) =
    typed-violations p f value (HasType-matches p f.type value h)

Conforms-iff :
    (p : Parsers) (f : DatasetField) (v : Option Value)
    → (violations_of p f v ≡ []) ↔ Conforms p f v
Conforms-iff p f v = (violations-Conforms p f v, Conforms-violations p f v)

both_empty : (xs ys : List Violation) → xs ++ ys ≡ [] → (xs ≡ []) × (ys ≡ [])
both_empty [] ys h = (refl, h)
both_empty (x ∷ xs) ys h = absurd (ground (arith, h))

violations_iff :
    (p : Parsers) (schema : DatasetSchema) (payload : Members)
    → (violations p schema payload ≡ []) ↔ All (λ f. Conforms p f (get_field f.name payload)) schema
violations_iff p [] payload = (λ h. tt, λ h. refl)
violations_iff p (f ∷ fields) payload = (
  λ h.
      let e =
        both_empty (violations_of p f (get_field f.name payload)) (violations p fields payload) h in
      (
        (Conforms-iff p f (get_field f.name payload)).0 e.0,
        (violations_iff p fields payload).0 e.1,
      ),
  λ h.
      rw ((Conforms-iff p f (get_field f.name payload)).1 h.0)
        ((violations_iff p fields payload).1 h.1),
)

refused_iff : (found : List Violation) → (refused found ≡ ok tt) ↔ (found ≡ [])
refused_iff [] = (λ h. refl, λ h. refl)
refused_iff (v ∷ found) = (λ h. absurd (ground (arith, h)), λ h. absurd (ground (arith, h)))

-- A record is accepted just if each field of the schema is served: a required field has a value other
-- than null, and each value that there is has its field's type: a boolean is no
-- number, and a fraction no integer. Other keys of the record do not matter.
pub validate_record_exact :
    (p : Parsers) (schema : DatasetSchema) (payload : Members)
    → (validate_record p schema payload ≡ ok tt)
      ↔ All (λ f. Conforms p f (get_field f.name payload)) schema
unfolding validate_record
validate_record_exact p schema payload = (
  λ h. (violations_iff p schema payload).0 ((refused_iff (violations p schema payload)).0 h),
  λ h. (refused_iff (violations p schema payload)).1 ((violations_iff p schema payload).1 h),
)
