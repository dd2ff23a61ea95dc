-- ===== src/Datasets/Schema.antt =====
-- core/src/octoforge_core/datasets/validation.py: the schema of a dataset and the check of a record. The
-- parsers of dates and times (`date.fromisoformat`, `datetime.fromisoformat`) are arguments, as tests.
use octo_forge.Base.{
  ◌++◌, ℕ, ◌+◌, String, Bool, true, false, Option, none, some, List, [], ◌∷◌, ◌&&◌, ◌||◌, str_eq,
  if◌then◌else◌, any, Result, ok, err, ◌>>=◌,
}
use octo_forge.Json.{
  Value, text, array, object, number, fraction, boolean, null, Elements, element, no_elements,
  Members, member, no_members, get_field,
}
use octo_forge.Agent.Router.{is_space}

pub data FieldType : Type 0 where
  string integer real truth date datetime : FieldType

abbrev pub type_value : FieldType → String
type_value string = "string"
type_value integer = "integer"
type_value real = "number"
type_value truth = "boolean"
type_value date = "date"
type_value datetime = "datetime"

pub record DatasetField : Type 0 where
  pub name : String
  pub type : FieldType
  pub required : Bool

-- `DatasetSchema`: its fields
abbrev pub DatasetSchema : Type 0
DatasetSchema = List DatasetField

-- what `DatasetSchemaError` says
pub data DatasetSchemaError : Type 0 where
  no_object no_fields duplicated : DatasetSchemaError
  field_no_object field_no_name : ℕ → DatasetSchemaError
  unknown_type required_no_boolean : String → DatasetSchemaError

-- `not name.strip()`
abbrev pub is_blank : String → Bool
is_blank String.[] = true
is_blank (String.◌∷◌ c s) = is_space c && is_blank s

-- `FieldType(str(raw))`: the text of a value that is no text is no type either
abbrev pub parse_field_type : String → Option Value → Result DatasetSchemaError FieldType
parse_field_type name (some (text s)) =
    if str_eq s "string"
    then ok string
    else if str_eq s "integer"
    then ok integer
    else if str_eq s "number"
    then ok real
    else if str_eq s "boolean"
    then ok truth
    else if str_eq s "date"
    then ok date
    else if str_eq s "datetime"
    then ok datetime
    else err (unknown_type name)
parse_field_type name _ = err (unknown_type name)

-- `entry.get(REQUIRED_KEY, False)`, which has to be a boolean
abbrev pub parse_required : String → Option Value → Result DatasetSchemaError Bool
parse_required name none = ok false
parse_required name (some (boolean b)) = ok b
parse_required name (some _) = err (required_no_boolean name)

abbrev pub parse_name : ℕ → Option Value → Result DatasetSchemaError String
parse_name index (some (text s)) = if is_blank s then err (field_no_name index) else ok s
parse_name index _ = err (field_no_name index)

abbrev pub parse_field : ℕ → Value → Result DatasetSchemaError DatasetField
parse_field index (object entry) = do
  name ← parse_name index (get_field "name" entry)
  type ← parse_field_type name (get_field "type" entry)
  required ← parse_required name (get_field "required" entry)
  ok (record { name = name; type = type; required = required })
parse_field index _ = err (field_no_object index)

abbrev pub parse_fields : ℕ → Elements → Result DatasetSchemaError (List DatasetField)
parse_fields index no_elements = ok []
parse_fields index (element entry rest) = do
  field ← parse_field index entry
  fields ← parse_fields (index + 1) rest
  ok (field ∷ fields)

-- `len(set(names)) != len(names)`
abbrev pub repeats : List DatasetField → Bool
repeats [] = false
repeats (f ∷ fields) = any (λ g. str_eq g.name f.name) fields || repeats fields

abbrev pub admit : List DatasetField → Result DatasetSchemaError DatasetSchema
admit fields = if repeats fields then err duplicated else ok fields

abbrev pub parse_list : Option Value → Result DatasetSchemaError DatasetSchema
parse_list (some (array items)) = parse_fields 0 items >>= admit
parse_list _ = err no_fields

unfoldable pub parse_schema : Value → Result DatasetSchemaError DatasetSchema
parse_schema (object raw) = parse_list (get_field "fields" raw)
parse_schema _ = err no_object

abbrev pub dump_field : DatasetField → Value
dump_field f = object (
    member "name" (text f.name) (
      member "type" (text (type_value f.type)) (member "required" (boolean f.required) no_members)))

abbrev pub dump_fields : List DatasetField → Elements
dump_fields [] = no_elements
dump_fields (f ∷ fields) = element (dump_field f) (dump_fields fields)

unfoldable pub dump_schema : DatasetSchema → Value
dump_schema fields = object (member "fields" (array (dump_fields fields)) no_members)

-- the two parsers of the standard library, as tests of a text
pub record Parsers : Type 0 where
  pub is_date : String → Bool
  pub is_datetime : String → Bool

abbrev pub matches_type : Parsers → FieldType → Value → Bool
matches_type p string (text s) = true
matches_type p integer (number n) = true
matches_type p real (number n) = true
matches_type p real (fraction s) = true
matches_type p truth (boolean b) = true
matches_type p date (text s) = p.is_date s
matches_type p datetime (text s) = p.is_datetime s
matches_type p _ value = false

-- a violation of a record, by the field's name
pub data Violation : Type 0 where
  missing : String → Violation
  mistyped : String → FieldType → Violation

-- what `payload.get(field.name)` violates
abbrev pub violations_of : Parsers → DatasetField → Option Value → List Violation
violations_of p f none = if f.required then missing f.name ∷ [] else []
violations_of p f (some null) = if f.required then missing f.name ∷ [] else []
violations_of p f (some value) =
    if matches_type p f.type value then [] else mistyped f.name f.type ∷ []

abbrev pub violations : Parsers → DatasetSchema → Members → List Violation
violations p [] payload = []
violations p (f ∷ fields) payload =
    violations_of p f (get_field f.name payload) ++ violations p fields payload

abbrev pub refused : List Violation → Result (List Violation) (Unit {0})
refused [] = ok tt
refused (v ∷ found) = err (v ∷ found)

unfoldable pub validate_record :
    Parsers → DatasetSchema → Members → Result (List Violation) (Unit {0})
validate_record p schema payload = refused (violations p schema payload)
