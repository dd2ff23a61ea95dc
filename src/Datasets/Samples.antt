-- ===== src/Datasets/Samples.antt =====
-- The properties of schemas and records at a schema of two fields.
use octo_forge.Base.{true, false, ok, [], ◌∷◌, ◌≡◌, ◌↔◌, refl, All}
use octo_forge.Json.{Members, member, no_members, text, number, get_field}
use octo_forge.Datasets.Schema.{
  DatasetSchema, string, integer, Parsers, parse_schema, dump_schema, validate_record,
}
use octo_forge.Datasets.Validation.{Conforms, schema_round_trip, validate_record_exact}

abbrev meals : DatasetSchema
meals =
    record { name = "item"; type = string; required = true }
    ∷ record { name = "calories"; type = integer; required = false }
    ∷ []

schema_round_trip_example : parse_schema (dump_schema meals) ≡ ok meals
schema_round_trip_example = schema_round_trip meals (refl, (refl, tt)) refl

abbrev parsers : Parsers
parsers = record { is_date = λ s. false; is_datetime = λ s. false }

abbrev soup : Members
soup = member "item" (text "soup") (member "calories" (number 120) no_members)

validate_record_exact_example :
    (validate_record parsers meals soup ≡ ok tt)
    ↔ All (λ f. Conforms parsers f (get_field f.name soup)) meals
validate_record_exact_example = validate_record_exact parsers meals soup
