-- ===== src/Collection/Validate.antt =====
-- src/native/apxdb_collection.c: whether a document conforms to a schema. `returned tt` is `true` and
-- `failed` is `false`; each call for a value costs a unit of fuel.
use apx_db.Common.{
  ℕ, zero, suc, Bool, true, false, List, [], ◌∷◌, ltb, ◌==◌, if◌then◌else◌, Text, text_eq, length,
}
use apx_db.Common.Int.{ℤ, pos, negsuc, in_range, int32_min, int32_max, eq_ℤ}
use apx_db.Common.Outcome.{Outcome, returned, failed, out_of_fuel, ◌>>=◌, ◌>>◌, require}
use apx_db.Libc.{Doubles}
use apx_db.Json.{
  Value, Items, null, bool, number, string, array, object, no_items, item, apxdb_json_object_get,
}
use apx_db.Json.Depth.{depth}
use apx_db.Json.Parser.{apxdb_json_parse}
use apx_db.Schema.{
  Schema, Fields, Field, SchemaRef, no_fields, with_field, no_schema, schema_at, fields_of, name_of,
  type_of, is_nullable, embedded_schema, element_field, enum_strategy, enum_values, EnumStrategy,
  ordinal, ordinal32, by_name, by_value, FieldType, byte, short, int, float, double, boolean, text,
  datetime, embedded, enumeration, list_of,
}
use apx_db.Blob.Size.{or_null, is_null}

unfoldable pub has_enum_name : Text → List (Text × ℤ) → Bool
has_enum_name s [] = false
has_enum_name s ((name, z) ∷ values) = if text_eq name s then true else has_enum_name s values

unfoldable pub has_enum_value : ℤ → List (Text × ℤ) → Bool
has_enum_value z [] = false
has_enum_value z ((name, w) ∷ values) = if eq_ℤ w z then true else has_enum_value z values

abbrev is_ordinal : ℤ → ℕ → Bool
is_ordinal (pos n) count = ltb n count
is_ordinal (negsuc n) count = false

module _ {D : Type 0} where
  unfoldable pub enum_matches : EnumStrategy → List (Text × ℤ) → Value D → Bool
  enum_matches by_name values (string s) = has_enum_name s values
  enum_matches by_value values (number true z d) = has_enum_value z values
  enum_matches ordinal values (number true z d) = is_ordinal z (length values)
  enum_matches ordinal32 values (number true z d) = is_ordinal z (length values)
  enum_matches _ values _ = false

  -- Without values, each loop finds nothing, so the test for them adds none of its own.
  unfoldable pub validate_enum_field : Field → Value D → Bool
  unfolding enum_matches
  validate_enum_field f v =
      if is_null v
      then is_nullable f
      else if length (enum_values f) == 0
      then false
      else enum_matches (enum_strategy f) (enum_values f) v

  -- The types that are not made of others.
  unfoldable pub validate_scalar : FieldType → Field → Value D → Bool
  unfolding validate_enum_field
  validate_scalar byte f (number true z d) = in_range (pos 0) (pos 255) z
  validate_scalar short f (number true z d) = in_range int32_min int32_max z
  validate_scalar int f (number is_integer z d) = is_integer
  validate_scalar float f (number is_integer z d) = true
  validate_scalar double f (number is_integer z d) = true
  validate_scalar boolean f (bool b) = true
  validate_scalar text f (string s) = true
  validate_scalar datetime f (number is_integer z d) = true
  validate_scalar datetime f (string s) = true
  validate_scalar enumeration f v = validate_enum_field f v
  validate_scalar _ f _ = false

module _ {D : Type 0} (validate : Field → Value D → Outcome (Unit {0})) where
  unfoldable pub validate_elements : Field → Items D → Outcome (Unit {0})
  validate_elements element no_items = returned tt
  validate_elements element (item v vs) = validate element v >> validate_elements element vs

  unfoldable pub validate_json_array : Field → Value D → Outcome (Unit {0})
  validate_json_array f null = require (is_nullable f)
  validate_json_array f (array vs) = validate_elements (element_field f) vs
  validate_json_array f _ = failed

  unfoldable pub validate_fields : Fields → Value D → Outcome (Unit {0})
  validate_fields no_fields document = returned tt
  validate_fields (with_field f fs) document =
      let v = or_null (apxdb_json_object_get document (name_of f)) in
      (if is_null v then require (is_nullable f) else validate f v) >> validate_fields fs document

  unfoldable pub validate_json_object : Schema → Value D → Outcome (Unit {0})
  validate_json_object s (object ms) = validate_fields (fields_of s) (object ms)
  validate_json_object s _ = failed

  unfoldable pub validate_embedded : SchemaRef → Value D → Outcome (Unit {0})
  validate_embedded (schema_at s) v = validate_json_object s v
  validate_embedded no_schema v = failed

  unfoldable pub validate_by_type : FieldType → Field → Value D → Outcome (Unit {0})
  validate_by_type embedded f v = validate_embedded (embedded_schema f) v
  validate_by_type list_of f v = validate_json_array f v
  validate_by_type type f v = require (validate_scalar type f v)

module _ {D : Type 0} where
  unfoldable pub validate_json_value : ℕ → Field → Value D → Outcome (Unit {0})
  validate_json_value zero f v = out_of_fuel
  validate_json_value (suc n) f v =
      if is_null v
      then require (is_nullable f)
      else validate_by_type (validate_json_value n) (type_of f) f v

-- The value that the parser gives, with as much fuel as its nesting needs.
unfoldable pub validate_document_against_schema :
    (D : Type 0) → ⦃fp : Doubles D⦄ → Schema → Text → Outcome (Unit {0})
validate_document_against_schema D s json = apxdb_json_parse {D = D} json >>= λ root.
    validate_json_object (validate_json_value (depth root)) s root
