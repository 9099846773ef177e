-- ===== src/Collection/Signature.antt =====
-- src/native/apxdb_collection.c: `compute_schema_signature`, an FNV-1a hash of a schema in 64 bits.
use Prim.Native.Nat.{bit_xor}
use apx_db.Common.{
  ℕ, ◌*◌, ◌%◌, ◌^◌, Bool, true, false, List, [], ◌∷◌, Option, none, some, Text, length,
  if◌then◌else◌,
}
use apx_db.Common.Int.{ℤ}
use apx_db.Schema.{
  Schema, Fields, Field, SchemaRef, schema, field, no_fields, with_field, no_schema, schema_at,
  FieldType, byte, short, int, float, double, boolean, text, datetime, embedded, enumeration,
  list_of, EnumStrategy, ordinal, ordinal32, by_name, by_value,
}
use apx_db.Blob.Scalars.{le_bytes, pattern_of}
use apx_db.Blob.Size.{count_fields}

-- The numbers of the enumerations' constants.
unfoldable pub type_code : FieldType → ℕ
type_code byte = 0
type_code short = 1
type_code int = 2
type_code float = 3
type_code double = 4
type_code boolean = 5
type_code text = 6
type_code datetime = 7
type_code embedded = 8
type_code enumeration = 9
type_code list_of = 10

unfoldable pub strategy_code : EnumStrategy → ℕ
strategy_code ordinal = 0
strategy_code ordinal32 = 1
strategy_code by_name = 2
strategy_code by_value = 3

unfoldable pub fnv1a_hash_bytes : ℕ → Text → ℕ
fnv1a_hash_bytes hash [] = hash
fnv1a_hash_bytes hash (c ∷ bytes) = fnv1a_hash_bytes (bit_xor hash c * 1099511628211 % 2 ^ 64) bytes

unfoldable pub fnv1a_hash_string : ℕ → Option Text → ℕ
unfolding fnv1a_hash_bytes
fnv1a_hash_string hash none = hash
fnv1a_hash_string hash (some s) = fnv1a_hash_bytes hash s

abbrev pub hash_number : ℕ → ℕ → ℕ → ℕ
hash_number size n hash = fnv1a_hash_bytes hash (le_bytes size n)

-- The loop over an enumeration's values.
unfoldable pub hash_enum_values : List (Text × ℤ) → ℕ → ℕ
unfolding le_bytes fnv1a_hash_bytes fnv1a_hash_string
hash_enum_values [] hash = hash
hash_enum_values ((name, value) ∷ values) hash =
    hash_enum_values values
      (hash_number 8 (pattern_of 64 value) (fnv1a_hash_string hash (some name)))

unfoldable pub hash_enum : List (Text × ℤ) → ℕ → ℕ
unfolding hash_enum_values
hash_enum [] hash = hash
hash_enum (v ∷ values) hash =
    hash_number 8 (length (v ∷ values)) (hash_enum_values (v ∷ values) hash)

abbrev pub hash_signature : Bool → Option ℕ → ℕ → ℕ
hash_signature false nested hash = hash
hash_signature true none hash = hash
hash_signature true (some signature) hash = hash_number 8 signature hash

abbrev pub is_embedded_type : FieldType → Bool
is_embedded_type embedded = true
is_embedded_type _ = false

abbrev pub is_list_type : FieldType → Bool
is_list_type list_of = true
is_list_type _ = false

unfoldable mutual
  unfolding le_bytes fnv1a_hash_bytes fnv1a_hash_string hash_enum type_code strategy_code
      count_fields

  pub compute_schema_signature : Schema → ℕ
  compute_schema_signature (schema name fs) =
      hash_fields fs (hash_number 8 (count_fields fs) (fnv1a_hash_string 1469598103934665603 name))

  -- The loop over the fields.
  pub hash_fields : Fields → ℕ → ℕ
  hash_fields no_fields hash = hash
  hash_fields (with_field f fs) hash = hash_fields fs (hash_field f hash)

  pub hash_field : Field → ℕ → ℕ
  hash_field (field name type nullable embeds element_type element_schema strategy values) hash =
      let nested = nested_signature embeds in
      let nested_element = nested_signature element_schema in
      let named = fnv1a_hash_string hash (some name) in
      let typed = hash_number 4 (type_code type) named in
      let flagged = hash_number 1 (if nullable then 1 else 0) typed in
      let strategic = hash_number 4 (strategy_code strategy) flagged in
      let listed = hash_number 4 (type_code element_type) strategic in
      hash_enum values (
        hash_signature (is_list_type type) nested_element
          (hash_signature (is_embedded_type type) nested listed))

  pub nested_signature : SchemaRef → Option ℕ
  nested_signature no_schema = none
  nested_signature (schema_at s) = some (compute_schema_signature s)
