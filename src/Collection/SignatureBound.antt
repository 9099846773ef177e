-- ===== src/Collection/SignatureBound.antt =====
-- src/native/apxdb_collection.c: a schema's signature fits into 64 bits.
use apx_db.Common.{
  ℕ, ◌^◌, ◌<◌, Bool, true, false, List, [], ◌∷◌, Option, none, some, Text, arith, length,
  if◌then◌else◌,
}
use apx_db.Common.Int.{ℤ}
use apx_db.Schema.{Schema, Fields, Field, schema, field, no_fields, with_field}
use apx_db.Blob.Scalars.{le_bytes, pattern_of}
use apx_db.Blob.Size.{count_fields}
use apx_db.Collection.Signature.{
  fnv1a_hash_bytes, fnv1a_hash_string, hash_enum_values, hash_enum, hash_signature,
  compute_schema_signature, hash_fields, hash_field, is_list_type, is_embedded_type,
  nested_signature, type_code, strategy_code,
}

fnv1a_hash_bytes-lt :
    (bytes : Text) (hash : ℕ) → hash < 2 ^ 64 → fnv1a_hash_bytes hash bytes < 2 ^ 64
unfolding fnv1a_hash_bytes
fnv1a_hash_bytes-lt [] hash h = h
fnv1a_hash_bytes-lt (c ∷ bytes) hash h = fnv1a_hash_bytes-lt bytes _ (omega arith)

fnv1a_hash_string-lt :
    (hash : ℕ) (s : Option Text) → hash < 2 ^ 64 → fnv1a_hash_string hash s < 2 ^ 64
unfolding fnv1a_hash_string
fnv1a_hash_string-lt hash none h = h
fnv1a_hash_string-lt hash (some s) h = fnv1a_hash_bytes-lt s hash h

hash_enum_values-lt :
    (values : List (Text × ℤ)) (hash : ℕ) → hash < 2 ^ 64 → hash_enum_values values hash < 2 ^ 64
unfolding hash_enum_values
hash_enum_values-lt [] hash h = h
hash_enum_values-lt ((name, value) ∷ values) hash h =
    hash_enum_values-lt values _
      (fnv1a_hash_bytes-lt (le_bytes 8 (pattern_of 64 value)) _ (fnv1a_hash_bytes-lt name hash h))

hash_enum-lt :
    (values : List (Text × ℤ)) (hash : ℕ) → hash < 2 ^ 64 → hash_enum values hash < 2 ^ 64
unfolding hash_enum
hash_enum-lt [] hash h = h
hash_enum-lt (v ∷ values) hash h =
    fnv1a_hash_bytes-lt (le_bytes 8 (length (v ∷ values))) _
      (hash_enum_values-lt (v ∷ values) hash h)

hash_signature-lt :
    (b : Bool) (nested : Option ℕ) (hash : ℕ)
    → hash < 2 ^ 64
    → hash_signature b nested hash < 2 ^ 64
hash_signature-lt false nested hash h = h
hash_signature-lt true none hash h = h
hash_signature-lt true (some signature) hash h = fnv1a_hash_bytes-lt (le_bytes 8 signature) hash h

hash_field-lt : (f : Field) (hash : ℕ) → hash < 2 ^ 64 → hash_field f hash < 2 ^ 64
unfolding hash_field
hash_field-lt (field name type nullable embeds element_type element_schema strategy values) hash h =
    hash_enum-lt values _ (
      hash_signature-lt (is_list_type type) (nested_signature element_schema) _ (
        hash_signature-lt (is_embedded_type type) (nested_signature embeds) _ (
          fnv1a_hash_bytes-lt (le_bytes 4 (type_code element_type)) _ (
            fnv1a_hash_bytes-lt (le_bytes 4 (strategy_code strategy)) _ (
              fnv1a_hash_bytes-lt (le_bytes 1 (if nullable then 1 else 0)) _ (
                fnv1a_hash_bytes-lt (le_bytes 4 (type_code type)) _
                  (fnv1a_hash_string-lt hash (some name) h)))))))

hash_fields-lt : (fs : Fields) (hash : ℕ) → hash < 2 ^ 64 → hash_fields fs hash < 2 ^ 64
unfolding hash_fields
hash_fields-lt no_fields hash h = h
hash_fields-lt (with_field f fs) hash h = hash_fields-lt fs _ (hash_field-lt f hash h)

pub compute_schema_signature-lt : (s : Schema) → compute_schema_signature s < 2 ^ 64
unfolding compute_schema_signature
compute_schema_signature-lt (schema name fs) = hash_fields-lt fs _ (
    fnv1a_hash_bytes-lt (le_bytes 8 (count_fields fs)) _
      (fnv1a_hash_string-lt 1469598103934665603 name (omega arith)))
