-- ===== src/Examples/Blob.antt =====
-- Fields and values that are stored.
use apx_db.Common.{
  ℕ, ◌<◌, ◌≡◌, ◌≢◌, refl, true, false, [], none, Text, codes, text_eq, length, arith,
}
use apx_db.Common.Int.{pos}
use apx_db.Common.Outcome.{returned, out_of_fuel}
use apx_db.Json.{
  Value, Members, number, string, array, object, item, no_items, member, no_members, find_member,
  apxdb_json_object_get,
}
use apx_db.Schema.{
  schema, no_fields, with_field, Field, field, no_schema, schema_at, byte, text, list_of, embedded,
  ordinal,
}
use apx_db.Blob.Size.{
  size_by_type, size_list, size_items, scalar_size, size_embedded, document_size, size_fields,
  count_fields, compute_field_payload_size,
}
use apx_db.Blob.Write.{serialize_field_payload}
use apx_db.Blob.Scalars.{parse_integer_value}
use apx_db.Blob.Agree.{serialize_field_payload-compute_field_payload_size}
use apx_db.Blob.Embedded.{serialize_field_payload-embedded}
use apx_db.Blob.Fuel.{compute_field_payload_size-ne-out_of_fuel}
use apx_db.Json.Depth.{depth}
use apx_db.Examples.{whole_doubles, whole_stores}

-- A list of texts, and ["a", "bc"].
abbrev tags_field : Field
tags_field = field (codes "tags") list_of false no_schema text no_schema ordinal []

abbrev two_tags : Value ℕ
two_tags = array (item (string (codes "a")) (item (string (codes "bc")) no_items))

-- Memory that is full of zeros.
abbrev zeros : ℕ → ℕ
zeros k = 0

two_tags-size : compute_field_payload_size 3 tags_field two_tags ≡ returned 23
unfolding compute_field_payload_size size_by_type size_list size_items scalar_size
two_tags-size = refl

serialize_field_payload-compute_field_payload_size_example :
    (bytes : Text) × (serialize_field_payload zeros 3 tags_field two_tags 30 ≡ returned bytes)
    × (length bytes ≡ 23)
serialize_field_payload-compute_field_payload_size_example =
    serialize_field_payload-compute_field_payload_size ℕ zeros 3 tags_field two_tags 23 30
      ((λ e. cc), (λ e. cc)) two_tags-size (omega arith)

-- An object with one small number.
abbrev point_field : Field
point_field =
    field (codes "at") embedded false
      (schema_at (
        schema none (
          with_field (field (codes "x") byte false no_schema byte no_schema ordinal []) no_fields)))
      byte no_schema ordinal []

abbrev point_members : Members ℕ
point_members = member (codes "x") (number true (pos 4) 4) no_members

point-size : compute_field_payload_size 3 point_field (object point_members) ≡ returned 29
unfolding compute_field_payload_size size_by_type size_embedded document_size size_fields
    scalar_size apxdb_json_object_get find_member text_eq count_fields parse_integer_value
point-size = refl

serialize_field_payload-embedded_example :
    serialize_field_payload zeros 3 point_field (object point_members) 40 ≢ returned []
serialize_field_payload-embedded_example =
    serialize_field_payload-embedded ℕ zeros 3 point_field point_members 29 40 [] refl point-size
      (omega arith)

two_tags-depth : depth two_tags < 3
unfolding depth
two_tags-depth = omega arith

compute_field_payload_size-ne-out_of_fuel_example :
    compute_field_payload_size 3 tags_field two_tags ≢ out_of_fuel
compute_field_payload_size-ne-out_of_fuel_example =
    compute_field_payload_size-ne-out_of_fuel 3 tags_field two_tags two_tags-depth
