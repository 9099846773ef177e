-- ===== src/Blob/Size.antt =====
-- src/native/apxdb_collection.c: `compute_field_payload_size` and `compute_document_blob_size`. Each
-- call costs a unit of fuel; `Blob.Fuel` has how much is enough.
use apx_db.Common.{
  ℕ, zero, suc, ◌+◌, ◌*◌, Bool, true, false, Option, none, some, if◌then◌else◌, length,
}
use apx_db.Common.Int.{pos, in_range, int32_min, int32_max}
use apx_db.Common.Outcome.{Outcome, returned, failed, out_of_fuel, of_option, ◌>>=◌, ◌>>◌, require}
use apx_db.Libc.{Doubles}
use apx_db.Json.{
  Value, Items, null, bool, number, string, array, object, no_items, item, apxdb_json_object_get,
}
use apx_db.Schema.{
  Schema, Fields, Field, SchemaRef, no_fields, with_field, schema_at, fields_of, name_of, type_of,
  is_nullable, embedded_schema, element_field, is_sized, FieldType, byte, short, int, float, double,
  boolean, text, datetime, embedded, enumeration, list_of,
}
use apx_db.Blob.Scalars.{parse_integer_value, parse_numeric_value}

-- The member of that name, or null.
abbrev pub or_null : {D : Type 0} → Option (Value D) → Value D
or_null none = null
or_null (some v) = v

abbrev pub is_null : {D : Type 0} → Value D → Bool
is_null null = true
is_null _ = false

unfoldable pub count_fields : Fields → ℕ
count_fields no_fields = 0
count_fields (with_field f fs) = suc (count_fields fs)

-- Magic, version and field count, and an entry of 12 bytes for each field.
abbrev pub header_size : Fields → ℕ
header_size fs = 12 + 12 * count_fields fs

-- What an element adds to a list.
abbrev pub in_list : Field → ℕ → ℕ
in_list element size = if is_sized (type_of element) then 4 + size else size

module _ {D : Type 0} ⦃fp : Doubles D⦄ where
  -- The types whose size does not depend on the value, with the values that they take.
  unfoldable pub scalar_size : FieldType → Value D → Outcome ℕ
  scalar_size byte v = do
    z ← of_option (parse_integer_value v)
    require (in_range (pos 0) (pos 255) z)
    returned 1
  scalar_size short v = do
    z ← of_option (parse_integer_value v)
    require (in_range int32_min int32_max z)
    returned 4
  scalar_size int v = of_option (parse_integer_value v) >>= λ z. returned 8
  scalar_size float (number is_integer z d) = returned 4
  scalar_size double (number is_integer z d) = returned 8
  scalar_size boolean (bool b) = returned 1
  scalar_size text (string s) = returned (4 + length s)
  scalar_size datetime v = of_option (parse_numeric_value v) >>= λ d. returned 8
  scalar_size enumeration v = of_option (parse_integer_value v) >>= λ z. returned 8
  scalar_size _ _ = failed

-- The loops over the elements of a list and over the fields of a schema, and the functions that
-- hold them, over the function for one value.
module _ {D : Type 0} (size_of : Field → Value D → Outcome ℕ) where
  unfoldable pub size_items : Field → Items D → Outcome ℕ
  size_items element no_items = returned 0
  size_items element (item v vs) = do
    size ← size_of element v
    total ← size_items element vs
    returned (in_list element size + total)

  unfoldable pub size_fields : Fields → Value D → Outcome ℕ
  size_fields no_fields document = returned 0
  size_fields (with_field f fs) document = do
    size ← size_of f (or_null (apxdb_json_object_get document (name_of f)))
    total ← size_fields fs document
    returned (size + total)

  unfoldable pub document_size : Schema → Value D → Outcome ℕ
  document_size s document = do
    total ← size_fields (fields_of s) document
    returned (header_size (fields_of s) + total)

  unfoldable pub size_embedded : SchemaRef → Value D → Outcome ℕ
  size_embedded (schema_at s) (object ms) = do
    nested ← document_size s (object ms)
    returned (4 + nested)
  size_embedded _ _ = failed

  unfoldable pub size_list : Field → Value D → Outcome ℕ
  size_list f (array vs) = size_items (element_field f) vs >>= λ total. returned (4 + total)
  size_list f _ = failed

module _ {D : Type 0} ⦃fp : Doubles D⦄ where
  -- The `switch` on the field's type.
  unfoldable pub size_by_type :
      (Field → Value D → Outcome ℕ) → FieldType → Field → Value D → Outcome ℕ
  size_by_type size_of embedded f v = size_embedded size_of (embedded_schema f) v
  size_by_type size_of list_of f v = size_list size_of f v
  size_by_type size_of type f v = scalar_size type v

  unfoldable pub compute_field_payload_size : ℕ → Field → Value D → Outcome ℕ
  compute_field_payload_size zero f v = out_of_fuel
  compute_field_payload_size (suc n) f v =
      if is_null v
      then (if is_nullable f then returned 0 else failed)
      else size_by_type (compute_field_payload_size n) (type_of f) f v

  unfoldable pub compute_document_blob_size : ℕ → Schema → Value D → Outcome ℕ
  unfolding document_size
  compute_document_blob_size n s document = document_size (compute_field_payload_size n) s document
