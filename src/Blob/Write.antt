-- ===== src/Blob/Write.antt =====
-- src/native/apxdb_collection.c: `serialize_field_payload` and `serialize_document_blob`. A writing
-- function gets the size of the buffer that is left, and returns the bytes that it puts there.
use apx_db.Common.{ℕ, zero, suc, ◌+◌, ◌-◌, [], ◌∷◌, ◌++◌, leb, if◌then◌else◌, Text, length}
use apx_db.Common.Int.{pos, in_range, int32_min, int32_max}
use apx_db.Common.Outcome.{Outcome, returned, failed, out_of_fuel, of_option, ◌>>=◌, ◌>>◌, require}
use apx_db.Libc.{Doubles}
use apx_db.Json.{
  Value, Items, bool, number, string, array, object, no_items, item, apxdb_json_object_get,
}
use apx_db.Schema.{
  Schema, Fields, Field, SchemaRef, no_fields, with_field, schema_at, fields_of, name_of, type_of,
  is_nullable, embedded_schema, element_field, is_sized, FieldType, byte, short, int, float, double,
  boolean, text, datetime, embedded, enumeration, list_of,
}
use apx_db.Blob.Scalars.{parse_integer_value, parse_numeric_value, le_bytes, pattern_of, Stores}
use apx_db.Blob.Size.{
  or_null, is_null, count_fields, header_size, compute_field_payload_size, document_size,
}

-- `if (buffer_size < k) return false;`, and else the bytes.
abbrev pub fits : ℕ → ℕ → Text → Outcome Text
fits buffer_size k bytes = if leb k buffer_size then returned bytes else failed

module _ {D : Type 0} ⦃fp : Doubles D⦄ ⦃st : Stores D⦄ where
  unfoldable pub write_scalar : FieldType → Value D → ℕ → Outcome Text
  write_scalar byte v buffer_size = do
    z ← of_option (parse_integer_value v)
    require (in_range (pos 0) (pos 255) z)
    fits buffer_size 1 (le_bytes 1 (pattern_of 8 z))
  write_scalar short v buffer_size = do
    z ← of_option (parse_integer_value v)
    require (in_range int32_min int32_max z)
    fits buffer_size 4 (le_bytes 4 (pattern_of 32 z))
  write_scalar int v buffer_size = do
    z ← of_option (parse_integer_value v)
    fits buffer_size 8 (le_bytes 8 (pattern_of 64 z))
  write_scalar float (number is_integer z d) buffer_size =
      fits buffer_size 4 (le_bytes 4 (st.float_bits d))
  write_scalar double (number is_integer z d) buffer_size =
      fits buffer_size 8 (le_bytes 8 (st.double_bits d))
  write_scalar boolean (bool b) buffer_size = fits buffer_size 1 ((if b then 1 else 0) ∷ [])
  write_scalar text (string s) buffer_size =
      fits buffer_size (4 + length s) (le_bytes 4 (length s) ++ s)
  write_scalar datetime v buffer_size = do
    d ← of_option (parse_numeric_value v)
    fits buffer_size 8 (le_bytes 8 (pattern_of 64 (st.to_int64 d)))
  write_scalar enumeration v buffer_size = do
    z ← of_option (parse_integer_value v)
    fits buffer_size 8 (le_bytes 8 (pattern_of 64 z))
  write_scalar _ _ _ = failed

-- One field's entry: offset, size, whether it is null, and three reserved bytes.
abbrev pub entry : ℕ → ℕ → ℕ → Text
entry offset size null_flag = le_bytes 4 offset ++ (le_bytes 4 size ++ null_flag ∷ 0 ∷ 0 ∷ 0 ∷ [])

-- 'AXBD', as the program writes it.
abbrev pub blob_magic : ℕ
blob_magic = 0x41584244

unfoldable pub count_items : {D : Type 0} → Items D → ℕ
count_items no_items = 0
count_items (item v vs) = suc (count_items vs)

-- `k` bytes of memory that `malloc` returned and nothing has written.
unfoldable pub unwritten : (ℕ → ℕ) → ℕ → Text
unwritten fresh zero = []
unwritten fresh (suc k) = fresh k ∷ unwritten fresh k

-- What is written of a blob of that size, and the bytes behind it.
unfoldable pub padded : (ℕ → ℕ) → ℕ → Text → Text
padded fresh size written = written ++ unwritten fresh (size - length written)

-- The length in front of a list's element of variable size.
abbrev pub list_prefix : Field → ℕ → Text
list_prefix element size = if is_sized (type_of element) then le_bytes 4 size else []

-- The loops, over the functions for one value.
module _ {D : Type 0} (size_of : Field → Value D → Outcome ℕ)
    (write : Field → Value D → ℕ → Outcome Text) where
  -- The loop over a list's elements, with the bytes that remain of the buffer.
  unfoldable pub write_items : Field → Items D → ℕ → Outcome Text
  write_items element no_items remaining = returned []
  write_items element (item v vs) remaining = do
    size ← size_of element v
    let prefix = list_prefix element size
    require (leb (length prefix + size) remaining)
    bytes ← write element v (remaining - length prefix)
    rest ← write_items element vs (remaining - length prefix - length bytes)
    returned (prefix ++ (bytes ++ rest))

  unfoldable pub write_list : Field → Value D → ℕ → Outcome Text
  write_list f (array vs) buffer_size = do
    require (leb 4 buffer_size)
    rest ← write_items (element_field f) vs (buffer_size - 4)
    returned (le_bytes 4 (count_items vs) ++ rest)
  write_list f _ buffer_size = failed

  -- The loop over a document's fields: the entries, and the payloads behind the header.
  unfoldable pub write_fields : Fields → Value D → ℕ → ℕ → Outcome (Text × Text)
  write_fields no_fields document blob_size offset = returned ([], [])
  write_fields (with_field f fs) document blob_size offset =
      let v = or_null (apxdb_json_object_get document (name_of f)) in
      if is_null v
      then (write_fields fs document blob_size offset >>= λ (entries, payloads).
          returned (entry 0 0 1 ++ entries, payloads))
      else (write f v (blob_size - offset) >>= λ bytes.
          write_fields fs document blob_size (offset + length bytes) >>= λ (entries, payloads).
          returned (entry offset (length bytes) 0 ++ entries, bytes ++ payloads))

  -- The blob has `header_size` bytes more than are written: the payload size that it is made for
  -- counts the header once more.
  unfoldable pub write_document : (ℕ → ℕ) → Schema → Value D → Outcome Text
  write_document fresh s document = do
    payload_size ← document_size size_of s document
    let header = header_size (fields_of s)
    let blob_size = header + payload_size
    (entries, payloads) ← write_fields (fields_of s) document blob_size header
    let count = le_bytes 4 (count_fields (fields_of s))
    let written = le_bytes 4 blob_magic ++ (le_bytes 4 1 ++ (count ++ (entries ++ payloads)))
    returned (padded fresh blob_size written)

  unfoldable pub write_embedded : (ℕ → ℕ) → SchemaRef → Value D → ℕ → Outcome Text
  write_embedded fresh (schema_at s) (object ms) buffer_size = do
    nested ← write_document fresh s (object ms)
    fits buffer_size (4 + length nested) (le_bytes 4 (length nested) ++ nested)
  write_embedded fresh _ _ buffer_size = failed

module _ {D : Type 0} ⦃fp : Doubles D⦄ ⦃st : Stores D⦄ (fresh : ℕ → ℕ) where
  -- The `switch` on the field's type.
  unfoldable pub write_by_type :
      (Field → Value D → Outcome ℕ)
      → (Field → Value D → ℕ → Outcome Text)
      → FieldType
      → Field
      → Value D
      → ℕ
      → Outcome Text
  write_by_type size_of write embedded f v buffer_size =
      write_embedded size_of write fresh (embedded_schema f) v buffer_size
  write_by_type size_of write list_of f v buffer_size = write_list size_of write f v buffer_size
  write_by_type size_of write type f v buffer_size = write_scalar type v buffer_size

  unfoldable pub serialize_field_payload : ℕ → Field → Value D → ℕ → Outcome Text
  serialize_field_payload zero f v buffer_size = out_of_fuel
  serialize_field_payload (suc n) f v buffer_size =
      if is_null v
      then (if is_nullable f then returned [] else failed)
      else write_by_type (compute_field_payload_size n) (serialize_field_payload n) (type_of f) f v
          buffer_size

  unfoldable pub serialize_document_blob : ℕ → Schema → Value D → Outcome Text
  unfolding write_document
  serialize_document_blob n s document =
      write_document (compute_field_payload_size n) (serialize_field_payload n) fresh s document
