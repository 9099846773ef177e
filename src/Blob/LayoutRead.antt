-- ===== src/Blob/LayoutRead.antt =====
-- src/native/apxdb_collection.c: where a collection's layout puts a field in a row. The row is what stands
-- behind the header of a blob; sums in `uint32_t` wrap.
use apx_db.Common.{
  ℕ, zero, suc, ◌+◌, ◌-◌, ◌/◌, ◌%◌, ◌^◌, Bool, true, false, ◌||◌, [], ◌∷◌, Option, none, some, ltb,
  leb, ◌==◌, not, if◌then◌else◌, Text, take, drop, length, peek, get_elem?,
}
use apx_db.Schema.{Schema, Fields, Field, no_fields, with_field, fields_of, is_nullable}
use apx_db.Schema.Layout.{Layout, FieldLayout, fixed, variable}
use apx_db.Blob.Size.{header_size}
use apx_db.Blob.Read.{read_le, get_schema_field_index, get_blob_field_payload}
use apx_db.Collection.{Collection}

-- `strchr(path, '.') != NULL`.
abbrev has_dot : Text → Bool
has_dot [] = false
has_dot (c ∷ path) = c == b'.' || has_dot path

-- How many of the first fields are nullable.
unfoldable nullable_before : ℕ → Fields → ℕ
nullable_before zero fs = 0
nullable_before (suc i) no_fields = 0
nullable_before (suc i) (with_field f fs) = (if is_nullable f then 1 else 0) + nullable_before i fs

-- Whether the row has the field: a bit of the bitmap says that it is null, or there is no such bit.
unfoldable has_value : Layout → Schema → ℕ → Field → Text → Bool
unfolding nullable_before
has_value l s i f row_body =
    let bit = nullable_before i (fields_of s) in
    if not (is_nullable f)
    then true
    else if leb l.nullable_bitmap_size (bit / 8)
    then false
    else peek (drop (bit / 8) row_body) / 2 ^ (bit % 8) % 2 == 0

-- The bytes that a slot names, or that stand in the slot's place. The second argument is how many bytes
-- there are behind the header.
unfoldable row_payload : Layout → FieldLayout → ℕ → Text → Option Text
unfolding read_le
row_payload l x row_size row_body = elim x.storage_kind [
  | variable ↦
      let payload_offset = read_le 4 (drop x.offset row_body) in
      let payload_size = read_le 4 (drop (x.offset + 4) row_body) in
      if ltb l.row_fixed_size (x.offset + 8)
      then none
      else if payload_size == 0 || ltb row_size ((payload_offset + payload_size) % 2 ^ 32)
      then none
      else some (take payload_size (drop payload_offset row_body))
  | fixed ↦
      if ltb l.row_fixed_size ((x.offset + x.size) % 2 ^ 32)
      then none
      else some (take x.size (drop x.offset row_body))
]

abbrev with_field_of : Field → Option Text → Option (Field × Text)
with_field_of f none = none
with_field_of f (some payload) = some (f, payload)

unfoldable get_blob_field_payload_with_layout :
    Layout → Schema → Text → Text → Option (Field × Text)
unfolding has_value row_payload
get_blob_field_payload_with_layout l s blob path =
    let header = header_size (fields_of s) in
    let row_body = drop header blob in
    if has_dot path then none else elim (get_schema_field_index s path) [
      | none ↦ none
      | some (i, f) ↦ elim (get_elem? l.field_layouts i) [
        | none ↦ none
        | some x ↦
            if ltb (length blob) (header + l.row_fixed_size)
            then none
            else if has_value l s i f row_body
            then with_field_of f (row_payload l x (length blob - header) row_body)
            else none
      ]
    ]

unfoldable pub get_collection_blob_field_payload :
    {D : Type 0} → Collection D → Text → Text → Option (Field × Text)
unfolding get_blob_field_payload_with_layout
get_collection_blob_field_payload c blob path = elim c.layout [
  | none ↦ get_blob_field_payload c.collection_schema blob path
  | some l ↦ elim (get_blob_field_payload_with_layout l c.collection_schema blob path) [
    | some r ↦ some r
    | none ↦ get_blob_field_payload c.collection_schema blob path
  ]
]
