-- ===== src/Blob/Read.antt =====
-- src/native/apxdb_collection.c: reading the bytes of a blob. A payload is the list of its bytes, of
-- `payload_size`; where the code would read memory behind a blob, there are no bytes.
use apx_db.Common.{
  ℕ, zero, suc, ◌+◌, ◌-◌, ◌*◌, ◌^◌, Bool, true, false, ◌||◌, ◌∷◌, ◌++◌, [], List, Option, none,
  some, ltb, leb, ◌==◌, if◌then◌else◌, not, Text, codes, text_eq, length, take, drop, peek,
}
use apx_db.Common.Int.{ℤ, pos, negsuc}
use apx_db.Libc.Decimal.{decimal, decimal_ℤ}
use apx_db.Schema.{
  Schema, Fields, Field, no_fields, with_field, schema_at, no_schema, fields_of, name_of, type_of,
  embedded_schema, FieldType, byte, short, int, float, double, boolean, text, datetime, embedded,
  enumeration,
}

-- How the program reads a `float` and a `double`, converts an integer, and prints with `"%.*g"`.
pub record Loads (D : Type 0) : Type 0 where
  pub of_float_bits : ℕ → D
  pub of_double_bits : ℕ → D
  pub of_int64 : ℤ → D
  pub format_double : ℕ → D → Text

-- `memcpy` of `k` bytes into an unsigned integer.
unfoldable pub read_le : ℕ → Text → ℕ
read_le zero bytes = 0
read_le (suc k) [] = 0
read_le (suc k) (c ∷ bytes) = c + 256 * read_le k bytes

-- The signed integer of `bits` bits with that pattern.
abbrev pub signed : ℕ → ℕ → ℤ
signed bits n = if ltb n (2 ^ (bits - 1)) then pos n else negsuc (2 ^ bits - 1 - n)

abbrev pub if_long : {A : Type 0} → ℕ → Text → A → Option A
if_long k payload a = if ltb (length payload) k then none else some a

-- The text behind its length.
unfoldable pub payload_text : Text → Option Text
payload_text payload =
    let size = read_le 4 payload in
    if ltb (length payload) 4
    then none
    else if ltb (length payload) (4 + size)
    then none
    else some (take size (drop 4 payload))

module _ {D : Type 0} ⦃ld : Loads D⦄ where
  -- The `switch` on the field's type.
  unfoldable pub payload_number : FieldType → Text → Option D
  unfolding read_le
  payload_number byte payload = if_long 1 payload (ld.of_int64 (pos (peek payload)))
  payload_number short payload = if_long 4 payload (ld.of_int64 (signed 32 (read_le 4 payload)))
  payload_number int payload = if_long 8 payload (ld.of_int64 (signed 64 (read_le 8 payload)))
  payload_number datetime payload = if_long 8 payload (ld.of_int64 (signed 64 (read_le 8 payload)))
  payload_number enumeration payload =
      if_long 8 payload (ld.of_int64 (signed 64 (read_le 8 payload)))
  payload_number float payload = if_long 4 payload (ld.of_float_bits (read_le 4 payload))
  payload_number double payload = if_long 8 payload (ld.of_double_bits (read_le 8 payload))
  payload_number _ payload = none

  unfoldable pub blob_payload_to_double : Field → Text → Option D
  blob_payload_to_double f payload = payload_number (type_of f) payload

unfoldable pub blob_value_to_string : (D : Type 0) → ⦃ld : Loads D⦄ → Field → Text → Option Text
unfolding read_le payload_text
blob_value_to_string D ⦃ld⦄ f payload = elim (type_of f) [
  | byte ↦ if_long 1 payload (decimal (peek payload))
  | short ↦ if_long 4 payload (decimal_ℤ (signed 32 (read_le 4 payload)))
  | int ↦ if_long 8 payload (decimal_ℤ (signed 64 (read_le 8 payload)))
  | datetime ↦ if_long 8 payload (decimal_ℤ (signed 64 (read_le 8 payload)))
  | enumeration ↦ if_long 8 payload (decimal_ℤ (signed 64 (read_le 8 payload)))
  | float ↦ if_long 4 payload (ld.format_double 9 (ld.of_float_bits (read_le 4 payload)))
  | double ↦ if_long 8 payload (ld.format_double 17 (ld.of_double_bits (read_le 8 payload)))
  | boolean ↦ if_long 1 payload (if peek payload == 0 then codes "false" else codes "true")
  | text ↦ payload_text payload
  | _ ↦ none
]

unfoldable pub blob_payload_to_bool : Text → Option Bool
blob_payload_to_bool payload = if_long 1 payload (not (peek payload == 0))

abbrev pub next_field : Option (ℕ × Field) → Option (ℕ × Field)
next_field none = none
next_field (some (i, f)) = some (suc i, f)

-- `get_schema_field_index`, with the field at the index.
unfoldable pub field_index : Fields → Text → Option (ℕ × Field)
field_index no_fields name = none
field_index (with_field f fs) name =
    let rest = next_field (field_index fs name) in
    if text_eq (name_of f) name then some (0, f) else rest

unfoldable pub get_schema_field_index : Schema → Text → Option (ℕ × Field)
get_schema_field_index s name = field_index (fields_of s) name

-- `apxdb_document_field_entry_t`.
pub record FieldEntry : Type 0 where
  pub offset : ℕ
  pub size : ℕ
  pub null_flag : ℕ

unfoldable pub read_entry : Text → FieldEntry
unfolding read_le
read_entry bytes = record {
  offset = read_le 4 bytes;
  size = read_le 4 (drop 4 bytes);
  null_flag = peek (drop 8 bytes);
}

unfoldable pub get_blob_field_entry : Text → ℕ → Option FieldEntry
unfolding read_le
get_blob_field_entry blob index =
    let count = read_le 4 (drop 8 blob) in
    if ltb (length blob) 12
    then none
    else if leb count index || ltb (length blob) (12 + 12 * count)
    then none
    else some (read_entry (drop (12 + 12 * index) blob))

-- The bytes from `blob + entry->offset` on, of `entry->size`. The code does not test the two against the
-- size of the blob.
abbrev pub entry_payload : Text → FieldEntry → Text
entry_payload blob entry = take entry.size (drop entry.offset blob)

-- `strtok(path, ".")` and its continuation: the segments that are not empty. The first argument is the
-- segment that was begun.
abbrev cons_segment : Text → List Text → List Text
cons_segment [] rest = rest
cons_segment (c ∷ segment) rest = (c ∷ segment) ∷ rest

unfoldable pub segments_from : Text → Text → List Text
segments_from segment [] = cons_segment segment []
segments_from segment (c ∷ path) = elim (c == b'.') [
  | true ↦ cons_segment segment (segments_from [] path)
  | false ↦ segments_from (segment ++ c ∷ []) path
]

unfoldable pub segments : Text → List Text
unfolding segments_from
segments path = segments_from [] path

-- The blob of an embedded object, behind its length.
abbrev pub nested_blob : Text → Option Text
nested_blob payload = payload_text payload

abbrev pub is_embedded : Field → Bool
is_embedded f = elim (type_of f) [ embedded ↦ true | _ ↦ false ]

-- The field of one segment, and its payload.
unfoldable pub field_payload : Schema → Text → Text → Option (Field × Text)
field_payload s blob segment = elim (get_schema_field_index s segment) [
  | none ↦ none
  | some (i, f) ↦ elim (get_blob_field_entry blob i) [
    | none ↦ none
    | some entry ↦ if entry.null_flag == 0 then some (f, entry_payload blob entry) else none
  ]
]

-- The loop over the segments.
unfoldable pub payload_on_path : Schema → Text → List Text → Option (Field × Text)
unfolding payload_text
payload_on_path s blob [] = none
payload_on_path s blob (segment ∷ []) = field_payload s blob segment
payload_on_path s blob (segment ∷ next ∷ rest) = elim (field_payload s blob segment) [
  | none ↦ none
  | some (f, payload) ↦ elim (is_embedded f) [
    | false ↦ none
    | true ↦ elim (embedded_schema f) [
      | no_schema ↦ none
      | schema_at nested ↦ elim (nested_blob payload) [
        | none ↦ none
        | some nested_bytes ↦ payload_on_path nested nested_bytes (next ∷ rest)
      ]
    ]
  ]
]

-- The path goes into a buffer of 256 bytes.
unfoldable pub get_blob_field_payload : Schema → Text → Text → Option (Field × Text)
unfolding segments
get_blob_field_payload s blob path =
    if ltb (length path) 256 then payload_on_path s blob (segments path) else none
