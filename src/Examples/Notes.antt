-- ===== src/Examples/Notes.antt =====
-- Values with a flag and tags, and their bytes. Numbers are 0 and 1 here, so that each comes back from its
-- bits.
use apx_db.Common.{
  ℕ, ◌<◌, ◌≡◌, refl, Bool, true, false, [], some, ltb, leb, ◌==◌, if◌then◌else◌, Text, codes,
  text_eq, length, arith, ◌^◌,
}
use apx_db.Common.Int.{pos, negsuc}
use apx_db.Common.Outcome.{Outcome, returned}
use apx_db.Libc.{Doubles, strtoll}
use apx_db.Json.{Value, bool, string, array, object, no_items, item, no_members, member}
use apx_db.Schema.{
  Schema, schema, FieldType, int, Field, field, no_fields, with_field, no_schema, boolean, text,
  byte, list_of, ordinal,
}
use apx_db.Blob.Scalars.{Stores, le_bytes, parse_integer_value}
use apx_db.Blob.Read.{Loads}
use apx_db.Blob.Write.{
  write_scalar, write_list, write_items, write_by_type, count_items, serialize_field_payload,
  serialize_document_blob,
}
use apx_db.Blob.Size.{scalar_size, size_by_type, compute_field_payload_size}
use apx_db.Blob.Bytes.{Exact}
use apx_db.Blob.ValueMeets.{IsWithinLimits}

-- 0 and 1.
abbrev pub bit : Bool → ℕ
bit b = if b then 1 else 0

instance abbrev pub bit_doubles : Doubles Bool
bit_doubles = record {
  strtod_value = λ s. text_eq s (codes "1");
  less = λ a b. ltb (bit a) (bit b);
  less_eq = λ a b. leb (bit a) (bit b);
  equal = λ a b. bit a == bit b;
}

instance abbrev pub bit_stores : Stores Bool
bit_stores = record { double_bits = bit; float_bits = bit; to_int64 = λ d. pos (bit d) }

instance abbrev pub bit_loads : Loads Bool
bit_loads = record {
  of_float_bits = λ n. n == 1;
  of_double_bits = λ n. n == 1;
  of_int64 = λ z. elim z [ pos n ↦ n == 1 | negsuc n ↦ false ];
  format_double = λ precision d. if d then codes "1" else codes "0";
}

instance pub bit_exact : Exact Bool
bit_exact = record {
  double_bits-lt = λ d. ground arith;
  float_bits-lt = λ d. ground arith;
  of_double_bits-double_bits = λ d. ground arith;
  to_int64-in_range = λ d. ground arith;
}

abbrev flag_field : Field
flag_field = field (codes "flag") boolean false no_schema byte no_schema ordinal []

abbrev pub tags_field : Field
tags_field = field (codes "tags") list_of false no_schema text no_schema ordinal []

abbrev pub note_schema : Schema
note_schema =
    schema (some (codes "notes")) (with_field flag_field (with_field tags_field no_fields))

-- ["a", "bc"].
abbrev pub two_tags : Value Bool
two_tags = array (item (string (codes "a")) (item (string (codes "bc")) no_items))

abbrev pub first_note : Value Bool
first_note = object (member (codes "flag") (bool true) (member (codes "tags") two_tags no_members))

abbrev pub second_note : Value Bool
second_note =
    object (member (codes "flag") (bool false) (member (codes "tags") two_tags no_members))

abbrev pub zeros : ℕ → ℕ
zeros k = 0

abbrev pub bytes_of : Outcome Text → Text
bytes_of (returned bytes) = bytes
bytes_of _ = []

abbrev pub blob_of_note : Value Bool → Text
blob_of_note v = bytes_of (serialize_document_blob zeros 3 note_schema v)

abbrev int_type : FieldType
int_type = int

pub tags-written :
    serialize_field_payload zeros 3 tags_field two_tags 30
    ≡ returned (bytes_of (serialize_field_payload zeros 3 tags_field two_tags 30))
unfolding serialize_field_payload write_by_type write_list write_items write_scalar count_items
    compute_field_payload_size size_by_type scalar_size le_bytes
tags-written = refl

pub tags-short : length (bytes_of (serialize_field_payload zeros 3 tags_field two_tags 30)) < 2 ^ 32
unfolding serialize_field_payload write_by_type write_list write_items write_scalar count_items
    compute_field_payload_size size_by_type scalar_size le_bytes
tags-short = omega arith

pub two_tags-IsWithinLimits : IsWithinLimits two_tags
unfolding count_items parse_integer_value strtoll
two_tags-IsWithinLimits = (omega arith, ((λ z e. cc), ((λ z e. cc), tt)))
