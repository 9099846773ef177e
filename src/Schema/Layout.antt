-- ===== src/Schema/Layout.antt =====
-- src/native/apxdb.h and apxdb_schema.c: the schemas of the fixed layouts, and how a layout is built.
-- `uint32_t` sums wrap; the two sums in `size_t` stay below 2^64, since there are less than 2^32
-- fields of less than 2^32 bytes.
use apx_db.Common.{
  ℕ, ◌+◌, ◌/◌, ◌%◌, ◌^◌, Bool, true, false, ◌&&◌, List, [], ◌∷◌, Option, none, some, ◌==◌, leb,
  if◌then◌else◌, Text, length,
}

-- `apxdb_field_type_t`, and `apxdb_storage_kind_t`.
pub data StoredType : Type 0 where
  int32 int64 boolean double text bytes : StoredType

pub data StorageKind : Type 0 where
  fixed variable : StorageKind

-- `apxdb_field_schema_t`.
pub record FieldSchema : Type 0 where
  pub field_id : ℕ
  pub name : Text
  pub type : StoredType
  pub flags : ℕ
  pub type_size : ℕ
  pub storage_kind : StorageKind

-- `apxdb_collection_schema_t`, without its indexes, which nothing reads. `address` stands for the
-- pointer to it; `none` is `NULL`, and `field_count` is the length of the array.
pub record CollectionSchema : Type 0 where
  pub address : ℕ
  pub struct_size : ℕ
  pub version : ℕ
  pub collection_id : ℕ
  pub name : Option Text
  pub field_schemas : Option (List FieldSchema)

-- `apxdb_collection_field_layout_t`.
pub record FieldLayout : Type 0 where
  pub field_id : ℕ
  pub name : Text
  pub type : StoredType
  pub flags : ℕ
  pub storage_kind : StorageKind
  pub offset : ℕ
  pub size : ℕ
  pub variable_slot : ℕ

-- `apxdb_collection_layout_t`.
pub record Layout : Type 0 where
  pub collection_id : ℕ
  pub name : Option Text
  pub field_layouts : List FieldLayout
  pub nullable_bitmap_size : ℕ
  pub row_fixed_size : ℕ
  variable_slot_count : ℕ

abbrev pub schema_fields : CollectionSchema → List FieldSchema
schema_fields s = elim s.field_schemas [ none ↦ [] | some fs ↦ fs ]

abbrev has_name : CollectionSchema → Bool
has_name s = elim s.name [ none ↦ false | some n ↦ true ]

-- `sizeof(apxdb_collection_schema_t)` on a machine of 64 bits.
abbrev schema_struct_size : ℕ
schema_struct_size = 56

abbrev is_some : {A : Type 0} → Option A → Bool
is_some none = false
is_some (some a) = true

unfoldable pub is_valid_collection_schema : CollectionSchema → Bool
is_valid_collection_schema s =
    leb schema_struct_size s.struct_size
    && s.version == 1
    && has_name s
    && (if length (schema_fields s) == 0 then false else true)
    && is_some s.field_schemas

abbrev pub to_uint32 : ℕ → ℕ
to_uint32 n = n % 2 ^ 32

abbrev uint32_max : ℕ
uint32_max = 4294967295

abbrev pub is_variable_field : FieldSchema → Bool
is_variable_field f = elim f.storage_kind [ fixed ↦ false | variable ↦ true ]

-- `sizeof(uint32_t) * 2` for a variable field.
abbrev pub field_storage_size : FieldSchema → ℕ
field_storage_size f = if is_variable_field f then 8 else f.type_size

-- `field->flags & APXDB_FIELD_FLAG_NULLABLE`.
abbrev has_null_bit : FieldSchema → Bool
has_null_bit f = f.flags % 2 == 1

-- The three sums of the first loop.
unfoldable pub nullable_bits : List FieldSchema → ℕ
nullable_bits [] = 0
nullable_bits (f ∷ fs) = (if has_null_bit f then 1 else 0) + nullable_bits fs

unfoldable pub fixed_size : List FieldSchema → ℕ
fixed_size [] = 0
fixed_size (f ∷ fs) = field_storage_size f + fixed_size fs

unfoldable pub variable_slots : List FieldSchema → ℕ
variable_slots [] = 0
variable_slots (f ∷ fs) = (if is_variable_field f then 1 else 0) + variable_slots fs

unfoldable pub bitmap_size : List FieldSchema → ℕ
bitmap_size fs = to_uint32 ((nullable_bits fs + 7) / 8)

-- The second loop, with `field_offset` and `variable_slot`.
abbrev pub field_layout : ℕ → ℕ → FieldSchema → FieldLayout
field_layout offset slot f = record {
  field_id = f.field_id;
  name = f.name;
  type = f.type;
  flags = f.flags;
  storage_kind = f.storage_kind;
  offset = offset;
  size = field_storage_size f;
  variable_slot = if is_variable_field f then slot else uint32_max;
}

unfoldable pub layout_fields : ℕ → ℕ → List FieldSchema → List FieldLayout
layout_fields offset slot [] = []
layout_fields offset slot (f ∷ fs) =
    field_layout offset slot f
    ∷ layout_fields (to_uint32 (offset + field_storage_size f))
        (if is_variable_field f then to_uint32 (slot + 1) else slot) fs

-- The layout, where both allocations succeed.
unfoldable pub layout_of : CollectionSchema → Layout
layout_of s =
    let fs = schema_fields s in
    record {
      collection_id = s.collection_id;
      name = s.name;
      field_layouts = layout_fields (bitmap_size fs) 0 fs;
      nullable_bitmap_size = bitmap_size fs;
      row_fixed_size = to_uint32 (bitmap_size fs + to_uint32 (fixed_size fs));
      variable_slot_count = to_uint32 (variable_slots fs);
    }

-- `allocated` says whether both allocations succeed.
unfoldable pub apxdb_build_collection_layout : Bool → CollectionSchema → Option Layout
apxdb_build_collection_layout allocated s =
    if length (schema_fields s) == 0 then none else if allocated then some (layout_of s) else none
