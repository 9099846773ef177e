-- ===== src/Examples/Schema.antt =====
-- Schemas of fixed layouts.
use apx_db.Common.{◌+◌, ◌<◌, ◌≤◌, ◌≡◌, refl, true, [], ◌∷◌, some, codes, get_elem?, arith, ◌^◌}
use apx_db.Schema.Layout.{
  CollectionSchema, FieldSchema, FieldLayout, int32, text, fixed, variable, schema_fields,
  bitmap_size, nullable_bits, fixed_size, layout_fields, layout_of, field_layout,
  is_valid_collection_schema,
}
use apx_db.Schema.Registry.{
  Registries, Room, apxdb_register_schema, apxdb_find_collection_schema_by_id,
  apxdb_find_collection_layout_by_id, find_clash,
}
use apx_db.Schema.Rows.{layout_of-apart}
use apx_db.Schema.Registered.{IsConsistent, apxdb_register_schema-consistent}
use apx_db.Schema.Reachable.{
  Registering, here, then_call, register_schema, no_schemas, Registering-IsConsistent,
  apxdb_register_schema-found,
}

abbrev age_field : FieldSchema
age_field = record {
  field_id = 1;
  name = codes "age";
  type = int32;
  flags = 1;
  type_size = 4;
  storage_kind = fixed;
}

abbrev name_field : FieldSchema
name_field = record {
  field_id = 2;
  name = codes "name";
  type = text;
  flags = 0;
  type_size = 0;
  storage_kind = variable;
}

abbrev people : CollectionSchema
people = record {
  address = 64;
  struct_size = 56;
  version = 1;
  collection_id = 7;
  name = some (codes "people");
  field_schemas = some (age_field ∷ name_field ∷ []);
}

abbrev age_layout : FieldLayout
age_layout = field_layout 1 0 age_field

abbrev name_layout : FieldLayout
name_layout = field_layout 5 0 name_field

people-fields : (layout_of people).field_layouts ≡ age_layout ∷ name_layout ∷ []
unfolding layout_of layout_fields bitmap_size nullable_bits
people-fields = refl

people-fits : bitmap_size (schema_fields people) + fixed_size (schema_fields people) < 2 ^ 32
unfolding bitmap_size fixed_size nullable_bits
people-fits = omega arith

people-age : get_elem? (layout_of people).field_layouts 0 ≡ some age_layout
people-age = rw people-fields refl

people-name : get_elem? (layout_of people).field_layouts 1 ≡ some name_layout
people-name = rw people-fields refl

layout_of-apart_example :
    ((layout_of people).nullable_bitmap_size ≤ age_layout.offset)
    × (age_layout.offset + age_layout.size ≤ name_layout.offset)
    × (name_layout.offset + name_layout.size ≤ (layout_of people).row_fixed_size)
layout_of-apart_example =
    layout_of-apart people 0 1 age_layout name_layout people-fits (omega arith) (omega arith)
      people-age people-name

abbrev roomy : Room
roomy = record {
  grow_registry = true;
  grow_collection_schema_registry = true;
  grow_layout_registry = true;
  layout_allocated = true;
}

abbrev with_people : Registries
with_people = (apxdb_register_schema roomy people no_schemas).1

with_people-Registering : Registering no_schemas with_people
with_people-Registering = then_call here (register_schema roomy people)

Registering-IsConsistent_example : IsConsistent with_people
Registering-IsConsistent_example = Registering-IsConsistent with_people-Registering

no_schemas-IsConsistent : IsConsistent no_schemas
no_schemas-IsConsistent = Registering-IsConsistent here

people-registered : (apxdb_register_schema roomy people no_schemas).0 ≡ some people
unfolding is_valid_collection_schema find_clash
people-registered =
    rw (apxdb_register_schema-consistent roomy people no_schemas no_schemas-IsConsistent) refl

apxdb_register_schema-found_example :
    (apxdb_find_collection_schema_by_id 7 with_people ≡ some people)
    × (apxdb_find_collection_layout_by_id 7 with_people ≡ some (layout_of people))
apxdb_register_schema-found_example =
    apxdb_register_schema-found roomy people no_schemas no_schemas-IsConsistent people-registered
