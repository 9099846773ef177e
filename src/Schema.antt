-- ===== src/Schema.antt =====
-- src/native/apxdb_schema.h and apxdb_schema.c: the document schemas and their accessors. A schema
-- is a finite tree: an embedded object's schema is a part of it.
pub mod Layout
pub mod Rows
pub mod Registry
pub mod Registered
pub mod Reachable
use apx_db.Common.{Bool, true, false, List, Option, none, some, Text, text_eq, if◌then◌else◌}
use apx_db.Common.Int.{ℤ}

-- `apxdb_type_t`; each constructor is named after the type, `list_of` for `APXDB_TYPE_LIST`.
pub data FieldType : Type 0 where
  byte short int float double boolean text datetime embedded enumeration list_of : FieldType

-- `apxdb_enum_strategy_t`.
pub data EnumStrategy : Type 0 where
  ordinal ordinal32 by_name by_value : EnumStrategy

-- `apxdb_schema_t` and `apxdb_schema_field_t`. A field has its name, type, whether it is nullable,
-- the embedded schema, the type and the schema of its list elements, and its enum's strategy and
-- values.
mutual
  pub data Schema : Type 0 where
    schema : Option Text → Fields → Schema

  pub data Fields : Type 0 where
    no_fields : Fields
    with_field : Field → Fields → Fields

  pub data Field : Type 0 where
    field :
        Text
        → FieldType
        → Bool
        → SchemaRef
        → FieldType
        → SchemaRef
        → EnumStrategy
        → List (Text × ℤ)
        → Field

  pub data SchemaRef : Type 0 where
    no_schema : SchemaRef
    schema_at : Schema → SchemaRef

abbrev pub collection_name : Schema → Option Text
collection_name (schema name _) = name

abbrev pub fields_of : Schema → Fields
fields_of (schema name fs) = fs

abbrev pub name_of : Field → Text
name_of (field name type nullable embeds element_type element_schema strategy values) = name

abbrev pub type_of : Field → FieldType
type_of (field name type nullable embeds element_type element_schema strategy values) = type

abbrev pub is_nullable : Field → Bool
is_nullable (field name type nullable embeds element_type element_schema strategy values) = nullable

abbrev pub embedded_schema : Field → SchemaRef
embedded_schema (field name type nullable embeds element_type element_schema strategy values) =
    embeds

abbrev pub list_element_type : Field → FieldType
list_element_type (field name type nullable embeds element_type element_schema strategy values) =
    element_type

abbrev pub list_element_schema : Field → SchemaRef
list_element_schema (field name type nullable embeds element_type element_schema strategy values) =
    element_schema

abbrev pub enum_strategy : Field → EnumStrategy
enum_strategy (field name type nullable embeds element_type element_schema strategy values) =
    strategy

abbrev pub enum_values : Field → List (Text × ℤ)
enum_values (field name type nullable embeds element_type element_schema strategy values) = values

-- `element_field`: the field of a list's elements, as four functions of the program build it.
abbrev pub element_field : Field → Field
element_field (field name type nullable embeds element_type element_schema strategy values) =
    field name element_type nullable element_schema element_type element_schema strategy values

unfoldable find_field : Fields → Text → Option Field
find_field no_fields name = none
find_field (with_field f fs) name = if text_eq (name_of f) name then some f else find_field fs name

unfoldable pub apxdb_schema_find_field : Schema → Text → Option Field
unfolding find_field
apxdb_schema_find_field s name = find_field (fields_of s) name

-- The scalar types are those that a list stores without a length in front of each element.
abbrev pub is_sized : FieldType → Bool
is_sized text = true
is_sized embedded = true
is_sized _ = false
