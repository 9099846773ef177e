-- ===== src/Schema/Registry.antt =====
-- src/native/apxdb_schema.c: the registries. A registered schema does not change.
use apx_db.Common.{
  ℕ, Bool, false, ◌||◌, List, [], ◌∷◌, ◌++◌, Option, none, some, ◌==◌, if◌then◌else◌, Text, text_eq,
}
use apx_db.Schema.{Schema, collection_name}
use apx_db.Schema.Layout.{
  CollectionSchema, Layout, is_valid_collection_schema, apxdb_build_collection_layout,
}

-- `strcmp` of two names. A name that is `NULL` equals no name.
unfoldable pub same_name : Option Text → Option Text → Bool
same_name none b = false
same_name (some a) none = false
same_name (some a) (some b) = text_eq a b

-- The globals of the file. The second registry and the third are those of the fixed layouts.
pub record Registries : Type 0 where
  pub schema_registry : List Schema
  pub collection_schema_registry : List CollectionSchema
  pub collection_layout_registry : List Layout

-- Whether the arrays grow when they must, and whether the layout is allocated.
pub record Room : Type 0 where
  pub grow_registry : Bool
  pub grow_collection_schema_registry : Bool
  pub grow_layout_registry : Bool
  pub layout_allocated : Bool

unfoldable pub find_schema : Option Text → List Schema → Option Schema
find_schema name [] = none
find_schema name (s ∷ ss) =
    if same_name (collection_name s) name then some s else find_schema name ss

-- The schema that the call returns, the one that was registered first under the name.
unfoldable pub apxdb_schema_register : Room → Schema → Registries → Option Schema × Registries
apxdb_schema_register room s r = elim (collection_name s) [
  | none ↦ (none, r)
  | some name ↦ elim (find_schema (some name) r.schema_registry) [
    | some existing ↦ (some existing, r)
    | none ↦
        if room.grow_registry
        then (some s, record r { schema_registry = r.schema_registry ++ s ∷ [] })
        else (none, r)
  ]
]

unfoldable apxdb_schema_find : Option Text → Registries → Option Schema
apxdb_schema_find name r = find_schema name r.schema_registry

unfoldable pub apxdb_schema_unregister_all : Registries → Registries
apxdb_schema_unregister_all r = record r { schema_registry = [] }

unfoldable pub find_layout_by_id : ℕ → List Layout → Option Layout
find_layout_by_id id [] = none
find_layout_by_id id (l ∷ ls) = if l.collection_id == id then some l else find_layout_by_id id ls

unfoldable pub find_layout_by_name : Option Text → List Layout → Option Layout
find_layout_by_name name [] = none
find_layout_by_name name (l ∷ ls) =
    if same_name l.name name then some l else find_layout_by_name name ls

unfoldable pub find_by_id : ℕ → List CollectionSchema → Option CollectionSchema
find_by_id id [] = none
find_by_id id (s ∷ ss) = if s.collection_id == id then some s else find_by_id id ss

unfoldable find_by_name : Option Text → List CollectionSchema → Option CollectionSchema
find_by_name name [] = none
find_by_name name (s ∷ ss) = if same_name s.name name then some s else find_by_name name ss

unfoldable pub apxdb_register_layout_for_schema :
    Room → CollectionSchema → Registries → Option Layout × Registries
apxdb_register_layout_for_schema room s r =
    elim (find_layout_by_id s.collection_id r.collection_layout_registry) [
      | some l ↦ (some l, r)
      | none ↦
          if room.grow_layout_registry
          then elim (apxdb_build_collection_layout room.layout_allocated s) [
            | none ↦ (none, r)
            | some l ↦ (
              some l,
              record r { collection_layout_registry = r.collection_layout_registry ++ l ∷ [] },
            )
          ]
          else (none, r)
    ]

-- The loop of `apxdb_register_schema`: the first schema with this id or this name.
abbrev pub clashes : CollectionSchema → CollectionSchema → Bool
clashes existing s = existing.collection_id == s.collection_id || same_name existing.name s.name

unfoldable pub find_clash : CollectionSchema → List CollectionSchema → Option CollectionSchema
find_clash s [] = none
find_clash s (existing ∷ ss) = if clashes existing s then some existing else find_clash s ss

-- The schema stays in if it has a layout, and goes out again if not.
abbrev keep_schema :
    CollectionSchema
    → List CollectionSchema
    → Option Layout × Registries
    → Option CollectionSchema × Registries
keep_schema s before (none, r) = (none, record r { collection_schema_registry = before })
keep_schema s before (some l, r) = (some s, r)

unfoldable pub add_schema :
    Room → CollectionSchema → Registries → Option CollectionSchema × Registries
add_schema room s r =
    let added = record r { collection_schema_registry = r.collection_schema_registry ++ s ∷ [] } in
    if room.grow_collection_schema_registry
    then keep_schema s r.collection_schema_registry (apxdb_register_layout_for_schema room s added)
    else (none, r)

unfoldable pub apxdb_register_schema :
    Room → CollectionSchema → Registries → Option CollectionSchema × Registries
apxdb_register_schema room s r =
    if is_valid_collection_schema s
    then elim (find_clash s r.collection_schema_registry) [
      | some existing ↦ ((if existing.address == s.address then some existing else none), r)
      | none ↦ add_schema room s r
    ]
    else (none, r)

unfoldable apxdb_find_collection_schema_by_name : Option Text → Registries → Option CollectionSchema
apxdb_find_collection_schema_by_name name r = find_by_name name r.collection_schema_registry

unfoldable pub apxdb_find_collection_schema_by_id : ℕ → Registries → Option CollectionSchema
apxdb_find_collection_schema_by_id id r = find_by_id id r.collection_schema_registry

unfoldable pub apxdb_find_collection_layout_by_name : Option Text → Registries → Option Layout
apxdb_find_collection_layout_by_name name r = find_layout_by_name name r.collection_layout_registry

unfoldable pub apxdb_find_collection_layout_by_id : ℕ → Registries → Option Layout
apxdb_find_collection_layout_by_id id r = find_layout_by_id id r.collection_layout_registry

unfoldable pub apxdb_unregister_all_layouts : Registries → Registries
apxdb_unregister_all_layouts r = record r { collection_layout_registry = [] }

unfoldable pub apxdb_unregister_all_schemas : Registries → Registries
apxdb_unregister_all_schemas r =
    apxdb_unregister_all_layouts (record r { collection_schema_registry = [] })
