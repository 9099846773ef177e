-- ===== src/Query/Scan.antt =====
-- src/native/apxdb_collection.c: the scan of a collection's documents for one member of a query. The scan
-- on a GPU is a parameter.
use apx_db.Common.{
  ℕ, suc, Bool, true, false, ◌&&◌, List, [], ◌∷◌, Option, none, some, ltb, leb, if◌then◌else◌, Text,
  codes, text_eq, length,
}
use apx_db.Common.Int.{ℤ}
use apx_db.Common.Outcome.{Outcome, returned}
use apx_db.Libc.{Doubles}
use apx_db.Json.{Value, object, no_members, member}
use apx_db.Schema.{
  Schema, SchemaRef, Field, no_schema, schema_at, type_of, list_element_type, embedded_schema,
  list_element_schema, apxdb_schema_find_field, FieldType, int, embedded, list_of,
}
use apx_db.Blob.Scalars.{parse_numeric_value}
use apx_db.Blob.Read.{Loads, segments}
use apx_db.Blob.Match.{blob_field_matches_value}
use apx_db.Blob.LayoutRead.{get_collection_blob_field_payload}
use apx_db.Query.Ids.{Ids}
use apx_db.Collection.{Collection, StoredDocument}

-- The schema that the next segment of a path is looked up in.
abbrev is_embedded_type : FieldType → Bool
is_embedded_type embedded = true
is_embedded_type _ = false

abbrev next_schema : Field → SchemaRef
next_schema f = elim (type_of f) [
  | embedded ↦ embedded_schema f
  | list_of ↦ if is_embedded_type (list_element_type f) then list_element_schema f else no_schema
  | _ ↦ no_schema
]

-- Whether the loop goes on at a schema, or ends.
abbrev is_nesting : Field → Bool
is_nesting f = elim (type_of f) [
  | embedded ↦ true
  | list_of ↦ is_embedded_type (list_element_type f)
  | _ ↦ false
]

-- The loop over the segments.
unfoldable field_on_path : Schema → List Text → Option Field
field_on_path s [] = none
field_on_path s (segment ∷ rest) = elim (apxdb_schema_find_field s segment) [
  | none ↦ none
  | some f ↦ elim (is_nesting f) [
    | false ↦ elim rest [ [] ↦ some f | _ ∷ _ ↦ none ]
    | true ↦ elim (next_schema f) [
      | no_schema ↦ none
      | schema_at nested ↦ elim rest [ [] ↦ some f | next ∷ more ↦ field_on_path nested rest ]
    ]
  ]
]

unfoldable pub apxdb_schema_find_field_path : Schema → Text → Option Field
unfolding field_on_path segments
apxdb_schema_find_field_path s path =
    if ltb (length path) 256 then field_on_path s (segments path) else none

-- Whether there is a GPU, what its scan finds, and the program's conversion to `int32_t`.
pub record Gpu (D : Type 0) : Type 0 where
  pub is_gpu_runtime_available : Bool
  pub gpu_scan_numeric_docs : Collection D → Text → Field → ℕ → ℤ → Option Ids
  pub to_int32 : D → ℤ

-- The code of an operator.
abbrev op_code : Text → Option ℕ
op_code op =
    if text_eq op (codes "eq")
    then some 0
    else if text_eq op (codes "gt")
    then some 1
    else if text_eq op (codes "gte")
    then some 2
    else if text_eq op (codes "lt")
    then some 3
    else if text_eq op (codes "lte")
    then some 4
    else none

abbrev with_threshold : Option ℕ → ℤ → Option (ℕ × ℤ)
with_threshold none z = none
with_threshold (some op) z = some (op, z)

-- `kGpuQueryMinDocs`.
abbrev gpu_query_min_docs : ℕ
gpu_query_min_docs = 128

abbrev is_int : FieldType → Bool
is_int int = true
is_int _ = false

module _ {D : Type 0} ⦃fp : Doubles D⦄ where
  unfoldable pub parse_numeric_query_op : (D → ℤ) → Value D → Option (ℕ × ℤ)
  parse_numeric_query_op to_int32 (object (member op v no_members)) = elim (parse_numeric_value v) [
    | none ↦ none
    | some d ↦ with_threshold (op_code op) (to_int32 d)
  ]
  parse_numeric_query_op to_int32 v = elim (parse_numeric_value v) [
    | none ↦ none
    | some d ↦ some (0, to_int32 d)
  ]

  -- What the GPU finds, where it is asked and answers.
  abbrev pub gpu_answer : Gpu D → Collection D → Text → Field → Option (ℕ × ℤ) → Option Ids
  gpu_answer gpu c name f none = none
  gpu_answer gpu c name f (some (op, threshold)) =
      if gpu.is_gpu_runtime_available then gpu.gpu_scan_numeric_docs c name f op threshold else none

  unfoldable pub gpu_for_field : Gpu D → Collection D → Text → Value D → Option Field → Option Ids
  unfolding parse_numeric_query_op
  gpu_for_field gpu c name query none = none
  gpu_for_field gpu c name query (some f) =
      if is_int (type_of f) && leb gpu_query_min_docs (length c.documents)
      then gpu_answer gpu c name f (parse_numeric_query_op gpu.to_int32 query)
      else none

  unfoldable pub gpu_ids : Gpu D → Collection D → Text → Value D → Option Ids
  unfolding gpu_for_field apxdb_schema_find_field_path
  gpu_ids gpu c name query =
      gpu_for_field gpu c name query (apxdb_schema_find_field_path c.collection_schema name)

abbrev pub is_match : Outcome Bool → Bool
is_match (returned b) = b
is_match _ = false

module _ {D : Type 0} ⦃fp : Doubles D⦄ ⦃ld : Loads D⦄ where
  -- What is found of one document. The fuel is more than the bytes that the calls can go into.
  abbrev pub found_matches : Option (Field × Text) → Value D → Bool
  found_matches none query = false
  found_matches (some (f, payload)) query =
      is_match (blob_field_matches_value (suc (suc (length payload))) f payload query)

  unfoldable pub document_matches : Collection D → Text → Value D → Text → Bool
  unfolding get_collection_blob_field_payload
  document_matches c name query blob =
      found_matches (get_collection_blob_field_payload c blob name) query

  -- The loop over the documents.
  unfoldable pub scan_documents : Collection D → Text → Value D → List StoredDocument → Ids
  scan_documents c name query [] = []
  scan_documents c name query (d ∷ ds) =
      let rest = scan_documents c name query ds in
      if document_matches c name query d.blob then d.id ∷ rest else rest

  unfoldable pub scan_docs_for_member : Gpu D → Collection D → Text → Value D → Option Ids
  unfolding gpu_ids
  scan_docs_for_member gpu c name query = elim (gpu_ids gpu c name query) [
    | some ids ↦ some ids
    | none ↦ some (scan_documents c name query c.documents)
  ]
