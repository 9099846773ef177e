-- ===== src/Collection.antt =====
-- src/native/apxdb_collection.c: collections of documents, their indexes and the write transaction.
pub mod Entries
pub mod Indexing
pub mod Validate
pub mod CanStore
pub mod SizeLoops
pub mod Storable
pub mod EnumNames
pub mod Transactions
pub mod Exclusive
pub mod Sound
pub mod IndexSound
pub mod Store
pub mod Operations
pub mod PutDelete
pub mod Loading
pub mod Calls
pub mod Reachable
pub mod RoundTrip
pub mod Signature
pub mod Saved
pub mod Loaded
pub mod IndexFile
pub mod LoadFile
pub mod ReadBack
pub mod SignatureBound
pub mod FileRound
pub mod IndexRefused
pub mod LoadSound
pub mod Disk
use apx_db.Common.{
  ℕ, zero, suc, Bool, List, [], ◌∷◌, Option, none, some, map, Text, if◌then◌else◌, text_eq, length,
}
use apx_db.Common.Int.{ℤ}
use apx_db.Schema.{Schema}
use apx_db.Schema.Layout.{Layout}
use apx_db.Query.Ids.{Ids, has_id}

-- `apxdb_index_type_t`.
pub data IndexType : Type 0 where
  by_value by_hash by_elements : IndexType

-- `apxdb_index_definition_t`.
pub record IndexDefinition : Type 0 where
  pub field_name : Text
  pub index_type : IndexType
  pub composite : Bool
  pub multi_entry : Bool

-- `apxdb_index_entry_t`; `none` is a key that is `NULL`.
pub record Entry (D : Type 0) : Type 0 where
  pub key : Option Text
  pub has_numeric_key : Bool
  pub numeric_key : D
  pub doc_ids : Ids

-- `apxdb_index_data_t`.
pub record IndexData (D : Type 0) : Type 0 where
  pub definition : IndexDefinition
  pub entries : List (Entry D)

-- `apxdb_collection_document_t`.
pub record StoredDocument : Type 0 where
  pub id : Text
  pub json : Text
  pub blob : Text

-- `apxdb_gpu_column_cache_t`.
pub record ColumnCache : Type 0 where
  field_path : Text
  pub values : List ℤ
  valid_mask : List ℕ

-- `apxdb_collection_t`.
pub record Collection (D : Type 0) : Type 0 where
  pub collection_schema : Schema
  pub layout : Option Layout
  pub documents : List StoredDocument
  pub indexes : List IndexDefinition
  pub index_data : List (IndexData D)
  pub gpu_column_caches : List ColumnCache
  pub dirty : Bool
  pub loaded : Bool

-- The ids of the documents, in their order.
unfoldable pub document_ids : List StoredDocument → Ids
document_ids [] = []
document_ids (d ∷ ds) = d.id ∷ document_ids ds

unfoldable pub find_document_by_id : List StoredDocument → Text → Option StoredDocument
find_document_by_id [] id = none
find_document_by_id (d ∷ ds) id = if text_eq d.id id then some d else find_document_by_id ds id

-- The element at a position, changed: the code holds a pointer to it.
abbrev pub change_at : {A : Type 0} → ℕ → (A → A) → List A → List A
change_at i f [] = []
change_at zero f (x ∷ xs) = f x ∷ xs
change_at (suc i) f (x ∷ xs) = x ∷ change_at i f xs
