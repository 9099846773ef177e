-- ===== src/Collection/Store.antt =====
-- src/native/apxdb_collection.c: the globals, and the operations on collections and documents. Memory
-- for what they store is there; a text that is not given is `none`.
use apx_db.Common.{
  ℕ, suc, Bool, true, false, List, [], ◌∷◌, ◌++◌, Option, none, some, ltb, if◌then◌else◌, Text,
  codes, length,
}
use apx_db.Common.Int.{ℤ}
use apx_db.Common.Outcome.{Outcome, returned}
use apx_db.Json.{Value}
use apx_db.Schema.{Schema, collection_name}
use apx_db.Schema.Layout.{Layout}
use apx_db.Schema.Registry.{Registries, same_name, apxdb_find_collection_layout_by_name}
use apx_db.Collection.{Collection, IndexDefinition, change_at}
use apx_db.Collection.Indexing.{Payloads}
use apx_db.Collection.Transactions.{Transactions, success, failure}

-- The globals.
pub record Store (D : Type 0) : Type 0 where
  pub collections : List (Collection D)
  pub collection_counter : ℕ
  pub transactions : Transactions
  pub storage_directory : Option Text

-- `stat` of a collection's file.
pub data FileStat : Type 0 where
  missing present unreadable : FileStat

-- The file system, and `load_collection_from_file` with what it makes of the counter and of the
-- collection.
pub record Files (D : Type 0) : Type 0 where
  pub stat : Text → FileStat
  pub load_collection_from_file : Text → ℕ → Collection D → Bool × (ℕ × Collection D)

-- How a document is stored, with a layout and without, and how it is read again.
pub record Blobs (D : Type 0) : Type 0 where
  pub payloads : Payloads D
  pub fresh : ℕ → ℕ
  pub serialize_document_blob_with_layout : Layout → Schema → Value D → Option Text
  pub build_document_json_from_blob : Collection D → Text → Option Text

abbrev pub blob_of : Outcome Text → Option Text
blob_of (returned blob) = some blob
blob_of _ = none

abbrev pub is_conforming : Outcome (Unit {0}) → Bool
is_conforming (returned _) = true
is_conforming _ = false

module _ {D : Type 0} where
  abbrev next_collection : Option (ℕ × Collection D) → Option (ℕ × Collection D)
  next_collection none = none
  next_collection (some (i, c)) = some (suc i, c)

  -- `find_collection`, as the position of the collection.
  unfoldable pub find_collection : List (Collection D) → Option Text → Option (ℕ × Collection D)
  find_collection [] name = none
  find_collection (c ∷ cs) name =
      let rest = find_collection cs name in
      if same_name (collection_name c.collection_schema) name
      then some (0, c)
      else next_collection rest

  -- `format_collection_file_path`, which a buffer of 1024 bytes has to hold.
  unfoldable pub collection_path : Text → Collection D → Text
  collection_path directory c =
      let name : Text = elim (collection_name c.collection_schema) [ none ↦ [] | some n ↦ n ] in
      directory ++ (codes "/" ++ (name ++ codes ".apxdb"))

  abbrev pub set_loaded : Collection D → Collection D
  set_loaded c = record c { loaded = true }

  -- What is made of the file, once it was looked for.
  abbrev pub load_by_stat :
      FileStat → ℕ → Collection D → Bool × (ℕ × Collection D) → Bool × (ℕ × Collection D)
  load_by_stat missing counter c read = (true, (counter, set_loaded c))
  load_by_stat unreadable counter c read = (false, (counter, c))
  load_by_stat present counter c (true, (counter', c')) = (true, (counter', set_loaded c'))
  load_by_stat present counter c (false, (counter', c')) = (false, (counter', c'))

  -- With the counter, which the documents of a file raise.
  unfoldable pub ensure_collection_loaded :
      Files D → Option Text → ℕ → Collection D → Bool × (ℕ × Collection D)
  ensure_collection_loaded files directory counter c =
      if c.loaded then (true, (counter, c)) else elim directory [
        | none ↦ (true, (counter, set_loaded c))
        | some d ↦
            let path = collection_path d c in
            if ltb (length path) 1024
            then load_by_stat (files.stat path) counter c
                (files.load_collection_from_file path counter c)
            else (false, (counter, c))
      ]

  abbrev pub put_back : Collection D → Collection D → Collection D
  put_back c' c = c'

  -- The collection of that name, loaded, and the globals with it.
  unfoldable pub loaded_collection :
      Files D → Option Text → Store D → Option (ℕ × Collection D) × Store D
  loaded_collection files name s = elim (find_collection s.collections name) [
    | none ↦ (none, s)
    | some (i, c) ↦
        let (done, (counter, c')) =
          ensure_collection_loaded files s.storage_directory s.collection_counter c in
        (
          (if done then some (i, c') else none),
          record s {
            collections = change_at i (put_back c') s.collections;
            collection_counter = counter;
          },
        )
  ]

  abbrev pub new_collection : Registries → Schema → Collection D
  new_collection registries sch = record {
    collection_schema = sch;
    layout = apxdb_find_collection_layout_by_name (collection_name sch) registries;
    documents = [];
    indexes = [];
    index_data = [];
    gpu_column_caches = [];
    dirty = false;
    loaded = false;
  }

  unfoldable pub apxdb_register_collection : Registries → Schema → Store D → ℤ × Store D
  apxdb_register_collection registries sch s = elim (collection_name sch) [
    | none ↦ (failure, s)
    | some name ↦ elim (find_collection s.collections (some name)) [
      | some _ ↦ (failure, s)
      | none ↦
          (success, record s { collections = s.collections ++ new_collection registries sch ∷ [] })
    ]
  ]

  abbrev pub with_index : IndexDefinition → Collection D → Collection D
  with_index d c = record c {
    indexes = c.indexes ++ d ∷ [];
    index_data = c.index_data ++ record { definition = d; entries = [] } ∷ [];
  }

  -- The documents that are there already do not go into the index.
  unfoldable pub apxdb_add_index : Option Text → IndexDefinition → Store D → ℤ × Store D
  apxdb_add_index name d s = elim (find_collection s.collections name) [
    | none ↦ (failure, s)
    | some (i, c) ↦
        (success, record s { collections = change_at i (put_back (with_index d c)) s.collections })
  ]
