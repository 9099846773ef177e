-- ===== src/Collection/Operations.antt =====
-- src/native/apxdb_collection.c: the operations on documents. Memory for what they store is there; a
-- text that is not given is `none`.
use apx_db.Common.{
  ◌+◌, Bool, true, false, List, [], ◌∷◌, ◌++◌, Option, none, some, if◌then◌else◌, Text, text_eq,
}
use apx_db.Common.Int.{ℤ}
use apx_db.Common.Outcome.{Outcome, returned}
use apx_db.Libc.{Doubles}
use apx_db.Json.{Value}
use apx_db.Json.Depth.{depth}
use apx_db.Json.Parser.{apxdb_json_parse}
use apx_db.Blob.Scalars.{Stores}
use apx_db.Blob.Write.{serialize_document_blob}
use apx_db.Engine.Documents.{document_id}
use apx_db.Query.Ids.{has_id}
use apx_db.Collection.{StoredDocument, Collection, document_ids, find_document_by_id, change_at}
use apx_db.Collection.Entries.{remove_doc_from_indexes}
use apx_db.Collection.Indexing.{Payloads, index_document}
use apx_db.Collection.Validate.{validate_document_against_schema}
use apx_db.Collection.Transactions.{has_active_write_txn, apxdb_free_transaction, success, failure}
use apx_db.Collection.Store.{
  Store, Files, Blobs, blob_of, is_conforming, put_back, loaded_collection,
}

module _ {D : Type 0} where
  abbrev pub parsed : Outcome (Value D) → Option (Value D)
  parsed (returned v) = some v
  parsed _ = none

  -- The blob of a document, by the collection's layout if it has one.
  unfoldable pub document_blob :
      ⦃fp : Doubles D⦄ → ⦃st : Stores D⦄ → Blobs D → Collection D → Value D → Option Text
  document_blob blobs c v = elim c.layout [
    | some l ↦ blobs.serialize_document_blob_with_layout l c.collection_schema v
    | none ↦ blob_of (serialize_document_blob blobs.fresh (depth v) c.collection_schema v)
  ]

  -- An id that is there already is refused.
  unfoldable pub append_document : StoredDocument → Collection D → Bool × Collection D
  append_document doc c =
      if has_id doc.id (document_ids c.documents)
      then (false, c)
      else (true, record c { documents = c.documents ++ doc ∷ []; gpu_column_caches = [] })

  -- The document goes in and into the indexes; if an index refuses it, it goes out of all of them, and
  -- out of the documents.
  unfoldable pub put_stored :
      ⦃fp : Doubles D⦄ → Payloads D → StoredDocument → Value D → Collection D → Bool × Collection D
  put_stored payloads doc v c =
      let (appended, c1) = append_document doc c in
      let (indexed, c2) = index_document payloads doc v (record c1 { dirty = true }) in
      if appended
      then (if indexed then (true, c2) else (
        false,
        record c2 {
          documents = c.documents;
          index_data = remove_doc_from_indexes doc.id c2.index_data;
        },
      ))
      else (false, c1)

  -- A document that conforms, from the new id on; the counter goes up whatever comes of it.
  unfoldable pub put_conforming :
      ⦃fp : Doubles D⦄
      → ⦃st : Stores D⦄ → Blobs D
      → Text
      → Collection D
      → Text
      → Option Text × Collection D
  put_conforming blobs id c json = elim (parsed (apxdb_json_parse json)) [
    | none ↦ (none, c)
    | some v ↦ elim (document_blob blobs c v) [
      | none ↦ (none, c)
      | some blob ↦
          let (stored, c') =
            put_stored blobs.payloads (record { id = id; json = json; blob = blob }) v c in
          ((if stored then some id else none), c')
    ]
  ]

  unfoldable pub apxdb_put_document :
      ⦃fp : Doubles D⦄
      → ⦃st : Stores D⦄ → Files D
      → Blobs D
      → Option Text
      → Option Text
      → Store D
      → Option Text × Store D
  apxdb_put_document files blobs none json s = (none, s)
  apxdb_put_document files blobs (some name) none s = (none, s)
  apxdb_put_document files blobs (some name) (some json) s =
      let (found, s') = loaded_collection files (some name) s in
      let counter = s'.collection_counter + 1 in
      if has_active_write_txn s.transactions
      then elim found [
        | none ↦ (none, s')
        | some (i, c) ↦
            let (id, c') = put_conforming blobs (document_id counter) c json in
            if is_conforming (validate_document_against_schema D c.collection_schema json)
            then (
              id,
              record s' {
                collections = change_at i (put_back c') s'.collections;
                collection_counter = counter;
              },
            )
            else (none, s')
      ]
      else (none, s)

-- The loop of `apxdb_delete_document`: the first document with the id goes, the others move up.
unfoldable pub remove_document : Text → List StoredDocument → List StoredDocument
remove_document id [] = []
remove_document id (d ∷ ds) = if text_eq d.id id then ds else d ∷ remove_document id ds

module _ {D : Type 0} where
  unfoldable pub delete_stored : Text → Collection D → ℤ × Collection D
  delete_stored id c =
      if has_id id (document_ids c.documents)
      then (
        success,
        record c {
          index_data = remove_doc_from_indexes id c.index_data;
          documents = remove_document id c.documents;
          gpu_column_caches = [];
          dirty = true;
        },
      )
      else (failure, c)

  unfoldable pub apxdb_delete_document : Files D → Option Text → Option Text → Store D → ℤ × Store D
  apxdb_delete_document files none id s = (failure, s)
  apxdb_delete_document files (some name) none s = (failure, s)
  apxdb_delete_document files (some name) (some id) s =
      let (found, s') = loaded_collection files (some name) s in
      if has_active_write_txn s.transactions
      then elim found [
        | none ↦ (failure, s')
        | some (i, c) ↦
            let (result, c') = delete_stored id c in
            (result, record s' { collections = change_at i (put_back c') s'.collections })
      ]
      else (failure, s)

  -- The text of a document, from its blob if the collection has a layout and the blob can be read.
  unfoldable pub document_text : Blobs D → Collection D → StoredDocument → Text
  document_text blobs c d = elim c.layout [
    | none ↦ d.json
    | some l ↦ elim (blobs.build_document_json_from_blob c d.blob) [
      | none ↦ d.json
      | some json ↦ json
    ]
  ]

  unfoldable pub apxdb_get_document :
      Files D → Blobs D → Option Text → Option Text → Store D → Option Text × Store D
  apxdb_get_document files blobs none id s = (none, s)
  apxdb_get_document files blobs (some name) none s = (none, s)
  apxdb_get_document files blobs (some name) (some id) s =
      let (found, s') = loaded_collection files (some name) s in
      elim found [
        | none ↦ (none, s')
        | some (i, c) ↦ elim (find_document_by_id c.documents id) [
          | none ↦ (none, s')
          | some d ↦ (some (document_text blobs c d), s')
        ]
      ]

  -- `apxdb_collection_unregister_all`.
  unfoldable pub apxdb_collection_unregister_all : Store D → Store D
  apxdb_collection_unregister_all s = record s {
    collections = [];
    collection_counter = 0;
    transactions = apxdb_free_transaction s.transactions.active_transaction s.transactions;
  }
