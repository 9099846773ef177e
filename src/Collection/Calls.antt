-- ===== src/Collection/Calls.antt =====
-- Every call on collections leaves all of them sound, where loading a file keeps them so.
use apx_db.Common.{◌+◌, Option, none, some, Text, Bool-cases, Option-cases, inl, inr}
use apx_db.Libc.{Doubles}
use apx_db.Json.Parser.{apxdb_json_parse}
use apx_db.Schema.{Schema, collection_name}
use apx_db.Schema.Registry.{Registries}
use apx_db.Blob.Scalars.{Stores}
use apx_db.Engine.Documents.{document_id}
use apx_db.Collection.{document_ids, find_document_by_id, Collection, IndexDefinition}
use apx_db.Collection.Transactions.{has_active_write_txn}
use apx_db.Collection.Store.{
  Store, Files, Blobs, find_collection, loaded_collection, new_collection,
  apxdb_register_collection, with_index, apxdb_add_index, is_conforming,
}
use apx_db.Collection.Operations.{
  parsed, document_blob, put_conforming, apxdb_put_document, delete_stored, apxdb_delete_document,
  apxdb_get_document,
}
use apx_db.Collection.Validate.{validate_document_against_schema}
use apx_db.Collection.Sound.{IsSound, IsIndexSound, All-append_last}
use apx_db.Collection.PutDelete.{put_stored-IsSound, delete_stored-IsSound}
use apx_db.Collection.Loading.{
  AllSound, LoadsSound, find_collection-IsSound, loaded_collection-AllSound, change-AllSound,
}

module _ {D : Type 0} where
  pub apxdb_register_collection-AllSound :
      (registries : Registries) (sch : Schema) (s : Store D)
      → AllSound s
      → AllSound (apxdb_register_collection registries sch s).1
  unfolding apxdb_register_collection
  apxdb_register_collection-AllSound registries sch s a =
      elim (Option-cases (collection_name sch)) [
        | inl e ↦ rw (e, apxdb_register_collection) a
        | inr (name, e) ↦ elim (Option-cases (find_collection s.collections (some name))) [
          | inr (_, g) ↦ rw (e, g, apxdb_register_collection) a
          | inl g ↦
              rw (e, g, apxdb_register_collection)
                (All-append_last IsSound s.collections (new_collection registries sch) a new_sound)
        ]
      ]
    where
      new_sound : IsSound {D = D} (new_collection registries sch)
      new_sound = record { distinct = unfold document_ids in tt; indexed = tt }

  with_index-IsSound :
      (d : IndexDefinition) (c : Collection D) → IsSound c → IsSound (with_index d c)
  with_index-IsSound d c v = record {
    distinct = v.distinct;
    indexed = All-append_last (IsIndexSound (document_ids c.documents)) c.index_data _ v.indexed tt;
  }

  pub apxdb_add_index-AllSound :
      (name : Option Text) (d : IndexDefinition) (s : Store D)
      → AllSound s
      → AllSound (apxdb_add_index name d s).1
  unfolding apxdb_add_index
  apxdb_add_index-AllSound name d s a = elim (Option-cases (find_collection s.collections name)) [
    | inl e ↦ rw (e, apxdb_add_index) a
    | inr ((i, c), e) ↦
        rw (e, apxdb_add_index)
          (change-AllSound i (with_index d c) s.collections
            (with_index-IsSound d c (find_collection-IsSound s.collections name i c a e)) a)
  ]

  pub apxdb_delete_document-AllSound :
      (files : Files D)
      → LoadsSound files
      → (name id : Option Text) (s : Store D) → AllSound s
      → AllSound (apxdb_delete_document files name id s).1
  unfolding apxdb_delete_document
  apxdb_delete_document-AllSound files l none id s a = a
  apxdb_delete_document-AllSound files l (some name) none s a = a
  apxdb_delete_document-AllSound files l (some name) (some id) s a =
      let s' = (loaded_collection files (some name) s).1 in
      let (a', found) = loaded_collection-AllSound files l (some name) s a in
      elim (Bool-cases (has_active_write_txn s.transactions)) [
        | inr e ↦ rw e a
        | inl e ↦ elim (Option-cases (loaded_collection files (some name) s).0) [
          | inl g ↦ rw (e, g) a'
          | inr ((i, c), g) ↦
              rw (e, g)
                (change-AllSound i (delete_stored id c).1 s'.collections
                  (delete_stored-IsSound id c (found i c g)) a')
        ]
      ]

  pub apxdb_get_document-AllSound :
      (files : Files D)
      → LoadsSound files
      → (blobs : Blobs D) (name id : Option Text) (s : Store D) → AllSound s
      → AllSound (apxdb_get_document files blobs name id s).1
  unfolding apxdb_get_document
  apxdb_get_document-AllSound files l blobs none id s a = a
  apxdb_get_document-AllSound files l blobs (some name) none s a = a
  apxdb_get_document-AllSound files l blobs (some name) (some id) s a =
      let (a', found) = loaded_collection-AllSound files l (some name) s a in
      elim (Option-cases (loaded_collection files (some name) s).0) [
        | inl g ↦ rw (g, apxdb_get_document) a'
        | inr ((i, c), g) ↦ elim (Option-cases (find_document_by_id c.documents id)) [
          | inl h ↦ rw (g, h, apxdb_get_document) a'
          | inr (d, h) ↦ rw (g, h, apxdb_get_document) a'
        ]
      ]

module _ {D : Type 0} ⦃fp : Doubles D⦄ ⦃st : Stores D⦄ where
  put_conforming-IsSound :
      (blobs : Blobs D) (id : Text) (c : Collection D) (json : Text)
      → IsSound c
      → IsSound (put_conforming blobs id c json).1
  unfolding put_conforming
  put_conforming-IsSound blobs id c json v =
      elim (Option-cases (parsed {D = D} (apxdb_json_parse json))) [
        | inl e ↦ rw (e, put_conforming) v
        | inr (value, e) ↦ elim (Option-cases (document_blob blobs c value)) [
          | inl g ↦ rw (e, g, put_conforming) v
          | inr (blob, g) ↦
              rw (e, g, put_conforming)
                (put_stored-IsSound blobs.payloads (record { id = id; json = json; blob = blob })
                  value c v)
        ]
      ]

  pub apxdb_put_document-AllSound :
      (files : Files D)
      → LoadsSound files
      → (blobs : Blobs D) (name json : Option Text) (s : Store D) → AllSound s
      → AllSound (apxdb_put_document files blobs name json s).1
  unfolding apxdb_put_document
  apxdb_put_document-AllSound files l blobs none json s a = a
  apxdb_put_document-AllSound files l blobs (some name) none s a = a
  apxdb_put_document-AllSound files l blobs (some name) (some json) s a =
      let s' = (loaded_collection files (some name) s).1 in
      let (a', found) = loaded_collection-AllSound files l (some name) s a in
      elim (Bool-cases (has_active_write_txn s.transactions)) [
        | inr e ↦ rw e a
        | inl e ↦ elim (Option-cases (loaded_collection files (some name) s).0) [
          | inl g ↦ rw (e, g) a'
          | inr ((i, c), g) ↦
              elim (Bool-cases
                (is_conforming (validate_document_against_schema D c.collection_schema json))) [
                  | inr h ↦ rw (e, g, h) a'
                  | inl h ↦
                      rw (e, g, h)
                        (change-AllSound i
                          (put_conforming blobs (document_id (s'.collection_counter + 1)) c json).1
                          s'.collections
                          (put_conforming-IsSound blobs (document_id (s'.collection_counter + 1)) c
                            json (found i c g))
                          a')
                ]
        ]
      ]
