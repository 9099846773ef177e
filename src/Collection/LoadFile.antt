-- ===== src/Collection/LoadFile.antt =====
-- src/native/apxdb_collection.c: `load_collection_from_file`, on the bytes of a collection's file and of its
-- index file: the documents, and then the indexes.
use apx_db.Common.{
  ℕ, Bool, true, false, List, [], ◌∷◌, Option, none, some, ◌>>=◌, Text, length, ◌==◌, if◌then◌else◌,
}
use apx_db.Libc.{Doubles}
use apx_db.Json.Parser.{apxdb_json_parse}
use apx_db.Blob.Read.{Loads}
use apx_db.Collection.{Collection, StoredDocument}
use apx_db.Collection.Indexing.{Payloads, index_document}
use apx_db.Collection.Operations.{parsed}
use apx_db.Collection.Loaded.{
  LoadResult, load_done, load_failed, index_freed, read_uint_from_file, read_collection_header,
  load_documents,
}
use apx_db.Collection.IndexFile.{
  index_read, index_refused, index_dangling, load_collection_index_file,
}

abbrev pub set_clean : {D : Type 0} → LoadResult × Collection D → LoadResult × Collection D
set_clean (load_done, c) = (load_done, record c { dirty = false })
set_clean (r, c) = (r, c)

abbrev pub indexed_again : {D : Type 0} → Bool × Collection D → LoadResult × Collection D
indexed_again (done, c) = (if done then load_done else load_failed, c)

module _ {D : Type 0} ⦃fp : Doubles D⦄ ⦃ld : Loads D⦄ (payloads : Payloads D) where
  -- The loop that indexes the documents again.
  unfoldable pub index_all : List StoredDocument → Collection D → Bool × Collection D
  index_all [] c = (true, c)
  index_all (d ∷ ds) c = elim (parsed (apxdb_json_parse d.json)) [
    | none ↦ (false, c)
    | some v ↦
        let (done, c') = index_document payloads d v c in
        let rest = index_all ds c' in if done then rest else (false, c')
  ]

  -- From the index file, or else from the documents.
  unfoldable pub load_indexes : Option Text → Collection D → LoadResult × Collection D
  unfolding index_all load_collection_index_file
  load_indexes index_bytes c =
      let again = indexed_again (index_all c.documents c) in
      if length c.indexes == 0 then (load_done, c) else elim index_bytes [
        | none ↦ again
        | some s ↦ elim (load_collection_index_file payloads.zero_double s c) [
          | index_read xs ↦ (load_done, record c { index_data = xs })
          | index_refused ↦ again
          | index_dangling ↦ (index_freed, c)
        ]
      ]

  -- After the documents: the indexes, and the flag.
  unfoldable pub finish_loading :
      Option Text → LoadResult × (ℕ × Collection D) → LoadResult × (ℕ × Collection D)
  unfolding load_indexes
  finish_loading index_bytes (load_done, (counter, c)) =
      let (result, c') = set_clean (load_indexes index_bytes c) in (result, (counter, c'))
  finish_loading index_bytes (r, loaded) = (r, loaded)

  -- The bytes of the collection's file, and those of its index file if there is one.
  unfoldable pub load_collection :
      Text → Option Text → ℕ → Collection D → LoadResult × (ℕ × Collection D)
  unfolding read_collection_header read_uint_from_file load_documents finish_loading
  load_collection s index_bytes counter c =
      elim (read_collection_header c s >>= λ s1. read_uint_from_file 4 s1) [
        | none ↦ (load_failed, (counter, c))
        | some (count, s2) ↦ finish_loading index_bytes (load_documents count s2 counter c)
      ]
