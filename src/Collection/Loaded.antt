-- ===== src/Collection/Loaded.antt =====
-- src/native/apxdb_collection.c: `load_collection_from_file` and `load_collection_index_file`, on the bytes
-- of the files; memory for what is read is there. The indexes of a collection that is not loaded are empty.
use apx_db.Common.{
  ℕ, zero, suc, ◌-◌, ◌^◌, ◌||◌, not, [], ◌∷◌, Option, none, some, ◌>>=◌, ◌>>◌, guard, Text, codes,
  text_eq, length, take, drop, ltb, ◌==◌, if◌then◌else◌,
}
use apx_db.Common.Int.{pos, negsuc, leb_ℤ}
use apx_db.Libc.{strtoll}
use apx_db.Blob.Read.{read_le}
use apx_db.Blob.Print.{c_string}
use apx_db.Engine.Documents.{is_prefix, to_int32}
use apx_db.Collection.{Collection, StoredDocument}
use apx_db.Collection.Operations.{append_document}
use apx_db.Collection.Saved.{collection_magic, signature_of, name_text}

-- What is read, and the bytes that are left.
abbrev pub Read : Type 0 → Type 0
Read A = Option (A × Text)

unfoldable pub read_bytes_from_file : ℕ → Text → Read Text
read_bytes_from_file k s = if ltb (length s) k then none else some (take k s, drop k s)

-- `read_uint8_from_file`, `read_uint32_from_file` and `read_uint64_from_file`, by the number of bytes.
unfoldable pub read_uint_from_file : ℕ → Text → Read ℕ
unfolding read_le
read_uint_from_file k s = if ltb (length s) k then none else some (read_le k s, drop k s)

-- A text behind its length, which the code then takes up to its first NUL.
unfoldable pub read_text : Text → Read Text
unfolding read_uint_from_file read_bytes_from_file c_string
read_text s = do
  (size, s1) ← read_uint_from_file 4 s
  (bytes, s2) ← read_bytes_from_file size s1
  some (c_string bytes, s2)

-- The same, where a length of 0 is refused.
unfoldable pub read_some_text : Text → Read Text
unfolding read_uint_from_file read_bytes_from_file c_string
read_some_text s = do
  (size, s1) ← read_uint_from_file 4 s
  guard (not (size == 0))
  (bytes, s2) ← read_bytes_from_file size s1
  some (c_string bytes, s2)

-- One document.
unfoldable pub read_document : Text → Read StoredDocument
unfolding read_some_text read_text read_uint_from_file read_bytes_from_file
read_document s = do
  (id, s1) ← read_some_text s
  (json, s2) ← read_text s1
  (size, s3) ← read_uint_from_file 8 s2
  (blob, s4) ← read_bytes_from_file size s3
  some (record { id = id; json = json; blob = blob }, s4)

-- The counter after a document with that id.
unfoldable pub update_document_counter_from_id : Text → ℕ → ℕ
unfolding is_prefix to_int32 strtoll
update_document_counter_from_id id counter =
    let number = drop 4 id in
    let c = strtoll number in
    if not (is_prefix (codes "doc_") id)
    then counter
    else if length c.rest == length number || not (length c.rest == 0)
    then counter
    else elim c.value [
      | negsuc n ↦ counter
      | pos n ↦
          if n == 0 || ltb (2 ^ 31 - 1) n
          then counter
          else if leb_ℤ (pos n) (to_int32 counter)
          then counter
          else n
    ]

-- How loading ends. `append_document` frees the blob of a document that it refuses, and the code that
-- loads frees it again: what happens then is undefined, unless there is no blob. Undefined too is what
-- happens when the documents are indexed over an index that was read in part and freed (`index_freed`).
pub data LoadResult : Type 0 where
  load_done load_failed blob_freed_twice index_freed : LoadResult

abbrev pub refused_document : Text → LoadResult
refused_document [] = load_failed
refused_document (b ∷ blob) = blob_freed_twice

module _ {D : Type 0} where
  -- Magic, version, signature and name of a collection's file.
  unfoldable pub read_collection_header : Collection D → Text → Option Text
  unfolding read_some_text read_uint_from_file read_bytes_from_file
  read_collection_header c s = do
    (magic, s1) ← read_bytes_from_file 8 s
    guard (text_eq magic collection_magic)
    (version, s2) ← read_uint_from_file 4 s1
    guard (version == 1 || version == 2)
    s3 ←
        (if version == 2
          then (read_uint_from_file 8 s2 >>= λ (signature, s').
              guard (signature == signature_of c) >> some s')
          else some s2)
    (name, s4) ← read_some_text s3
    guard (text_eq name (name_text c))
    some s4

  -- The loop over the documents, which go into the collection one by one.
  unfoldable pub load_documents : ℕ → Text → ℕ → Collection D → LoadResult × (ℕ × Collection D)
  unfolding read_document append_document update_document_counter_from_id
  load_documents zero s counter c = (load_done, (counter, c))
  load_documents (suc count) s counter c = elim (read_document s) [
    | none ↦ (load_failed, (counter, c))
    | some (d, rest) ↦
        let (appended, c') = append_document d c in
        let loaded = load_documents count rest (update_document_counter_from_id d.id counter) c' in
        if appended then loaded else (refused_document d.blob, (counter, c'))
  ]
