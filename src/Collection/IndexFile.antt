-- ===== src/Collection/IndexFile.antt =====
-- src/native/apxdb_collection.c: `load_collection_index_file`, on the bytes of the file.
use apx_db.Common.{
  ℕ, zero, suc, Bool, true, false, ◌&&◌, ◌||◌, not, List, [], ◌∷◌, Option, none, some, ◌>>=◌, ◌>>◌,
  guard, Text, text_eq, length, leb, ◌==◌, if◌then◌else◌,
}
use apx_db.Blob.Read.{Loads}
use apx_db.Query.Ids.{Ids}
use apx_db.Collection.{
  Collection, StoredDocument, IndexDefinition, IndexData, Entry, find_document_by_id,
}
use apx_db.Collection.Indexing.{with_entries}
use apx_db.Collection.Saved.{index_magic, index_type_code, signature_of, name_text}
use apx_db.Collection.Loaded.{Read, read_uint_from_file, read_bytes_from_file, read_some_text}

-- The ids of an entry.
unfoldable read_ids : ℕ → Text → Read Ids
unfolding read_some_text
read_ids zero s = some ([], s)
read_ids (suc count) s = do
  (id, s1) ← read_some_text s
  (ids, s2) ← read_ids count s1
  some (id ∷ ids, s2)

abbrev bool_eq : Bool → Bool → Bool
bool_eq a b = if a then b else not b

-- A definition of the file, which has to be the collection's.
unfoldable match_definition : IndexDefinition → Text → Option Text
unfolding read_some_text read_uint_from_file index_type_code
match_definition d s = do
  (name, s1) ← read_some_text s
  (type, s2) ← read_uint_from_file 4 s1
  (composite, s3) ← read_uint_from_file 1 s2
  (multi_entry, s4) ← read_uint_from_file 1 s3
  (reserved1, s5) ← read_uint_from_file 1 s4
  (reserved2, s6) ← read_uint_from_file 1 s5
  guard (text_eq d.field_name name && index_type_code d.index_type == type)
  guard (bool_eq d.composite (not (composite == 0)))
  guard (bool_eq d.multi_entry (not (multi_entry == 0)))
  some s6

unfoldable match_definitions : List IndexDefinition → Text → Option Text
unfolding match_definition
match_definitions [] s = some s
match_definitions (d ∷ ds) s = match_definition d s >>= λ rest. match_definitions ds rest

-- `validate_loaded_index_data`, for one entry.
unfoldable ids_are_stored : List StoredDocument → Ids → Bool
ids_are_stored ds [] = true
ids_are_stored ds (id ∷ ids) = elim (find_document_by_id ds id) [
  | none ↦ false
  | some d ↦ ids_are_stored ds ids
]

module _ {D : Type 0} where
  -- The signature behind the name, in every version.
  unfoldable pub match_signature : Collection D → Text → Option Text
  unfolding read_uint_from_file
  match_signature c s = do
    (signature, rest) ← read_uint_from_file 8 s
    guard (signature == signature_of c)
    some rest

  -- Magic, version and name: the code looks for a signature in front of the name in version 2 only, and
  -- behind the name in every version. The version is returned.
  unfoldable pub read_index_header : Collection D → Text → Read ℕ
  unfolding read_some_text read_bytes_from_file read_uint_from_file match_signature
  read_index_header c s = do
    (magic, s1) ← read_bytes_from_file 8 s
    guard (text_eq magic index_magic)
    (version, s2) ← read_uint_from_file 4 s1
    guard (version == 1 || version == 2 || version == 3)
    s3 ← (if version == 2 then match_signature c s2 else some s2)
    (name, s4) ← read_some_text s3
    guard (text_eq name (name_text c))
    s5 ← match_signature c s4
    some (version, s5)

  unfoldable entries_are_valid : List StoredDocument → List (Entry D) → Bool
  unfolding ids_are_stored
  entries_are_valid ds [] = true
  entries_are_valid ds (e ∷ es) = elim e.key [
    | none ↦ false
    | some key ↦
        leb (length e.doc_ids) (length ds)
        && (ids_are_stored ds e.doc_ids && entries_are_valid ds es)
  ]

  unfoldable validate_loaded_index_data : List StoredDocument → List (IndexData D) → Bool
  unfolding entries_are_valid
  validate_loaded_index_data ds [] = true
  validate_loaded_index_data ds (x ∷ xs) =
      entries_are_valid ds x.entries && validate_loaded_index_data ds xs

-- What comes of an index file: its indexes; nothing, with the indexes as empty as they were; or an index
-- whose entries were freed, or are not complete.
pub data IndexResult (D : Type 0) : Type 0 where
  index_read : List (IndexData D) → IndexResult D
  index_refused index_dangling : IndexResult D

abbrev cons_index : {D : Type 0} → IndexData D → IndexResult D → IndexResult D
cons_index x (index_read xs) = index_read (x ∷ xs)
cons_index x r = r

abbrev validated : {D : Type 0} → List StoredDocument → IndexResult D → IndexResult D
validated ds (index_read xs) =
    if validate_loaded_index_data ds xs then index_read xs else index_refused
validated ds r = r

-- The number of a key, and `0.0` where there is none.
module _ {D : Type 0} ⦃ld : Loads D⦄ (zero_double : D) where
  unfoldable read_numeric_key : Bool → Text → Read D
  unfolding read_uint_from_file
  read_numeric_key false s = some (zero_double, s)
  read_numeric_key true s = do
    (bits, rest) ← read_uint_from_file 8 s
    some (ld.of_double_bits bits, rest)

  unfoldable read_entry_of_index : ℕ → ℕ → Text → Read (Entry D)
  unfolding read_uint_from_file read_some_text read_numeric_key read_ids
  read_entry_of_index version document_count s = do
    (kind, s1) ← (if leb 3 version then read_uint_from_file 1 s else some (0, s))
    (key, s2) ← read_some_text s1
    (number, s3) ← read_numeric_key (kind == 1) s2
    (count, s4) ← read_uint_from_file 4 s3
    guard (leb count document_count)
    (ids, s5) ← read_ids count s4
    some (
      record { key = some key; has_numeric_key = kind == 1; numeric_key = number; doc_ids = ids },
      s5,
    )

  unfoldable read_entries : ℕ → ℕ → ℕ → Text → Read (List (Entry D))
  unfolding read_entry_of_index
  read_entries version document_count zero s = some ([], s)
  read_entries version document_count (suc count) s = do
    (e, s1) ← read_entry_of_index version document_count s
    (es, s2) ← read_entries version document_count count s1
    some (e ∷ es, s2)

  -- Where an index is left off within its entries, it keeps what it points to of them.
  unfoldable read_index_data : ℕ → ℕ → List (IndexData D) → Text → IndexResult D
  unfolding read_uint_from_file read_entries
  read_index_data version document_count [] s = index_read []
  read_index_data version document_count (x ∷ xs) s = elim (read_uint_from_file 4 s) [
    | none ↦ index_refused
    | some (count, s1) ↦ elim (guard (leb count document_count)) [
      | none ↦ index_refused
      | some _ ↦ elim (read_entries version document_count count s1) [
        | none ↦ index_dangling
        | some (es, s2) ↦
            cons_index (with_entries es x) (read_index_data version document_count xs s2)
      ]
    ]
  ]

  -- What is in front of the entries, with the version.
  unfoldable pub read_index_definitions : Collection D → Text → Read ℕ
  unfolding read_index_header read_uint_from_file match_definitions
  read_index_definitions c s = do
    (version, s1) ← read_index_header c s
    (count, s2) ← read_uint_from_file 4 s1
    guard (count == length c.indexes)
    s3 ← match_definitions c.indexes s2
    some (version, s3)

  unfoldable pub load_collection_index_file : Text → Collection D → IndexResult D
  unfolding read_index_definitions read_index_data validate_loaded_index_data
  load_collection_index_file s c = elim (read_index_definitions c s) [
    | none ↦ index_refused
    | some (version, s1) ↦
        validated c.documents (read_index_data version (length c.documents) c.index_data s1)
  ]
