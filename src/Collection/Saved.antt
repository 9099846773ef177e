-- ===== src/Collection/Saved.antt =====
-- src/native/apxdb_collection.c: the bytes of a collection's file and of its index file. A write that fails
-- is not modelled; a collection that is registered has a name, and the texts are without NULs.
use apx_db.Common.{
  ℕ, Bool, List, [], ◌∷◌, ◌++◌, Option, none, some, Text, codes, length, if◌then◌else◌,
}
use apx_db.Schema.{collection_name}
use apx_db.Blob.Scalars.{le_bytes, Stores}
use apx_db.Query.Ids.{Ids}
use apx_db.Collection.{
  Collection, StoredDocument, IndexDefinition, IndexData, Entry, IndexType, by_value, by_hash,
  by_elements,
}
use apx_db.Collection.Signature.{compute_schema_signature}

-- A text behind its length in 32 bits, as the writers of both files put it.
abbrev pub sized_text : Text → Text
sized_text s = le_bytes 4 (length s) ++ s

abbrev pub text_or_empty : Option Text → Text
text_or_empty none = []
text_or_empty (some s) = s

abbrev flag_byte : Bool → ℕ
flag_byte b = if b then 1 else 0

abbrev sized_blob : Text → Text
sized_blob blob = le_bytes 8 (length blob) ++ blob

-- One document of the file.
unfoldable pub saved_document : StoredDocument → Text
saved_document d = sized_text d.id ++ (sized_text d.json ++ sized_blob d.blob)

-- The loop over the documents.
unfoldable pub saved_documents : List StoredDocument → Text
saved_documents [] = []
saved_documents (d ∷ ds) = saved_document d ++ saved_documents ds

abbrev pub collection_magic : Text
collection_magic = codes "APXDBCLT"

abbrev pub index_magic : Text
index_magic = codes "APXDBIDX"

-- `kCollectionFileVersion`.
abbrev pub collection_file_version : ℕ
collection_file_version = 2

unfoldable pub index_type_code : IndexType → ℕ
index_type_code by_value = 0
index_type_code by_hash = 1
index_type_code by_elements = 2

unfoldable saved_definition : IndexDefinition → Text
unfolding index_type_code
saved_definition d =
    sized_text d.field_name
    ++ (le_bytes 4 (index_type_code d.index_type)
        ++ flag_byte d.composite ∷ flag_byte d.multi_entry ∷ 0 ∷ 0 ∷ [])

unfoldable saved_definitions : List IndexDefinition → Text
unfolding saved_definition
saved_definitions [] = []
saved_definitions (d ∷ ds) = saved_definition d ++ saved_definitions ds

unfoldable saved_ids : Ids → Text
saved_ids [] = []
saved_ids (id ∷ ids) = sized_text id ++ saved_ids ids

module _ {D : Type 0} where
  abbrev pub signature_of : Collection D → ℕ
  signature_of c = compute_schema_signature c.collection_schema

  abbrev pub name_text : Collection D → Text
  name_text c = text_or_empty (collection_name c.collection_schema)

  -- Magic, version, signature and name, which both files begin with.
  unfoldable pub saved_header : Text → ℕ → Collection D → Text
  saved_header magic version c =
      magic ++ (le_bytes 4 version ++ (le_bytes 8 (signature_of c) ++ sized_text (name_text c)))

  -- The bytes that `save_collection_to_file` writes.
  unfoldable pub collection_file : Collection D → Text
  unfolding saved_header saved_documents saved_document
  collection_file c =
      saved_header collection_magic collection_file_version c
      ++ (le_bytes 4 (length c.documents) ++ saved_documents c.documents)

module _ {D : Type 0} ⦃st : Stores D⦄ where
  unfoldable saved_entry : Entry D → Text
  unfolding saved_ids
  saved_entry e =
      flag_byte e.has_numeric_key
      ∷ (sized_text (text_or_empty e.key)
          ++ ((if e.has_numeric_key then le_bytes 8 (st.double_bits e.numeric_key) else [])
              ++ (le_bytes 4 (length e.doc_ids) ++ saved_ids e.doc_ids)))

  unfoldable saved_entries : List (Entry D) → Text
  unfolding saved_entry
  saved_entries [] = []
  saved_entries (e ∷ es) = saved_entry e ++ saved_entries es

  unfoldable saved_index_data : List (IndexData D) → Text
  unfolding saved_entries
  saved_index_data [] = []
  saved_index_data (x ∷ xs) =
      le_bytes 4 (length x.entries) ++ (saved_entries x.entries ++ saved_index_data xs)

  -- The bytes that `save_collection_index_file` writes.
  unfoldable pub index_file : Collection D → Text
  unfolding saved_header saved_definitions saved_index_data
  index_file c =
      saved_header index_magic 3 c
      ++ (le_bytes 4 (length c.indexes)
          ++ (saved_definitions c.indexes ++ saved_index_data c.index_data))
