-- ===== src/Examples/Files.antt =====
-- A collection of two sessions, its file and its index file, and a list that is printed.
use apx_db.Common.{
  ◌≡◌, refl, Bool, false, List, Text, true, [], ◌∷◌, ◌++◌, none, some, codes, text_eq, All, arith,
}
use apx_db.Common.Outcome.{returned}
use apx_db.Json.{array}
use apx_db.Schema.{schema, no_fields, no_schema, ordinal}
use apx_db.Blob.Scalars.{le_bytes}
use apx_db.Blob.Print.{c_string, append_json_from_payload}
use apx_db.Blob.Write.{
  serialize_field_payload, write_by_type, write_list, write_items, write_scalar, count_items,
}
use apx_db.Blob.Size.{compute_field_payload_size, size_by_type, scalar_size}
use apx_db.Blob.PrintLists.{
  items_of, printed_lengths, append_json_from_payload-serialize_field_payload,
}
use apx_db.Query.Ids.{has_id}
use apx_db.Query.IdLaws.{Distinct}
use apx_db.Collection.{Collection, StoredDocument, document_ids}
use apx_db.Collection.Sound.{IsSound}
use apx_db.Engine.Documents.{is_prefix}
use apx_db.Collection.Signature.{compute_schema_signature}
use apx_db.Collection.Saved.{collection_file, index_file, name_text}
use apx_db.Collection.IndexFile.{index_refused, read_index_header, load_collection_index_file}
use apx_db.Collection.LoadFile.{load_collection}
use apx_db.Collection.ReadBack.{IsSavable}
use apx_db.Collection.FileRound.{IsRestored, load_collection-collection_file}
use apx_db.Collection.IndexRefused.{misread_name, load_collection_index_file-index_file}
use apx_db.Collection.{by_value}
use apx_db.Collection.Disk.{Disk, files_of, RefusesIndexes}
use apx_db.Collection.Store.{Store, Files, present, apxdb_register_collection, apxdb_add_index}
use apx_db.Collection.Operations.{apxdb_get_document}
use apx_db.Collection.Loading.{AllSound}
use apx_db.Collection.Loaded.{read_bytes_from_file}
use apx_db.Schema.Reachable.{no_schemas}
use apx_db.Collection.Reachable.{
  StoreReach, no_collections, at_start, after, set_directory, register, add_index, get,
  StoreReach-AllSound,
}
use apx_db.Collection.LoadSound.{IsRefusedIndex, load_collection-IsSound}
use apx_db.Examples.Reading.{plain_payloads, plain_blobs}
use apx_db.Examples.Notes.{bit_doubles, bit_stores, bit_loads, tags_field, zeros, bytes_of}

abbrev two_sessions : List StoredDocument
two_sessions =
    record { id = codes "doc_1"; json = codes "{}"; blob = 7 ∷ 0 ∷ [] }
    ∷ record { id = codes "doc_4"; json = codes "[1]"; blob = [] }
    ∷ []

abbrev sessions : List StoredDocument → Collection Bool
sessions ds = record {
  collection_schema = schema (some (codes "sessions")) no_fields;
  layout = none;
  documents = ds;
  indexes = [];
  index_data = [];
  gpu_column_caches = [];
  dirty = false;
  loaded = false;
}

two_sessions-IsSavable : All IsSavable two_sessions
unfolding c_string
two_sessions-IsSavable = (
  record {
    has_id = λ e. cc;
    id_fits = (refl, omega arith);
    json_fits = (refl, omega arith);
    blob_fits = omega arith;
  },
  (
    record {
      has_id = λ e. cc;
      id_fits = (refl, omega arith);
      json_fits = (refl, omega arith);
      blob_fits = omega arith;
    },
    tt,
  ),
)

two_sessions-Distinct : Distinct (document_ids two_sessions)
unfolding has_id text_eq document_ids
two_sessions-Distinct = (refl, (refl, tt))

name-kept : c_string (codes "sessions") ≡ codes "sessions"
unfolding c_string
name-kept = refl

load_collection-collection_file_example :
    IsRestored two_sessions 2 (
      load_collection plain_payloads (collection_file (sessions two_sessions)) none 2 (sessions []))
load_collection-collection_file_example =
    load_collection-collection_file plain_payloads (sessions two_sessions) (sessions []) none 2 refl
      refl refl (name-kept, omega arith) (λ e. cc) (omega arith) two_sessions-IsSavable
      two_sessions-Distinct

-- A name that is shorter than the eight bytes of the signature.
abbrev people : Collection Bool
people = record (sessions two_sessions) {
  collection_schema = schema (some (codes "people")) no_fields;
}

people-other : is_prefix (name_text people) (misread_name people) ≡ false
unfolding is_prefix le_bytes compute_schema_signature
people-other = refl

load_collection_index_file-index_file_example :
    load_collection_index_file false (index_file people) people ≡ index_refused
load_collection_index_file-index_file_example =
    load_collection_index_file-index_file false people people-other (omega arith)

no_sessions-IsSound : IsSound (sessions [])
unfolding document_ids
no_sessions-IsSound = record { distinct = tt; indexed = tt }

sessions-refused : IsRefusedIndex (some (index_file (sessions two_sessions))) (sessions [])
unfolding read_index_header index_file compute_schema_signature text_eq
sessions-refused = refl

load_collection-IsSound_example :
    IsSound
      (load_collection plain_payloads
        (collection_file (sessions two_sessions))
        (some (index_file (sessions two_sessions)))
        0
        (sessions [])).1.1
load_collection-IsSound_example =
    load_collection-IsSound plain_payloads (collection_file (sessions two_sessions))
      (some (index_file (sessions two_sessions))) 0 (sessions []) sessions-refused
      no_sessions-IsSound

-- An empty text and one of two bytes.
abbrev two_texts : List Text
two_texts = [] ∷ codes "ab" ∷ []

two_texts-written :
    serialize_field_payload {D = Bool} zeros 3 tags_field (array (items_of two_texts)) 40
    ≡ returned (
        bytes_of
          (serialize_field_payload {D = Bool} zeros 3 tags_field (array (items_of two_texts)) 40))
unfolding serialize_field_payload write_by_type write_list write_items write_scalar count_items
    compute_field_payload_size size_by_type scalar_size le_bytes
two_texts-written = refl

append_json_from_payload-serialize_field_payload_example :
    append_json_from_payload Bool 2 tags_field (
      bytes_of
        (serialize_field_payload {D = Bool} zeros 3 tags_field (array (items_of two_texts)) 40))
    ≡ returned (codes "[" ++ printed_lengths true two_texts)
append_json_from_payload-serialize_field_payload_example =
    append_json_from_payload-serialize_field_payload Bool zeros (codes "tags") false no_schema
      no_schema ordinal [] 1 1 two_texts 40
      (bytes_of
        (serialize_field_payload {D = Bool} zeros 3 tags_field (array (items_of two_texts)) 40))
      (omega arith, (omega arith, tt)) (omega arith) two_texts-written

-- A disk with the file of the two sessions, and with an index file that is none.
abbrev session_disk : Disk
session_disk = record {
  stat = λ path. present;
  collection_bytes = λ path. some (collection_file (sessions two_sessions));
  index_bytes = λ path name. some (codes "no index");
}

session_disk-RefusesIndexes : RefusesIndexes plain_payloads session_disk
unfolding read_index_header read_bytes_from_file text_eq
session_disk-RefusesIndexes path c = refl

-- The collection was registered, with an index, and its file loaded by a call for a document.
abbrev session_files : Files Bool
session_files = files_of plain_payloads session_disk

abbrev registered_store : Store Bool
registered_store =
    (apxdb_add_index (some (codes "sessions"))
      (record {
        field_name = codes "at";
        index_type = by_value;
        composite = false;
        multi_entry = false;
      })
      (apxdb_register_collection no_schemas (schema (some (codes "sessions")) no_fields)
        (record no_collections { storage_directory = some (codes "/data") })).1).1

abbrev loaded_store : Store Bool
loaded_store =
    (apxdb_get_document session_files plain_blobs (some (codes "sessions")) (some (codes "doc_4"))
      registered_store).1

loaded_store-StoreReach : StoreReach session_files plain_blobs loaded_store
loaded_store-StoreReach =
    after
      (after
        (after (after at_start (set_directory (some (codes "/data"))))
          (register no_schemas (schema (some (codes "sessions")) no_fields)))
        (add_index (some (codes "sessions")) (record {
          field_name = codes "at";
          index_type = by_value;
          composite = false;
          multi_entry = false;
        })))
      (get (some (codes "sessions")) (some (codes "doc_4")))

StoreReach-AllSound_example : AllSound loaded_store
StoreReach-AllSound_example =
    StoreReach-AllSound plain_blobs session_disk session_disk-RefusesIndexes loaded_store-StoreReach
