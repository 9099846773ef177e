-- ===== src/Examples/Reading.antt =====
-- Documents that are read from their bytes: a collection of two documents with a flag and tags. Numbers are
-- 0 and 1 here, so that each comes back from its bits.
use apx_db.Common.{
  ◌<◌, ◌≡◌, ◌≢◌, refl, Bool, true, false, List, [], ◌∷◌, none, some, codes, text_eq, length, arith,
  ◌^◌,
}
use apx_db.Common.Int.{pos}
use apx_db.Common.Outcome.{returned, out_of_fuel}
use apx_db.Json.{
  Value, bool, string, array, object, no_items, item, no_members, member, find_member,
  apxdb_json_object_get,
}
use apx_db.Blob.Scalars.{le_bytes, parse_integer_value}
use apx_db.Blob.Read.{field_index, get_schema_field_index, get_blob_field_payload}
use apx_db.Blob.Write.{
  write_scalar, write_list, write_items, write_fields, write_document, write_by_type, count_items,
  padded, unwritten, serialize_field_payload, serialize_document_blob,
}
use apx_db.Blob.Size.{
  scalar_size, size_items, size_list, size_fields, document_size, size_by_type, count_fields,
  compute_field_payload_size,
}
use apx_db.Blob.Match.{blob_field_matches_value}
use apx_db.Blob.Fetch.{of_field}
use apx_db.Blob.FieldPayload.{Found, get_blob_field_payload-serialize_document_blob}
use apx_db.Blob.Parts.{IsSegment}
use apx_db.Blob.ValueMeets.{value_meets, blob_field_matches_value-serialize_field_payload}
use apx_db.Blob.MatchFuel.{blob_field_matches_value-ne-out_of_fuel}
use apx_db.Query.Ids.{has_id}
use apx_db.Query.Combine.{or_empty}
use apx_db.Query.Matches.{has_empty_and}
use apx_db.Query.Scan.{Gpu, gpu_ids, scan_docs_for_member}
use apx_db.Query.ScanMeets.{
  document_meets, ids_meeting, documents_of, AreStored, IsSearchable, IsDocumentWithinLimits,
  scan_docs_for_member-ids_meeting,
}
use apx_db.Query.Satisfies.{satisfies, asks_only}
use apx_db.Query.Searchable.{is_segment, is_searchable, has_plain_values-IsSearchable}
use apx_db.Query.Calls.{query_ids}
use apx_db.Query.ScanOnly.{gpu_ids-none}
use apx_db.Query.IdLaws.{Distinct}
use apx_db.Query.Answers.{has_id-query_ids}
use apx_db.Collection.{Collection, StoredDocument, document_ids}
use apx_db.Collection.Indexing.{Payloads}
use apx_db.Collection.Store.{Files, Blobs, missing}
use apx_db.Examples.Notes.{
  bit_doubles, bit_stores, bit_loads, bit_exact, bit, tags_field, note_schema, two_tags, first_note,
  second_note, zeros, bytes_of, blob_of_note, tags-written, tags-short, two_tags-IsWithinLimits,
}

blob_field_matches_value-serialize_field_payload_example :
    blob_field_matches_value {D = Bool} 2 tags_field
      (bytes_of (serialize_field_payload zeros 3 tags_field two_tags 30))
      (string (codes "bc"))
    ≡ returned (value_meets tags_field two_tags (string (codes "bc")))
blob_field_matches_value-serialize_field_payload_example =
    blob_field_matches_value-serialize_field_payload zeros 3 0 tags_field two_tags
      (string (codes "bc")) 30 (bytes_of (serialize_field_payload zeros 3 tags_field two_tags 30))
      ((λ e. cc), (λ e. cc)) (λ e. cc) refl two_tags-IsWithinLimits tags-short tags-written

blob_field_matches_value-ne-out_of_fuel_example :
    blob_field_matches_value {D = Bool} 5 tags_field (le_bytes 4 3) (string (codes "bc"))
    ≢ out_of_fuel
blob_field_matches_value-ne-out_of_fuel_example =
    blob_field_matches_value-ne-out_of_fuel 5 tags_field (le_bytes 4 3) (string (codes "bc"))
      (unfold le_bytes in omega arith)

first_note-written :
    serialize_document_blob zeros 3 note_schema first_note ≡ returned (blob_of_note first_note)
unfolding serialize_document_blob write_document document_size size_fields count_fields write_fields
    serialize_field_payload write_by_type write_list write_items write_scalar count_items
    compute_field_payload_size size_by_type scalar_size size_list size_items le_bytes
    apxdb_json_object_get find_member text_eq padded unwritten
first_note-written = refl

second_note-written :
    serialize_document_blob zeros 3 note_schema second_note ≡ returned (blob_of_note second_note)
unfolding serialize_document_blob write_document document_size size_fields count_fields write_fields
    serialize_field_payload write_by_type write_list write_items write_scalar count_items
    compute_field_payload_size size_by_type scalar_size size_list size_items le_bytes
    apxdb_json_object_get find_member text_eq padded unwritten
second_note-written = refl

first_note-short : length (blob_of_note first_note) < 2 ^ 32
unfolding serialize_document_blob write_document document_size size_fields count_fields write_fields
    serialize_field_payload write_by_type write_list write_items write_scalar count_items
    compute_field_payload_size size_by_type scalar_size size_list size_items le_bytes
    apxdb_json_object_get find_member text_eq padded unwritten
first_note-short = omega arith

second_note-short : length (blob_of_note second_note) < 2 ^ 32
unfolding serialize_document_blob write_document document_size size_fields count_fields write_fields
    serialize_field_payload write_by_type write_list write_items write_scalar count_items
    compute_field_payload_size size_by_type scalar_size size_list size_items le_bytes
    apxdb_json_object_get find_member text_eq padded unwritten
second_note-short = omega arith

tags-IsSegment : IsSegment (codes "tags")
tags-IsSegment = ((λ e. cc), ((λ e. cc), ((λ e. cc), ((λ e. cc), ((λ e. cc), tt)))))

tags-found : get_schema_field_index note_schema (codes "tags") ≡ some (1, tags_field)
unfolding get_schema_field_index field_index text_eq
tags-found = refl

get_blob_field_payload-serialize_document_blob_example :
    Found
      (serialize_field_payload zeros 3)
      tags_field
      (of_field first_note tags_field)
      (get_blob_field_payload note_schema (blob_of_note first_note) (codes "tags"))
get_blob_field_payload-serialize_document_blob_example =
    get_blob_field_payload-serialize_document_blob zeros 3 note_schema first_note
      (blob_of_note first_note) (codes "tags") 1 tags_field first_note-written first_note-short
      tags-IsSegment (omega arith) tags-found

-- The two documents, with their values.
abbrev note_rows : List (StoredDocument × Value Bool)
note_rows =
    (record { id = codes "doc_1"; json = codes "{}"; blob = blob_of_note first_note }, first_note)
    ∷ (
      record { id = codes "doc_2"; json = codes "{}"; blob = blob_of_note second_note },
      second_note,
    )
    ∷ []

abbrev notes : Collection Bool
notes = record {
  collection_schema = note_schema;
  layout = none;
  documents = documents_of note_rows;
  indexes = [];
  index_data = [];
  gpu_column_caches = [];
  dirty = false;
  loaded = true;
}

abbrev no_gpu : Gpu Bool
no_gpu = record {
  is_gpu_runtime_available = false;
  gpu_scan_numeric_docs = λ c name f op threshold. none;
  to_int32 = λ d. pos (bit d);
}

first_note-limits : IsDocumentWithinLimits first_note
unfolding parse_integer_value
first_note-limits = ((λ z e. cc), (two_tags-IsWithinLimits, tt))

second_note-limits : IsDocumentWithinLimits second_note
unfolding parse_integer_value
second_note-limits = ((λ z e. cc), (two_tags-IsWithinLimits, tt))

note_rows-AreStored : AreStored zeros note_schema note_rows
note_rows-AreStored = (
  record {
    fuel = 3;
    written = first_note-written;
    short = first_note-short;
    limits = first_note-limits;
  },
  (
    record {
      fuel = 3;
      written = second_note-written;
      short = second_note-short;
      limits = second_note-limits;
    },
    tt,
  ),
)

notes-IsSearchable : IsSearchable note_schema (codes "tags")
unfolding get_schema_field_index field_index text_eq
notes-IsSearchable = has_plain_values-IsSearchable note_schema (codes "tags") refl

no_gpu-answer : gpu_ids no_gpu notes (codes "tags") (string (codes "bc")) ≡ none
no_gpu-answer = gpu_ids-none no_gpu notes (codes "tags") (string (codes "bc")) refl

scan_docs_for_member-ids_meeting_example :
    scan_docs_for_member no_gpu notes (codes "tags") (string (codes "bc"))
    ≡ some (ids_meeting note_schema (codes "tags") (string (codes "bc")) note_rows)
scan_docs_for_member-ids_meeting_example =
    scan_docs_for_member-ids_meeting zeros notes (codes "tags") (string (codes "bc")) tags-IsSegment
      (omega arith) refl notes-IsSearchable no_gpu note_rows no_gpu-answer refl note_rows-AreStored

-- {"tags": "bc", "$or": [{"flag": true}]}
abbrev flagged_query : Value Bool
flagged_query = object (
    member (codes "tags") (string (codes "bc")) (
      member (codes "$or")
        (array (item (object (member (codes "flag") (bool true) no_members)) no_items)) no_members))

flagged_query-regular : has_empty_and flagged_query ≡ false
unfolding has_empty_and text_eq
flagged_query-regular = refl

flagged_query-searchable : asks_only (is_searchable note_schema) flagged_query ≡ true
unfolding asks_only is_searchable is_segment get_schema_field_index field_index text_eq
flagged_query-searchable = refl

notes-Distinct : Distinct (document_ids (documents_of note_rows))
unfolding has_id text_eq document_ids
notes-Distinct = (refl, (refl, tt))

abbrev no_files : Files Bool
no_files = record {
  stat = λ path. missing;
  load_collection_from_file = λ path counter c. (false, (counter, c));
}

abbrev pub plain_payloads : Payloads Bool
plain_payloads = record {
  blob_value_to_string = λ f payload. none;
  blob_payload_to_double = λ f payload. none;
  get_collection_blob_field_payload = λ c blob path. none;
  uninitialised = (false, false);
  zero_double = false;
}

abbrev pub plain_blobs : Blobs Bool
plain_blobs = record {
  payloads = plain_payloads;
  fresh = zeros;
  serialize_document_blob_with_layout = λ l s v. none;
  build_document_json_from_blob = λ c blob. none;
}

has_id-query_ids_example :
    has_id
      (codes "doc_2")
      (or_empty (query_ids no_files plain_blobs no_gpu (λ v. none) notes flagged_query))
    ≡ satisfies (λ name v. document_meets note_schema name v second_note) flagged_query
has_id-query_ids_example =
    has_id-query_ids zeros no_files plain_blobs no_gpu (λ v. none) notes note_rows refl refl refl
      refl note_rows-AreStored notes-Distinct 1
      (
        record { id = codes "doc_2"; json = codes "{}"; blob = blob_of_note second_note },
        second_note,
      )
      flagged_query refl flagged_query-regular flagged_query-searchable
